-- ===== src/Dlmalloc/Allocate/Find.antt =====
-- `find` of seminar2/dlmalloc.c against its specification on blocks and addresses: the first block
-- of the free list that is large enough, cut if enough of it is left over.
use mathlib.Core.Path.{subst}
use id.Base.{
  ℕ, zero, suc, ◌+◌, ◌-◌, ◌≤◌, ◌<◌, ◌≡◌, ◌⊎◌, inl, inr, refl, sym, ◌∙◌, Bool-cases, ◌==◌, leb, true,
  false, Option, none, some, List, [], ◌∷◌, arith, if◌then◌else◌, length,
}
use id.Dlmalloc.{size, next, get, Heap, head_size, limit, detach, take, carve, find_from, find}
use id.Dlmalloc.Blocks.{Block, BlockAt, BlockAt-bounds, BlockAt-Sized, mark}
use id.Dlmalloc.FreeList.{Apart, Linked, has, erase}
use id.Dlmalloc.State.{FreeAt, IsValid, AllFree-has, Chain-at}
use id.Dlmalloc.Free.{detach-IsValid, insert-IsValid, Apart-erased}
use id.Dlmalloc.Cut.{cut, BlockAt-cut_kept}
use id.Dlmalloc.Allocate.{claim-IsValid, cut-IsValid, Off, Off-first}
use id.Dlmalloc.Allocate.Carve.{carve_lem}

-- The payload of the block at `p`.
unfoldable pub size_at : ℕ → List Block → ℕ → ℕ
size_at a [] p = 0
size_at a (k ∷ ks) p = if p == a then k.payload else size_at (a + k.payload + head_size) ks p

unfoldable pub first_fit : ℕ → ℕ → List Block → List ℕ → Option ℕ
first_fit n a ks [] = none
first_fit n a ks (x ∷ xs) = if leb n (size_at a ks x) then some x else first_fit n a ks xs

-- An address, the blocks and the free list.
abbrev pub Served : Type 0
Served = ℕ × List Block × List ℕ

unfoldable pub serve : ℕ → ℕ → List Block → List ℕ → Option ℕ → Option Served
serve n a ks xs none = none
serve n a ks xs (some x) =
    if leb (n + 24) (size_at a ks x)
    then some (x + (size_at a ks x - n - head_size) + head_size, cut x n a ks, x ∷ erase x xs)
    else some (x, mark x 0 a ks, erase x xs)

-- The result of a call of `find` on `h`, against what the specification says.
abbrev pub Serves : Heap → ℕ → Option Served → ℕ × Heap → Type 0
Serves h a none (p, g) = (p ≡ 0) × (g ≡ h)
Serves h a (some (q, ks, xs)) (p, g) = (p ≡ q) × IsValid g a ks xs

pub size_at-BlockAt :
    (a p : ℕ) (k : Block) (ks : List Block) → BlockAt a ks p k → size_at a ks p ≡ k.payload
unfolding size_at
size_at-BlockAt a p k [] at = absurd at
size_at-BlockAt a p k (j ∷ ks) at =
    let x : ℕ = a + j.payload + head_size in
    ground (arith, size_at-BlockAt x p k ks, BlockAt-bounds x p k ks)

flist-Off :
    (h : Heap) (base b : ℕ) (k : Block) (ks : List Block) (xs : List ℕ)
    → BlockAt base ks b k
    → IsValid h base ks xs
    → Apart b xs
    → (h.flist ≡ 0) ⊎ Off b k h.flist
flist-Off h base b k ks [] at v apart = inl v.list
flist-Off h base b k ks (x ∷ xs) at v apart =
    inr
      (subst (λ t. Off b k t) (sym v.list.0) (Off-first base b k ks at v.sized x xs v.frees apart))

module _ (h : Heap) (base b n : ℕ) (k : Block) (ks : List Block) (xs : List ℕ)
    (v : IsValid h base ks xs) (at : BlockAt base ks b k) (one : k.is_free ≡ 1) (big : 16 ≤ n)
    (apart : Apart b xs) where
  carve-IsValid :
      n + 24 ≤ k.payload
      → ((carve b n h).0 ≡ b + (k.payload - n - head_size) + head_size)
        × IsValid (carve b n h).1 base (cut b n base ks) (b ∷ xs)
  carve-IsValid room =
      let r : ℕ = k.payload - n - head_size in
      let (sz, fr) = Chain-at h.mem base 0 0 b k ks at v.chain in
      let v' = cut-IsValid h base b n k ks xs v at one big room apart in
      let still : FreeAt base (cut b n base ks) b =
        (record k { payload = r }, BlockAt-cut_kept b n k (omega arith) base ks at, one) in
      subst
        (λ (t : ℕ × Heap). (t.0 ≡ b + r + head_size) × IsValid t.1 base (cut b n base ks) (b ∷ xs))
        (sym (
          carve_lem h b n k.payload sz (fr ∙ one) room (BlockAt-Sized base b k ks at v.sized).1
            (flist-Off h base b k ks xs at v apart)))
        (refl, insert-IsValid _ base b (cut b n base ks) xs v' still apart)

-- `take` of a block of the list that is large enough serves the request with it.
take-Serves :
    (h : Heap) (base b n : ℕ) (ks : List Block) (xs : List ℕ)
    → IsValid h base ks xs
    → has b xs ≡ true
    → 16 ≤ n
    → n ≤ size_at base ks b
    → Serves h base (serve n base ks xs (some b)) (take b n h)
unfolding take serve
take-Serves h base b n ks xs v i big fits =
    let (k, at, one) = AllFree-has base b ks xs v.frees i in
    let d = detach b h in
    let ys = erase b xs in
    let vd = detach-IsValid h base b ks xs v i in
    let apart = Apart-erased b xs v.spread i in
    let sz = size_at-BlockAt base b k ks at in
    let small = BlockAt-Sized base b k ks at v.sized in
    let here = (Chain-at d.mem base 0 0 b k ks at vd.chain).0 in
    elim (Bool-cases (leb (n + 24) k.payload)) [
      | inl room ↦
          let room' : leb (limit n) k.payload ≡ true = ground arith in
          rw (here, sz, room, room')
            (carve-IsValid d base b n k ks ys vd at one big apart (ground arith))
      | inr whole ↦
          let whole' : leb (limit n) k.payload ≡ false = ground arith in
          rw (here, sz, whole, whole') (claim-IsValid d base b k ks ys vd at apart)
    ]

-- A request that `find` looks up from `p` on, where the part `rest` of the list is left.
find_from-Serves :
    (h : Heap) (base n : ℕ) (ks : List Block) (xs : List ℕ)
    → IsValid h base ks xs
    → 16 ≤ n
    → (fuel back p : ℕ) (rest : List ℕ) → Linked h.mem back p rest
    → ((y : ℕ) → has y rest ≡ true → has y xs ≡ true)
    → length rest < fuel
    → (r : ℕ × Heap) × (find_from fuel p n h ≡ some r)
      × Serves h base (serve n base ks xs (first_fit n base ks rest)) r
unfolding find_from first_fit serve
find_from-Serves h base n ks xs v big zero back p rest l sub enough = absurd (omega arith)
find_from-Serves h base n ks xs v big (suc fuel) back p [] l sub enough =
    let null : (p == 0) ≡ true = ground arith in rw null ((0, h), refl, (refl, refl))
find_from-Serves h base n ks xs v big (suc fuel) back p (x ∷ rest) l sub enough =
    let i : has x xs ≡ true = sub x (ground arith) in
    let (k, at, one) = AllFree-has base x ks xs v.frees i in
    let live : (x == 0) ≡ false = ground arith in
    let sz : get size x h.mem ≡ size_at base ks x =
      (Chain-at h.mem base 0 0 x k ks at v.chain).0 ∙ sym (size_at-BlockAt base x k ks at) in
    elim (Bool-cases (leb n (size_at base ks x))) [
      | inl fits ↦
          rw (l.0, live, sz, fits)
            (take x n h, refl, take-Serves h base x n ks xs v i big (ground arith))
      | inr small ↦
          rw (l.0, live, sz, small)
            (find_from-Serves h base n ks xs v big fuel x (get next x h.mem) rest l.4
              (λ y j. sub y (ground arith)) (omega arith))
    ]

-- The specification of `find`.
abbrev pub allocate : ℕ → ℕ → List Block → List ℕ → Option Served
allocate n base ks xs = serve n base ks xs (first_fit n base ks xs)

-- On a valid state and for at least 16 bytes the loop of `find` ends within one round more than the
-- free list has blocks. It takes the first block of the list that is large enough: cut, if at least
-- 24 bytes are left over, the kept part then being put in front of the list, and whole otherwise. The
-- state is valid again, with exactly these blocks and this list. If no block is large enough, `find`
-- returns NULL and changes nothing.
pub find-Serves :
    (h : Heap) (base n fuel : ℕ) (ks : List Block) (xs : List ℕ)
    → IsValid h base ks xs
    → 16 ≤ n
    → length xs < fuel
    → (r : ℕ × Heap) × (find fuel n h ≡ some r) × Serves h base (allocate n base ks xs) r
unfolding find
find-Serves h base n fuel ks xs v big enough =
    find_from-Serves h base n ks xs v big fuel 0 h.flist xs v.list (λ y i. i) enough
