-- ===== src/Dlmalloc/State.antt =====
-- When the memory, the arena and the free list of seminar2/dlmalloc.c fit together.
use id.Base.{
  ℕ, ◌+◌, ◌^◌, ◌<◌, ◌≡◌, ◌⊎◌, inl, inr, sym, true, List, [], ◌∷◌, arith, ◌==◌, Bool-cases,
}
use mathlib.Core.Path.{subst, subst₂}
use id.Dlmalloc.{free, size, next, prev, get, set, Heap, head_size, insert, detach}
use id.Dlmalloc.Memory.{Mem}
use id.Dlmalloc.Blocks.{
  Block, Chain, Sized, BlockAt, span, BlockAt-disjoint, BlockAt-Sized, Chain-set_link,
}
use id.Dlmalloc.FreeList.{Apart, Spread, Clear24, IsFreeList, has, relink, next-has, prev-has_or}
use id.Dlmalloc.Detach.{detach_first, detach_inner}

-- A free block stands at `p`, or a taken one.
abbrev pub FreeAt : ℕ → List Block → ℕ → Type 0
FreeAt a ks p = (k : Block) × BlockAt a ks p k × (k.is_free ≡ 1)

abbrev pub AllFree : ℕ → List Block → List ℕ → Type 0
AllFree a ks [] = Unit
AllFree a ks (x ∷ xs) = FreeAt a ks x × AllFree a ks xs

-- The arena at `base` holds the blocks `ks`, and the free list the blocks at `xs`.
pub record IsValid (h : Heap) (base : ℕ) (ks : List Block) (xs : List ℕ) : Type 0 where
  pub positive : 0 < base
  pub room : base + span ks + head_size < 2 ^ 64
  pub sized : Sized ks
  pub chain : Chain h.mem base 0 0 ks
  pub list : IsFreeList h xs
  pub spread : Spread xs
  pub frees : AllFree base ks xs

pub AllFree-has :
    (a y : ℕ) (ks : List Block) (xs : List ℕ) → AllFree a ks xs → has y xs ≡ true → FreeAt a ks y
AllFree-has a y ks [] f i = cc
AllFree-has a y ks (x ∷ xs) f i = elim (Bool-cases (x == y)) [
  | inl hit ↦ let e : x ≡ y = ground arith in subst (λ t. FreeAt a ks t) e f.0
  | inr miss ↦ AllFree-has a y ks xs f.1 (ground arith)
]

-- The header of a block, as the chain gives it.
pub Chain-at :
    (m : Mem) (a bf bs p : ℕ) (k : Block) (ks : List Block)
    → BlockAt a ks p k
    → Chain m a bf bs ks
    → (get size p m ≡ k.payload) × (get free p m ≡ k.is_free)
Chain-at m a bf bs p k [] b h = absurd b
Chain-at m a bf bs p k (j ∷ ks) (inl e) h =
    subst₂ (λ q l. (get size q m ≡ l.payload) × (get free q m ≡ l.is_free)) (sym e.0) e.1
      (h.0.has_size, h.0.has_free)
Chain-at m a bf bs p k (j ∷ ks) (inr b) h =
    Chain-at m (a + j.payload + head_size) j.is_free j.payload p k ks b h.1

-- A taken block lies apart from the free ones.
pub Apart-taken :
    (a b : ℕ) (k : Block) (ks : List Block) (xs : List ℕ)
    → BlockAt a ks b k
    → k.is_free ≡ 0
    → Sized ks
    → AllFree a ks xs
    → Apart b xs
Apart-taken a b k ks [] at e s f = tt
Apart-taken a b k ks (x ∷ xs) at e s f =
    let (l, at', one) = f.0 in
    (
      ground (
        arith,
        BlockAt-disjoint a b x k l ks at at',
        BlockAt-Sized a b k ks at s,
        BlockAt-Sized a x l ks at' s,
      ),
      Apart-taken a b k ks xs at e s f.1,
    )

-- NULL, or a free block.
abbrev pub FreeOrNull : ℕ → List Block → ℕ → Type 0
FreeOrNull a ks p = (p ≡ 0) ⊎ FreeAt a ks p

-- The links that `insert` and `detach` write lie in payloads, so that no header changes.
Chain-relink :
    (m : Mem) (a n v : ℕ) (ks : List Block)
    → FreeOrNull a ks n
    → Sized ks
    → Chain m a 0 0 ks
    → Chain (relink n v m) a 0 0 ks
Chain-relink m a n v ks f s c = elim (Bool-cases (n == 0)) [
  | inl hit ↦
      let same : relink n v m ≡ m = ground arith in subst (λ t. Chain t a 0 0 ks) (sym same) c
  | inr miss ↦
      let whole : relink n v m ≡ set prev n v m = ground arith in
      let (k, at, one) : FreeAt a ks n = ground arith in
      subst (λ t. Chain t a 0 0 ks) (sym whole)
        (Chain-set_link m a 0 0 ks prev n v k (omega arith) at s c)
]

pub Chain-insert :
    (h : Heap) (a b : ℕ) (k : Block) (ks : List Block)
    → BlockAt a ks b k
    → FreeOrNull a ks h.flist
    → Sized ks
    → Chain h.mem a 0 0 ks
    → Chain (insert b h).mem a 0 0 ks
unfolding insert
Chain-insert h a b k ks at f s c =
    let m1 = set next b h.flist h.mem in
    Chain-relink (set prev b 0 m1) a h.flist b ks f s (
      Chain-set_link m1 a 0 0 ks prev b 0 k (omega arith) at s
        (Chain-set_link h.mem a 0 0 ks next b h.flist k (omega arith) at s c))

pub IsFreeList-first :
    (h : Heap) (a : ℕ) (ks : List Block) (xs : List ℕ)
    → IsFreeList h xs
    → AllFree a ks xs
    → FreeOrNull a ks h.flist
IsFreeList-first h a ks [] l f = inl l
IsFreeList-first h a ks (x ∷ xs) l f = inr (subst (λ t. FreeAt a ks t) (sym l.0) f.0)

module _ (h : Heap) (base b : ℕ) (ks : List Block) (xs : List ℕ) (v : IsValid h base ks xs)
    (i : has b xs ≡ true) where
  -- What stands behind a block of the free list.
  pub free_next :
      FreeOrNull base ks (get next b h.mem)
      × ((get next b h.mem ≡ 0) ⊎ Clear24 b (get next b h.mem))
  free_next = elim (next-has h.mem 0 h.flist b xs v.list v.spread i) [
    | inl none ↦ (inl none, inl none)
    | inr (there, apart) ↦
        (inr (AllFree-has base (get next b h.mem) ks xs v.frees there), inr apart)
  ]

  pub Chain-detach : Chain (detach b h).mem base 0 0 ks
  Chain-detach =
      let n = get next b h.mem in
      let q = get prev b h.mem in
      elim (prev-has_or h b xs v.list i) [
        | inl first ↦
            subst (λ (t : Heap). Chain t.mem base 0 0 ks) (sym (detach_first h b first free_next.1))
              (Chain-relink h.mem base n 0 ks free_next.0 v.sized v.chain)
        | inr (pos, there) ↦
            let (k, at, one) = AllFree-has base q ks xs v.frees there in
            subst (λ (t : Heap). Chain t.mem base 0 0 ks) (sym (detach_inner h b pos free_next.1))
              (Chain-set_link (relink n q h.mem) base 0 0 ks next q n k (omega arith) at v.sized
                (Chain-relink h.mem base n q ks free_next.0 v.sized v.chain))
      ]
