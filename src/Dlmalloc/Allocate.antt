-- ===== src/Dlmalloc/Allocate.antt =====
-- The writes of `find` of seminar2/dlmalloc.c on a valid state.
mod Carve
pub mod Find
use mathlib.Core.Path.{subst}
use id.Base.{ℕ, ◌+◌, ◌-◌, ◌≤◌, ◌<◌, ◌≡◌, ◌⊎◌, inl, inr, refl, sym, ◌∙◌, List, [], ◌∷◌, arith, ◌==◌}
use id.Dlmalloc.{
  Field, bfree, bsize, free, size, offset, width, get, set, Heap, head_size, after, claim,
}
use id.Dlmalloc.Fields.{get-set_ne}
use id.Dlmalloc.Blocks.{
  Block, BlockAt, BlockAt-disjoint, BlockAt-Sized, Sized, mark, set_status, span,
}
use id.Dlmalloc.FreeList.{Apart, OffLinks, IsFreeList}
use id.Dlmalloc.State.{AllFree, IsValid, Chain-at}
use id.Dlmalloc.Free.{set_status-IsValid}
use id.Dlmalloc.Writes.{apply, Each, Linked-apply}
use id.Dlmalloc.Cut.{cut, cuts, Chain-cut, BlockAt-cut_ne, Sized-cut, span-cut}

-- `claim` writes both copies of the status.
claim_lem :
    (h : Heap) (base b : ℕ) (k : Block) (ks : List Block) (xs : List ℕ)
    → IsValid h base ks xs
    → BlockAt base ks b k
    → claim b h ≡ (b, record h { mem = set_status b (b + k.payload + head_size) 0 h.mem })
unfolding claim after
claim_lem h base b k ks xs v at =
    let (sz, fr) = Chain-at h.mem base 0 0 b k ks at v.chain in
    let kept : get size b (set free b 0 h.mem) ≡ k.payload =
      get-set_ne size b free b 0 h.mem (omega arith) ∙ sz in
    rw kept

-- A block that is taken whole is marked as taken.
pub claim-IsValid :
    (h : Heap) (base b : ℕ) (k : Block) (ks : List Block) (xs : List ℕ)
    → IsValid h base ks xs
    → BlockAt base ks b k
    → Apart b xs
    → ((claim b h).0 ≡ b) × IsValid (claim b h).1 base (mark b 0 base ks) xs
claim-IsValid h base b k ks xs v at apart =
    subst (λ (r : ℕ × Heap). (r.0 ≡ b) × IsValid r.1 base (mark b 0 base ks) xs)
      (sym (claim_lem h base b k ks xs v at))
      (refl, set_status-IsValid h base b 0 k ks xs (omega arith) v at apart)

-- A free block of the list stands before the block at `b`, or behind it.
abbrev pub Off : ℕ → Block → ℕ → Type 0
Off b k y = (y + 24 ≤ b) ⊎ (b + k.payload + head_size ≤ y)

module _ (base b : ℕ) (k : Block) (ks : List Block) (at : BlockAt base ks b k) (s : Sized ks) where
  pub Off-first : (x : ℕ) (xs : List ℕ) → AllFree base ks (x ∷ xs) → Apart b (x ∷ xs) → Off b k x
  Off-first x xs f apart =
      let (l, at', one) = f.0 in
      ground
        (arith, apart.0, BlockAt-disjoint base b x k l ks at at', BlockAt-Sized base x l ks at' s)

  -- A write within the block, or to the tags behind it, spares the links of the list.
  OffLinks-within :
      (g : Field) (x : ℕ) (xs : List ℕ)
      → b ≤ x + offset g
      → x + offset g + width g ≤ b + k.payload + head_size + head_size
      → AllFree base ks xs
      → Apart b xs
      → OffLinks g x xs
  OffLinks-within g x [] low high f apart = tt
  OffLinks-within g x (y ∷ ys) low high f apart =
      (ground (arith, Off-first y ys f apart), OffLinks-within g x ys low high f.1 apart.1)

  AllFree-cut :
      (n : ℕ) (xs : List ℕ)
      → n + head_size ≤ k.payload
      → AllFree base ks xs
      → Apart b xs
      → AllFree base (cut b n base ks) xs
  AllFree-cut n [] fits f apart = tt
  AllFree-cut n (x ∷ xs) fits f apart =
      let (l, at', one) = f.0 in
      (
        (l, BlockAt-cut_ne b n k fits base x l ks at (omega (arith, apart.0)) at', one),
        AllFree-cut n xs fits f.1 apart.1,
      )

  OffLinks-cuts :
      (n : ℕ) (xs : List ℕ)
      → n + head_size ≤ k.payload
      → AllFree base ks xs
      → Apart b xs
      → Each (λ w. OffLinks w.field w.block xs) (cuts b (k.payload - n - head_size) n)
  OffLinks-cuts n xs fits f apart =
      let s : ℕ = b + (k.payload - n - head_size) + head_size in
      let t : ℕ = s + n + head_size in
      let off =
        λ (g : Field) (x : ℕ) (low : b ≤ x + offset g)
            (high : x + offset g + width g ≤ b + k.payload + head_size + head_size).
          OffLinks-within g x xs low high f apart in
      (
        off size b (omega arith) (omega arith),
        (
          off bfree s (omega arith) (omega arith),
          (
            off bsize s (omega arith) (omega arith),
            (
              off free s (omega arith) (omega arith),
              (
                off size s (omega arith) (omega arith),
                (
                  off bsize t (omega arith) (omega arith),
                  (
                    off bfree t (omega arith) (omega arith),
                    (off free s (omega arith) (omega arith), tt),
                  ),
                ),
              ),
            ),
          ),
        ),
      )

-- The writes for a block that the list does not hold cut it in two.
pub cut-IsValid :
    (h : Heap) (base b n : ℕ) (k : Block) (ks : List Block) (xs : List ℕ)
    → IsValid h base ks xs
    → BlockAt base ks b k
    → k.is_free ≡ 1
    → 16 ≤ n
    → n + 24 ≤ k.payload
    → Apart b xs
    → IsValid
        (record h { mem = apply (cuts b (k.payload - n - head_size) n) h.mem })
        base
        (cut b n base ks)
        xs
cut-IsValid h base b n k ks xs v at one big room apart =
    let fits : n + head_size ≤ k.payload = omega arith in
    record {
      positive = v.positive;
      room = omega (arith, v.room, span-cut b n k fits base ks at);
      sized = Sized-cut b n k fits base ks at big room v.sized;
      chain =
          Chain-cut h.mem base 0 0 b n k ks at one fits (BlockAt-Sized base b k ks at v.sized).1
            v.chain;
      list =
          Linked-apply (cuts b (k.payload - n - head_size) n) h.mem 0 h.flist xs
            (OffLinks-cuts base b k ks at v.sized n xs fits v.frees apart) v.list;
      spread = v.spread;
      frees = AllFree-cut base b k ks at v.sized n xs fits v.frees apart;
    }
