-- ===== src/Dlmalloc/Inspect.antt =====
-- The routines of seminar2/dlmalloc.c that read the state: `freelistlength`, `sizes`,
-- `traverseblocks` and `sanity`, on a valid state.
use mathlib.Core.Path.{subst, ap₂}
use id.Base.{
  ℕ, zero, suc, ◌+◌, ◌%◌, ◌<◌, ◌≡◌, inl, inr, refl, sym, ap, ◌∙◌, ◌==◌, true, false, some, List, [],
  ◌∷◌, map, arith, length, take,
}
use id.Dlmalloc.{size, next, prev, get, Heap, head_size, align, after}
use id.Dlmalloc.Views.{
  Line, traverse_from, traverseblocks, complete, sanity_from, sanity, length_from, freelistlength,
  sizes_from, sizes,
}
use id.Dlmalloc.Memory.{Mem}
use id.Dlmalloc.Blocks.{Block, BlockAt, BlockAt-Sized, Chain, Sized}
use id.Dlmalloc.FreeList.{Linked}
use id.Dlmalloc.State.{AllFree, IsValid, Chain-at}
use id.Dlmalloc.Allocate.Find.{size_at, size_at-BlockAt}

length_from-length :
    (fuel back p i : ℕ) (m : Mem) (xs : List ℕ)
    → Linked m back p xs
    → length xs < fuel
    → length_from fuel p i m ≡ some (i + length xs)
unfolding length_from
length_from-length zero back p i m xs l e = absurd (omega arith)
length_from-length (suc fuel) back p i m [] l e = ground arith
length_from-length (suc fuel) back p i m (x ∷ xs) l e =
    ground (arith, length_from-length fuel x (get next x m) (i + 1) m xs)

-- The sizes that the headers of free blocks hold.
Sizes-at :
    (h : Heap) (base back p : ℕ) (ks : List Block) (xs : List ℕ)
    → Chain h.mem base 0 0 ks
    → Linked h.mem back p xs
    → AllFree base ks xs
    → (max : ℕ) → sizes_from max p h.mem ≡ take max (map (size_at base ks) xs)
unfolding sizes_from
Sizes-at h base back p ks xs c l f zero = refl
Sizes-at h base back p ks [] c l f (suc max) = let null : (p == 0) ≡ true = ground arith in rw null
Sizes-at h base back p ks (x ∷ xs) c l f (suc max) =
    let (k, at, one) = f.0 in
    let live : (x == 0) ≡ false = ground arith in
    let sz : get size x h.mem ≡ size_at base ks x =
      (Chain-at h.mem base 0 0 x k ks at c).0 ∙ sym (size_at-BlockAt base x k ks at) in
    rw (l.0, live) (ap₂ ◌∷◌ sz (Sizes-at h base x (get next x h.mem) ks xs c l.4 f.1 max))

-- On a valid state `freelistlength` ends within one round more than the free list has blocks, and
-- counts them; `sizes` writes the payloads of the first `max` of them, in the order of the list.
pub freelist_views :
    (h : Heap) (base fuel max : ℕ) (ks : List Block) (xs : List ℕ)
    → IsValid h base ks xs
    → length xs < fuel
    → (freelistlength fuel h ≡ some (length xs))
      × (sizes max h ≡ take max (map (size_at base ks) xs))
unfolding freelistlength sizes
freelist_views h base fuel max ks xs v e = (
  length_from-length fuel 0 h.flist 0 h.mem xs v.list e ∙ ap some (omega arith),
  Sizes-at h base 0 h.flist ks xs v.chain v.list v.frees max,
)

-- The lines of the blocks `ks` from `a` on, behind a block of status `bf` and size `bs`.
unfoldable pub lines : ℕ → ℕ → ℕ → List Block → List Line
lines a bf bs [] = []
lines a bf bs (k ∷ ks) =
    record {
      address = a;
      line_free = k.is_free;
      line_size = k.payload;
      line_bfree = bf;
      line_bsize = bs;
    }
    ∷ lines (a + k.payload + head_size) k.is_free k.payload ks

traverse_from-lines :
    (fuel a bf bs : ℕ) (m : Mem) (ks : List Block)
    → Chain m a bf bs ks
    → Sized ks
    → length ks < fuel
    → traverse_from fuel a m ≡ some (lines a bf bs ks)
unfolding traverse_from lines after
traverse_from-lines zero a bf bs m ks c s e = absurd (omega arith)
traverse_from-lines (suc fuel) a bf bs m [] c s e = rw c.has_size
traverse_from-lines (suc fuel) a bf bs m (k ∷ ks) c s e =
    let n : ℕ = a + k.payload + head_size in
    let more : (k.payload == 0) ≡ false = ground arith in
    rw (
      c.0.has_size,
      c.0.has_free,
      c.0.has_bfree,
      c.0.has_bsize,
      more,
      traverse_from-lines fuel n k.is_free k.payload m ks c.1 s.3 (omega arith),
    )

-- On a valid state `traverseblocks` ends within one round more than the arena has blocks, and prints
-- each block once, in the order of addresses, with its status, its size and those of the block before.
pub traverseblocks-lines :
    (h : Heap) (base fuel : ℕ) (ks : List Block) (xs : List ℕ)
    → IsValid h base ks xs
    → h.arena ≡ base
    → length ks < fuel
    → traverseblocks fuel h ≡ some (lines base 0 0 ks)
unfolding traverseblocks
traverseblocks-lines h base fuel ks xs v e enough =
    ap (λ a. traverse_from fuel a h.mem) e
    ∙ traverse_from-lines fuel base 0 0 h.mem ks v.chain v.sized enough

-- Every payload is a multiple of ALIGN.
abbrev pub Aligned : List Block → Type 0
Aligned [] = Unit
Aligned (k ∷ ks) = (k.payload % align ≡ 0) × Aligned ks

BlockAt-Aligned :
    (a p : ℕ) (k : Block) (ks : List Block) → BlockAt a ks p k → Aligned ks → k.payload % align ≡ 0
BlockAt-Aligned a p k [] at al = absurd at
BlockAt-Aligned a p k (j ∷ ks) (inl e) al = subst (λ (l : Block). l.payload % align ≡ 0) e.1 al.0
BlockAt-Aligned a p k (j ∷ ks) (inr at) al =
    BlockAt-Aligned (a + j.payload + head_size) p k ks at al.1

sanity_from-complete :
    (h : Heap) (base fuel back p : ℕ) (ks : List Block) (xs : List ℕ)
    → Chain h.mem base 0 0 ks
    → Sized ks
    → Aligned ks
    → Linked h.mem back p xs
    → AllFree base ks xs
    → length xs < fuel
    → sanity_from fuel p back h.mem ≡ some complete
unfolding sanity_from
sanity_from-complete h base zero back p ks xs c s al l f e = absurd (omega arith)
sanity_from-complete h base (suc fuel) back p ks [] c s al l f e =
    let null : (p == 0) ≡ true = ground arith in rw null
sanity_from-complete h base (suc fuel) back p ks (x ∷ xs) c s al l f e =
    let (k, at, one) = f.0 in
    let (sz, fr) = Chain-at h.mem base 0 0 x k ks at c in
    let big = BlockAt-Sized base x k ks at s in
    let mult = BlockAt-Aligned base x k ks at al in
    let live : (x == 0) ≡ false = ground arith in
    let more : (k.payload == 0) ≡ false = ground arith in
    let same : (back == back) ≡ true = ground arith in
    rw (l.0, live, sz, more, fr, one, mult, l.3, same)
      (sanity_from-complete h base fuel x (get next x h.mem) ks xs c s al l.4 f.1 (omega arith))

-- On a valid state whose payloads are multiples of ALIGN and whose free list is not empty, `sanity`
-- ends within one round more than the free list has blocks, and finds nothing.
pub sanity-complete :
    (h : Heap) (base fuel x : ℕ) (ks : List Block) (xs : List ℕ)
    → IsValid h base ks (x ∷ xs)
    → Aligned ks
    → length (x ∷ xs) < fuel
    → sanity fuel h ≡ some complete
unfolding sanity
sanity-complete h base fuel x ks xs v al e =
    let live : (h.flist == 0) ≡ false = ground (arith, v.list) in
    let first : get prev h.flist h.mem ≡ 0 = ap (λ t. get prev t h.mem) v.list.0 ∙ v.list.3 in
    rw (live, first)
      (sanity_from-complete h base fuel 0 h.flist ks (x ∷ xs) v.chain v.sized al v.list v.frees e)
