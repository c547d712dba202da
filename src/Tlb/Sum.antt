-- ===== src/Tlb/Sum.antt =====
-- The sums that tlb-assignment/tlb.c prints, and the memory that it touches.
use id.Base.{ℕ, zero, suc, ◌+◌, ◌*◌, ◌/◌, ◌≤◌, ◌<◌, ◌≡◌, List, [], ◌∷◌, arith}
use id.Tlb.{pages_max, refs, page_size, touched, inner, outer, row}

inner_lem : (p sum : ℕ) → inner p sum ≡ sum + p
unfolding inner
inner_lem zero sum = omega arith
inner_lem (suc p) sum = omega (arith, inner_lem p (sum + 1))

outer_lem : (l pages sum : ℕ) → outer l pages sum ≡ sum + l * pages
unfolding outer
outer_lem zero pages sum = omega arith
outer_lem (suc l) pages sum =
    omega (arith, outer_lem l pages (inner pages sum), inner_lem pages sum)

-- The sum of a row is the number of references that it makes, which is at most REFS and less than
-- one round of the pages below it.
pub row_lem :
    (pages : ℕ)
    → 0 < pages
    → (row pages ≡ refs / pages * pages) × (row pages ≤ refs) × (refs < row pages + pages)
unfolding row
row_lem pages lt = omega (arith, outer_lem (refs / pages) pages 0, lt)

-- All the offsets are below the size of the memory.
unfoldable pub Inside : List ℕ → Type 0
Inside [] = Unit
Inside (o ∷ os) = (o < page_size * pages_max) × Inside os

-- The loop that forces the pages to be allocated, started at any page, with as many rounds as pages
-- are left, writes inside the memory that `main` has allocated.
pub touched-Inside : (k p : ℕ) → k + p ≤ pages_max → Inside (touched k p)
unfolding touched Inside
touched-Inside zero p le = tt
touched-Inside (suc k) p le = (omega (arith, le), touched-Inside k (p + 1) (omega (arith, le)))
