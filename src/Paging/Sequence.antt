-- ===== src/Paging/Sequence.antt =====
-- `init` of swapping-assignment/random.c: the references are pages.
use id.Base.{
  ℕ, zero, suc, ◌+◌, ◌-◌, ◌*◌, ◌%◌, ◌<◌, ◌≡◌, inl, inr, true, false, ltb, Bool-cases, arith, length,
}
use id.Paging.{freq, reference, init_from, init}
use id.Paging.Frames.{Below}

reference_frequent :
    (r1 r2 high pages : ℕ) → ltb (r1 % 100) freq ≡ true → reference r1 r2 high pages ≡ r2 % high
unfolding reference
reference_frequent r1 r2 high pages e = ground (arith, e)

reference_rare :
    (r1 r2 high pages : ℕ)
    → ltb (r1 % 100) freq ≡ false
    → reference r1 r2 high pages ≡ high + r2 % (pages - high)
unfolding reference
reference_rare r1 r2 high pages e = ground (arith, e)

reference_lt : (r1 r2 high pages : ℕ) → 0 < high → high < pages → reference r1 r2 high pages < pages
reference_lt r1 r2 high pages h0 hp = elim (Bool-cases (ltb (r1 % 100) freq)) [
  | inl e ↦ omega (arith, reference_frequent r1 r2 high pages e, h0, hp)
  | inr e ↦ omega (arith, reference_rare r1 r2 high pages e, h0, hp)
]

init_from-Below :
    (rand : ℕ → ℕ) (high pages i refs : ℕ)
    → 0 < high
    → high < pages
    → Below pages (init_from rand high pages i refs)
      × (length (init_from rand high pages i refs) ≡ refs)
unfolding Below init_from
init_from-Below rand high pages i zero h0 hp = (tt, omega arith)
init_from-Below rand high pages i (suc refs) h0 hp =
    let (below, long) = init_from-Below rand high pages (i + 1) refs h0 hp in
    ((reference_lt (rand (2 * i)) (rand (2 * i + 1)) high pages h0 hp, below), omega (arith, long))

-- With at least one frequent page and at least one that is not, whatever rand() returns, `init`
-- writes `refs` references, and each of them is a page below `pages`.
pub init-Below :
    (rand : ℕ → ℕ) (high refs pages : ℕ)
    → 0 < high
    → high < pages
    → Below pages (init rand high refs pages) × (length (init rand high refs pages) ≡ refs)
unfolding init
init-Below rand high refs pages h0 hp = init_from-Below rand high pages 0 refs h0 hp
