-- ===== src/Dlmalloc/Sizes.antt =====
-- The sizes that `adjust` of seminar2/dlmalloc.c computes.
use id.Base.{ℕ, ◌+◌, ◌-◌, ◌*◌, ◌%◌, ◌^◌, ◌≤◌, ◌<◌, ◌≡◌, arith}
use id.Dlmalloc.{align, adjust}

-- A request of more than MIN, 16 bytes, that leaves room in an `int` is rounded up to the next
-- multiple of ALIGN, and by less than ALIGN.
pub adjust_rounds_up :
    (n : ℕ)
    → 16 < n
    → n < 2 ^ 31 - align
    → (adjust n % align ≡ 0) × (n ≤ adjust n) × (adjust n < n + align)
unfolding adjust
adjust_rounds_up n big small = ground arith

-- Every request of at most MIN, 16 bytes, is returned as it is: it is neither raised to MIN nor
-- rounded to a multiple of ALIGN.
pub adjust_small : (n : ℕ) → n ≤ 16 → adjust n ≡ n
unfolding adjust
adjust_small n h = ground arith

-- The size goes through an `int`: two requests of more than MIN that differ by a multiple of
-- 2 ^ 32 bytes get one size.
pub adjust_wraps : (n k : ℕ) → 16 < n → adjust (n + k * 2 ^ 32) ≡ adjust n
unfolding adjust
adjust_wraps n k big = ground arith
