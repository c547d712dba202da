-- ===== src/Base/Counts.antt =====
-- How many of the first indices satisfy a test, and how that changes with the test at one index.
use Prim.Native.Nat.{ℕ, zero, suc, ◌+◌, ◌<◌, ◌≤◌}
use mathlib.Core.Path.{◌≡◌, refl, sym, ap}
use mathlib.Core.Logic.{◌≢◌, inl, inr}
use mathlib.Core.Bool.{Bool, true, false}
use native.Mathlib.Omega.{arith}
use id.Base.Tests.{◌==◌, Bool-cases}

abbrev pub one_if : Bool → ℕ
one_if true = 1
one_if false = 0

abbrev pub count : (ℕ → Bool) → ℕ → ℕ
count f zero = 0
count f (suc n) = one_if (f n) + count f n

-- The tests agree but at `i`.
abbrev pub SameBut : ℕ → (ℕ → Bool) → (ℕ → Bool) → Type 0
SameBut i f g = (k : ℕ) → k ≢ i → g k ≡ f k

count-above : (n i : ℕ) (f g : ℕ → Bool) → n ≤ i → SameBut i f g → count g n ≡ count f n
count-above zero i f g le same = refl
count-above (suc n) i f g le same =
    omega
      (arith, ap one_if (same n (omega (arith, le))), count-above n i f g (omega (arith, le)) same)

count_last :
    (n i : ℕ) (f g : ℕ → Bool)
    → i ≡ n
    → SameBut i f g
    → count g (suc n) + one_if (f i) ≡ count f (suc n) + one_if (g i)
count_last n i f g e same =
    let fe : one_if (f i) ≡ one_if (f n) = ap (λ k. one_if (f k)) e in
    let ge : one_if (g i) ≡ one_if (g n) = ap (λ k. one_if (g k)) e in
    omega (arith, fe, ge, count-above n i f g (omega (arith, e)) same)

-- Changing the test at an index in range moves the count by that one.
pub count-SameBut :
    (n i : ℕ) (f g : ℕ → Bool)
    → i < n
    → SameBut i f g
    → count g n + one_if (f i) ≡ count f n + one_if (g i)
count-SameBut zero i f g lt same = elim lt [ ]
count-SameBut (suc n) i f g lt same = elim (Bool-cases (i == n)) [
  | inl e ↦ count_last n i f g (ground (arith, e)) same
  | inr ne ↦
      let i≢n : i ≢ n = ground (arith, ne) in
      let kept : one_if (g n) ≡ one_if (f n) = ap one_if (same n (λ e. i≢n (sym e))) in
      omega (arith, kept, count-SameBut n i f g (omega (arith, lt, i≢n)) same)
]

pub count-le : (n : ℕ) (f : ℕ → Bool) → count f n ≤ n
count-le zero f = omega arith
count-le (suc n) f = elim (Bool-cases (f n)) [
  | inl e ↦ omega (arith, ap one_if e, count-le n f)
  | inr e ↦ omega (arith, ap one_if e, count-le n f)
]

pub count_none : (n : ℕ) (f : ℕ → Bool) → ((k : ℕ) → k < n → f k ≡ false) → count f n ≡ 0
count_none zero f none_of = refl
count_none (suc n) f none_of = omega (
  arith,
  ap one_if (none_of n (omega arith)),
  count_none n f (λ k lt. none_of k (omega (arith, lt))),
)
