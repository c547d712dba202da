-- ===== src/Bench/Balance.antt =====
-- The blocks that the benchmarks hold and free are those that they have got and not freed.
use id.Base.{
  ℕ, ◌+◌, ◌%◌, ◌<◌, ◌≡◌, ◌≢◌, inl, inr, refl, sym, ap, ◌∙◌, true, false, List, [], ◌∷◌, ◌==◌,
  if◌then◌else◌, Bool-cases, arith, count, one_if, count-SameBut, count_none,
}
use mathlib.Core.Path.{subst}
use id.Links.{at}
use id.Bench.{Allocator, Call, Run, buffer_size, release, obtain, round, bench, empty}

-- How often `p` was obtained, and how often it was freed.
unfoldable pub obtained : ℕ → List Call → ℕ
obtained p [] = 0
obtained p (Call.allocated q ∷ cs) = one_if (q == p) + obtained p cs
obtained p (Call.released q ∷ cs) = obtained p cs

unfoldable pub freed : ℕ → List Call → ℕ
freed p [] = 0
freed p (Call.allocated q ∷ cs) = freed p cs
freed p (Call.released q ∷ cs) = one_if (q == p) + freed p cs

-- The first `n` places of the buffer that hold `p`.
unfoldable pub held : ℕ → ℕ → (ℕ → ℕ) → ℕ
held n p buffer = count (λ i. buffer i == p) n

-- Every block is held as often as it was obtained and not freed, and NULL was never freed.
unfoldable pub IsBalanced : {S : Type 0} → ℕ → Run S → Type 0
unfolding obtained freed
IsBalanced p r =
    (obtained p r.calls ≡ freed p r.calls + held buffer_size p r.buffer) × (freed 0 r.calls ≡ 0)

eq_ne : (a b : ℕ) → a ≢ b → (a == b) ≡ false
eq_ne a b ne = ground (arith, ne)

one_if_ne : (a b : ℕ) → a ≢ b → one_if (a == b) ≡ 0
one_if_ne a b ne = ap one_if (eq_ne a b ne)

at_other :
    (index v p k : ℕ) (buffer : ℕ → ℕ) → k ≢ index → (at buffer index v k == p) ≡ (buffer k == p)
at_other index v p k buffer ne = ap (λ b. (if b then v else buffer k) == p) (eq_ne k index ne)

at_index : (index v : ℕ) (buffer : ℕ → ℕ) → at buffer index v index ≡ v
at_index index v buffer = ground arith

held_move :
    (n p index v : ℕ) (buffer : ℕ → ℕ)
    → index < n
    → held n p (at buffer index v) + one_if (buffer index == p) ≡ held n p buffer + one_if (v == p)
unfolding held
held_move n p index v buffer lt =
    subst
      (λ w.
        count (λ i. at buffer index v i == p) n + one_if (buffer index == p)
        ≡ count (λ i. buffer i == p) n + one_if (w == p))
      (at_index index v buffer)
      (count-SameBut n index (λ i. buffer i == p) (λ i. at buffer index v i == p) lt
        (λ k ne. at_other index v p k buffer ne))

held_none : (n p : ℕ) → p ≢ 0 → held n p (λ _. 0) ≡ 0
unfolding held
held_none n p p≢0 = count_none n (λ _. 0 == p) (λ k lt. eq_ne 0 p (λ e. p≢0 (sym e)))

module _ {S : Type 0} (a : Allocator S) where
  release-IsBalanced :
      (p index : ℕ) (r : Run S)
      → p ≢ 0
      → index < buffer_size
      → r.buffer index ≢ 0
      → IsBalanced p r
      → IsBalanced p (release a index r)
  unfolding IsBalanced obtained freed
  release-IsBalanced p index r p≢0 lt full (sum, null) =
      let moved = held_move buffer_size p index 0 r.buffer lt in
      let zero_is = one_if_ne 0 p (λ e. p≢0 (sym e)) in
      let not_null = one_if_ne (r.buffer index) 0 full in
      (omega (arith, moved, zero_is, sum), omega (arith, not_null, null))

  filled : ℕ → ℕ → S → Run S → Run S
  filled index memory h r = record r {
    buffer = at r.buffer index memory;
    heap = h;
    calls = Call.allocated memory ∷ r.calls;
  }

  obtain_cons :
      (index bytes memory : ℕ) (h : S) (r : Run S)
      → a.malloc bytes r.heap ≡ (memory, h)
      → memory ≢ 0
      → obtain a index bytes r ≡ filled index memory (a.write memory h) r
  unfolding filled
  obtain_cons index bytes memory h r e m≢0 = ground (arith, e, m≢0)

  obtain_none :
      (index bytes memory : ℕ) (h : S) (r : Run S)
      → a.malloc bytes r.heap ≡ (memory, h)
      → memory ≡ 0
      → obtain a index bytes r ≡ record r { heap = h; failed = true }
  obtain_none index bytes memory h r e m0 = ground (arith, e, m0)

  filled-IsBalanced :
      (p index memory : ℕ) (h : S) (r : Run S)
      → p ≢ 0
      → index < buffer_size
      → r.buffer index ≡ 0
      → IsBalanced p r
      → IsBalanced p (filled index memory h r)
  unfolding IsBalanced obtained freed filled
  filled-IsBalanced p index memory h r p≢0 lt free_place (sum, null) =
      let moved = held_move buffer_size p index memory r.buffer lt in
      let not_p = one_if_ne (r.buffer index) p (λ e. p≢0 (sym e ∙ free_place)) in
      (omega (arith, moved, not_p, sum), null)

  failed-IsBalanced :
      (p : ℕ) (h : S) (r : Run S)
      → IsBalanced p r
      → IsBalanced p (record r { heap = h; failed = true })
  unfolding IsBalanced
  failed-IsBalanced p h r b = b

  obtain-IsBalanced :
      (p index bytes : ℕ) (r : Run S)
      → p ≢ 0
      → index < buffer_size
      → r.buffer index ≡ 0
      → IsBalanced p r
      → IsBalanced p (obtain a index bytes r)
  obtain-IsBalanced p index bytes r p≢0 lt free_place b =
      let (memory, h) = a.malloc bytes r.heap in
      elim (Bool-cases (memory == 0)) [
        | inl e ↦
            subst (λ t. IsBalanced p t)
              (sym (obtain_none index bytes memory h r refl (ground (arith, e))))
              (failed-IsBalanced p h r b)
        | inr e ↦
            subst (λ t. IsBalanced p t)
              (sym (obtain_cons index bytes memory h r refl (ground (arith, e))))
              (filled-IsBalanced p index memory (a.write memory h) r p≢0 lt free_place b)
      ]

  round_failed : (rnd bytes : ℕ) (r : Run S) → r.failed ≡ true → round a rnd bytes r ≡ r
  unfolding round
  round_failed rnd bytes r e = ground (arith, e)

  round-obtain :
      (rnd bytes : ℕ) (r : Run S)
      → r.failed ≡ false
      → r.buffer (rnd % buffer_size) ≡ 0
      → round a rnd bytes r ≡ obtain a (rnd % buffer_size) bytes r
  unfolding round
  round-obtain rnd bytes r e b = ground (arith, e, b)

  round-release :
      (rnd bytes : ℕ) (r : Run S)
      → r.failed ≡ false
      → r.buffer (rnd % buffer_size) ≢ 0
      → round a rnd bytes r ≡ release a (rnd % buffer_size) r
  unfolding round
  round-release rnd bytes r e b = ground (arith, e, b)

  round-IsBalanced :
      (p rnd bytes : ℕ) (r : Run S) → p ≢ 0 → IsBalanced p r → IsBalanced p (round a rnd bytes r)
  round-IsBalanced p rnd bytes r p≢0 b =
      let index : ℕ = rnd % buffer_size in
      let lt : index < buffer_size = omega arith in
      elim (Bool-cases r.failed) [
        | inl e ↦ subst (λ t. IsBalanced p t) (sym (round_failed rnd bytes r e)) b
        | inr e ↦ elim (Bool-cases (r.buffer index == 0)) [
          | inl z ↦
              let free_place : r.buffer index ≡ 0 = ground (arith, z) in
              subst (λ t. IsBalanced p t) (sym (round-obtain rnd bytes r e free_place))
                (obtain-IsBalanced p index bytes r p≢0 lt free_place b)
          | inr z ↦
              let full : r.buffer index ≢ 0 = ground (arith, z) in
              subst (λ t. IsBalanced p t) (sym (round-release rnd bytes r e full))
                (release-IsBalanced p index r p≢0 lt full b)
        ]
      ]

  bench_from :
      (p : ℕ) (ops : List (ℕ × ℕ)) (r : Run S)
      → p ≢ 0
      → IsBalanced p r
      → IsBalanced p (bench a ops r)
  unfolding bench
  bench_from p [] r p≢0 b = b
  bench_from p ((rnd, bytes) ∷ ops) r p≢0 b =
      bench_from p ops (round a rnd bytes r) p≢0 (round-IsBalanced p rnd bytes r p≢0 b)

  -- After any number of rounds from an empty buffer, with any allocator and whatever `rand` and
  -- `request` return, a block other than NULL was freed as often as it was obtained, less the
  -- places of the buffer that hold it: nothing is freed twice and nothing is lost. NULL is never
  -- freed.
  pub bench-IsBalanced :
      (p : ℕ) (ops : List (ℕ × ℕ)) (h : S) → p ≢ 0 → IsBalanced p (bench a ops (empty h))
  unfolding IsBalanced obtained freed
  bench-IsBalanced p ops h p≢0 =
      bench_from p ops (empty h) p≢0 (omega (arith, held_none buffer_size p p≢0), refl)
