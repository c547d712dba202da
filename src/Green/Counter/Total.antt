-- ===== src/Green/Counter/Total.antt =====
-- The sum that seminar3/test_mutex.c prints.
use mathlib.Core.Path.{subst}
use id.Base.{
  ℕ, suc, ◌+◌, ◌*◌, ◌≤◌, ◌≡◌, ◌⊎◌, refl, sym, ap, ◌∙◌, Bool, true, false, List, [], ◌∷◌, arith,
  length, inl, inr, Bool-cases,
}
use id.Links.{at, Absent, Distinct}
use id.Green.System.Signals.{reset-Sound}
use id.Green.System.Sound.{Sound-le}
use id.Green.{
  clear_mutex, Place, Result, ok, null_access, failed_assert, out_of_fuel, and_then, init,
  main_green,
}
use id.Green.Scheduler.{Schedule, clear, view}
use id.Green.System.{Home}
use id.Green.System.Sound.{Sound}
use id.Green.System.Perform.{created, init-IsSystem}
use id.Green.Exclusion.{Log, nobody, member}
use id.Green.Exclusion.Keeps.{IfOk}
use id.Green.Exclusion.Steps.{IsOrdered, vacant, held, granted}
use id.Green.Counter.{Machine, Point, locking, counting, start, move, moves}
use id.Green.Counter.Locked.{critical, pending, total, Adds, IsCounted}
use id.Green.Counter.Calls.{IsLocked, Next}
use id.Green.Counter.Moves.{move-Next}

-- At most one thread is in the middle of `shared++`, and `shared` is the sum of the counters, or one
-- less while a thread is there.
IsTotal : Machine → Type 0
IsTotal k =
    ((t u : ℕ) → pending (k.point t) ≡ 1 → pending (k.point u) ≡ 1 → t ≡ u)
    × ((k.shared ≡ k.zeros + k.ones + k.twos)
        ⊎ ((t : ℕ) × (pending (k.point t) ≡ 1) × (k.shared + 1 ≡ k.zeros + k.ones + k.twos)))

-- A run that faults, or ends in such a machine; it does not run out of fuel.
pub Counts : Result Machine → Type 0
Counts (ok k) = IsTotal k
Counts null_access = Unit
Counts failed_assert = Unit
Counts out_of_fuel = ⊥

pending_cases : (p : Point) → (pending p ≡ 0) ⊎ (pending p ≡ 1)
pending_cases locking = inl refl
pending_cases counting = inl refl
pending_cases Point.loading = inr refl
pending_cases Point.storing = inr refl
pending_cases Point.unlocking = inl refl
pending_cases Point.ended = inl refl

pending-critical : (p : Point) → pending p ≡ 1 → critical p ≡ true
pending-critical locking e = absurd (omega (arith, e))
pending-critical counting e = refl
pending-critical Point.loading e = refl
pending-critical Point.storing e = refl
pending-critical Point.unlocking e = refl
pending-critical Point.ended e = absurd (omega (arith, e))

module _ {g : Log} {k : Machine} (y : IsCounted g k) where
  -- A thread in the middle of `shared++` is inside.
  inside_lem : (t : ℕ) → pending (k.point t) ≡ 1 → member t g.inside ≡ true
  inside_lem t e =
      let c : critical (k.point t) ≡ true = pending-critical (k.point t) e in
      let place = y.places t in
      elim (Bool-cases (member t g.trying)) [
        | inl w ↦
            let p : k.point t ≡ counting = y.waits t w in
            let zero : pending (k.point t) ≡ 0 = ap pending p in absurd (omega (arith, e, zero))
        | inr w ↦ ground (arith, c, place, w)
      ]

  sum_lem :
      (l : List ℕ)
      → Adds l k
      → (k.shared ≡ total k) ⊎ ((t : ℕ) × (pending (k.point t) ≡ 1) × (k.shared + 1 ≡ total k))
  unfolding Adds
  sum_lem [] e = inl e
  sum_lem (o ∷ l) (e, r) = elim (pending_cases (k.point o)) [
    | inl z ↦ inl (omega (arith, e, z))
    | inr z ↦ inr (o, z, omega (arith, e, z))
  ]

only_member : (o t : ℕ) → member t (o ∷ []) ≡ true → t ≡ o
only_member o t e = ground (arith, e)

IsLocked-IsTotal :
    {n m : ℕ} {g : Log} {q : Place → List ℕ} {home : ℕ → Home} {k : Machine}
    → IsLocked n m g q home k
    → IsTotal k
unfolding IsTotal
IsLocked-IsTotal {g = g} {k = k} y =
    let c = y.counted in
    let empty : g.inside ≡ [] → (t : ℕ) → pending (k.point t) ≡ 1 → ⊥ = λ i t e.
      let f : member t [] ≡ true = subst (λ l. member t l ≡ true) i (inside_lem c t e) in cc in
    (
      (λ t u e f. elim y.ordered.holds [
        | vacant s i w ↦ absurd (empty i t e)
        | granted o l s i w ↦ absurd (empty i t e)
        | held o l s i w ↦
            only_member o t (subst (λ l. member t l ≡ true) i (inside_lem c t e))
            ∙ sym (only_member o u (subst (λ l. member u l ≡ true) i (inside_lem c u f)))
      ]),
      sum_lem c g.inside c.adds,
    )

-- The moves that follow one.
bind-Counts :
    (n m fuel : ℕ) (r : Result Machine) (bs : List Bool)
    → Next n m r
    → ((g : Log) (q : Place → List ℕ) (home : ℕ → Home) (k : Machine)
        → IsLocked n m g q home k
        → Counts (moves m fuel bs k))
    → Counts (and_then r (λ k'. moves m fuel bs k'))
unfolding Next Counts
bind-Counts n m fuel (ok k) bs (g, q, home, y) f = f g q home k y
bind-Counts n m fuel null_access bs x f = tt
bind-Counts n m fuel failed_assert bs x f = tt
bind-Counts n m fuel out_of_fuel bs x f = x

moves-Counts :
    (n m fuel : ℕ) (bs : List Bool) (g : Log) (q : Place → List ℕ) (home : ℕ → Home) (k : Machine)
    → IsLocked n m g q home k
    → n + 2 * length bs ≤ fuel
    → Counts (moves m fuel bs k)
unfolding moves Counts
moves-Counts n m fuel [] g q home k y le = IsLocked-IsTotal y
moves-Counts n m fuel (b ∷ bs) g q home k y le =
    bind-Counts (suc (suc n)) m fuel (move m fuel b k) bs (move-Next fuel y (omega (arith, le)) b)
      (λ g' q' home' k' y'.
        moves-Counts (suc (suc n)) m fuel bs g' q' home' k' y' (omega (arith, le)))

-- The machine behind the `green_mutex_init` of `main`.
start-IsLocked :
    (m loop g0 g1 g2 : ℕ)
    → Distinct (g0 ∷ g1 ∷ g2 ∷ [])
    → Absent 0 (g0 ∷ g1 ∷ g2 ∷ [])
    → Absent main_green (g0 ∷ g1 ∷ g2 ∷ [])
    → (q : Place → List ℕ) × (home : ℕ → Home) × IsLocked 2 m nobody q home (start m loop g0 g1 g2)
unfolding created Sound clear_mutex IfOk Adds
start-IsLocked m loop g0 g1 g2 d z a =
    let (q, home, y, e) =
      Sound-le 1 2 (g0 ∷ g1 ∷ g2 ∷ []) _ (ok (clear_mutex m init)) (omega arith) (
        reset-Sound (init-IsSystem (g0 ∷ g1 ∷ g2 ∷ []) a) 0 (omega arith) (Place.blocked_on m)
          (clear_mutex m init) refl refl refl refl refl) in
    let free : Schedule = record (view (λ p. []) init) {
      masked = false;
      taken = at init.taken m false;
    } in
    let none : IsOrdered m nobody (clear (Place.blocked_on m) free) = record {
      holds =
          vacant (record { taken = ground arith; queue = ground arith; returns = λ t. refl }) refl
            refl;
      order = refl;
    } in
    (
      q,
      home,
      record {
        system = y;
        once = d;
        nonnull = z;
        plain = refl;
        ordered = subst (λ r. IfOk (IsOrdered m nobody) r) e none;
        counted = record {
          places = λ t. refl;
          waits = λ t e. absurd (cc);
          back = λ e. refl;
          adds = refl;
        };
      },
    )

-- test_mutex.c counts right unless an interrupt comes inside the end of a thread (from the return of
-- `test` to `setcontext`), which is one step here. From the `green_mutex_init` of `main` on, in a program whose threads have
-- addresses other than NULL and `main_green`, however these steps of the running thread and the timer
-- interrupts between them alternate, with fuel for two steps of a queue for each of them, the run does not run out
-- of fuel, and unless a call of the library faults it reaches a machine in which no two threads are in
-- the middle of `shared++`, and `shared` is the sum of `zero`, `one` and `two` if none is there
pub start-Counts :
    (mutex loop g0 g1 g2 fuel : ℕ) (steps : List Bool)
    → Distinct (g0 ∷ g1 ∷ g2 ∷ [])
    → Absent 0 (g0 ∷ g1 ∷ g2 ∷ [])
    → Absent main_green (g0 ∷ g1 ∷ g2 ∷ [])
    → 2 + 2 * length steps ≤ fuel
    → Counts (moves mutex fuel steps (start mutex loop g0 g1 g2))
start-Counts mutex loop g0 g1 g2 fuel steps d z a le =
    let (q, home, y) = start-IsLocked mutex loop g0 g1 g2 d z a in
    moves-Counts 2 mutex fuel steps nobody q home (start mutex loop g0 g1 g2) y le
