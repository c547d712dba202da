-- ===== src/Green/System/History.antt =====
-- The outcome of every event of a history of the green threads of seminar3/green.c.
use mathlib.Core.Path.{subst}
use id.Base.{ℕ, suc, ◌+◌, ◌*◌, ◌≤◌, ◌≡◌, refl, sym, List, [], ◌∷◌, ◌++◌, arith, length}
use id.Links.{Absent, Distinct}
use id.Green.{
  State, Place, waiting, blocked_on, Result, ok, null_access, failed_assert, out_of_fuel, and_then,
  init, main_green, green_cond_init, green_mutex_init, green_cond_signal, green_mutex_unlock,
}
use id.Green.Events.{Call, perform, run}
use id.Green.System.{Home, IsSystem}
use id.Green.System.Sound.{Sound}
use id.Green.System.Faults.{outcome, expected, outcome-deref}
use id.Green.System.Outcomes.{
  outcome-yield, outcome-timer, outcome-lock, outcome-resume, outcome-join, outcome-create,
  signal_from, unlock_from,
}
use id.Green.System.Endings.{outcome-exit, outcome-cond_wait}
use id.Green.Scheduler.{Schedule}
use id.Green.System.Perform.{created, perform-Sound, created_rest, init-IsSystem}

event-outcome :
    {n : ℕ} {q : Place → List ℕ} {home : ℕ → Home} {s : State} (fuel : ℕ) (c : Call)
    → IsSystem n (created (c ∷ [])) q home s
    → Distinct (created (c ∷ []))
    → Absent 0 (created (c ∷ []))
    → suc n ≤ fuel
    → outcome (perform fuel c s) ≡ expected c s
unfolding perform created Distinct Absent expected outcome green_cond_init green_mutex_init
    green_cond_signal green_mutex_unlock
event-outcome fuel (Call.create new f a) y (once, d) (n≢0, z) le =
    outcome-create y fuel (omega (arith, le)) new f a [] refl (λ e. n≢0 (sym e)) once
event-outcome fuel Call.yield y d z le = outcome-yield y fuel (omega (arith, le))
event-outcome fuel Call.interrupt y d z le = outcome-timer y fuel (omega (arith, le))
event-outcome fuel Call.continue y d z le = outcome-resume y fuel (omega (arith, le))
event-outcome fuel (Call.join thread res) y d z le =
    outcome-join y fuel (omega (arith, le)) thread res
event-outcome fuel (Call.exit res) y d z le = outcome-exit y fuel res (omega (arith, le))
event-outcome fuel (Call.cond_init c) y d z le = outcome-deref c _ _ refl
event-outcome {q = q} fuel (Call.cond_signal c) y d z le =
    outcome-deref c _ _ (signal_from y fuel (omega (arith, le)) c (q (waiting c)) refl)
event-outcome fuel (Call.mutex_init m) y d z le = outcome-deref m _ _ refl
event-outcome fuel (Call.mutex_lock m) y d z le = outcome-lock y fuel (omega (arith, le)) m
event-outcome {q = q} fuel (Call.mutex_unlock m) y d z le =
    outcome-deref m _ _ (unlock_from y fuel (omega (arith, le)) m (q (blocked_on m)) refl)
event-outcome fuel (Call.cond_wait c m) y d z le = outcome-cond_wait y fuel c m le

ok_injective : (s t : State) → (ok s ≡ ok t) → s ≡ t
ok_injective s t e = cc

-- A step that led to a state.
Steps : ℕ → List ℕ → (State → Result State) → State → Result State → Type 0
Steps n news k s' r =
    (s1 : State) × (q : Place → List ℕ) × (home : ℕ → Home) × (r ≡ ok s1)
    × IsSystem n news q home s1
    × (k s1 ≡ ok s')

step_from :
    (n : ℕ) (news : List ℕ) (k : State → Result State) (s' : State) (a : Result Schedule)
    (r : Result State)
    → Sound n news a r
    → and_then r k ≡ ok s'
    → Steps n news k s' r
unfolding Steps Sound
step_from n news k s' a (ok s) (q, home, y, shows) e = (s, q, home, refl, y, e)
step_from n news k s' a null_access x e = absurd (cc)
step_from n news k s' a failed_assert x e = absurd (cc)
step_from n news k s' a out_of_fuel x e = elim x [ ]

run-outcome :
    (n : ℕ) {q : Place → List ℕ} {home : ℕ → Home} {s : State} (fuel : ℕ) (cs : List Call)
    (c : Call) (s' : State)
    → IsSystem n (created (cs ++ (c ∷ []))) q home s
    → Distinct (created (cs ++ (c ∷ [])))
    → Absent 0 (created (cs ++ (c ∷ [])))
    → n + 2 * suc (length cs) ≤ fuel
    → run fuel cs s ≡ ok s'
    → outcome (perform fuel c s') ≡ expected c s'
unfolding run Steps
run-outcome n {s = s} fuel [] c s' y d z le e =
    let e' : s ≡ s' = ok_injective s s' e in
    subst (λ t. outcome (perform fuel c t) ≡ expected c t) e'
      (event-outcome fuel c y d z (omega (arith, le)))
run-outcome n {s = s} fuel (b ∷ cs) c s' y d z le e =
    let (d', z') = created_rest b (cs ++ (c ∷ [])) d z in
    let (s1, q', home', run1, y', e') =
      step_from (suc (suc n)) (created (cs ++ (c ∷ []))) (λ t. run fuel cs t) s' _
        (perform fuel b s) (perform-Sound fuel (omega (arith, le)) b (cs ++ (c ∷ [])) y d z) e in
    run-outcome (suc (suc n)) fuel cs c s' y' d' z' (omega (arith, le)) e'

-- The outcome of an event after a history in which no interrupt comes inside the end of a thread (from
-- the return of its function to `setcontext`), told from the state before the event. With new addresses
-- other than NULL and `main_green` for the threads, and fuel for two steps of a queue for each event: an
-- event never runs out of fuel. A call that gets NULL for its mutex, for its condition or for the thread
-- to join crashes, but for the mutex of `green_cond_wait`. When no thread is ready, `green_join` of a
-- living thread, the end of a thread without a joiner, and the way back from `green_cond_wait` to a
-- mutex that is taken read through NULL, and `green_mutex_lock` of a taken mutex fails an assert, as
-- `green_cond_wait` does unless a thread waits for its mutex. A joiner crashes if another one has freed
-- the context of the thread before it, or if it has no place for a result that is not NULL; a return to
-- a freed context crashes, and a thread without a function fails an assert. All else succeeds, so
-- `green_create`, `green_yield` and the timer always do, and so do the initialisations, signals and
-- unlocking of conditions and mutexes other than NULL
pub outcome-perform :
    (fuel : ℕ) (calls : List Call) (c : Call) (s : State)
    → Distinct (created (calls ++ (c ∷ [])))
    → Absent 0 (created (calls ++ (c ∷ [])))
    → Absent main_green (created (calls ++ (c ∷ [])))
    → 2 * suc (length calls) ≤ fuel
    → run fuel calls init ≡ ok s
    → outcome (perform fuel c s) ≡ expected c s
outcome-perform fuel calls c s d z a le e =
    run-outcome 0 fuel calls c s (init-IsSystem (created (calls ++ (c ∷ []))) a) d z
      (omega (arith, le)) e
