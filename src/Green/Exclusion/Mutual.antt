-- ===== src/Green/Exclusion/Mutual.antt =====
-- The mutexes of seminar3/green.c exclude each other's threads, in the order of their calls.
use mathlib.Core.Path.{subst}
use id.Base.{ℕ, suc, ◌+◌, ◌*◌, ◌≤◌, ◌≡◌, refl, ap, Bool, true, List, [], ◌∷◌, ◌++◌, arith, length}
use id.Links.{Absent, Distinct}
use id.Green.{State, Place, Result, ok, null_access, failed_assert, out_of_fuel, init, main_green}
use id.Green.Events.{Call, perform}
use id.Green.Scheduler.{Schedule, react, view}
use id.Green.System.{Home, IsSystem, home-Absent}
use id.Green.System.Sound.{Sound}
use id.Green.System.Perform.{created, created_rest, perform-Sound, init-IsSystem}
use id.Green.Exclusion.{Log, nobody, observe, allowed, disciplined, watch}
use id.Green.Exclusion.Keeps.{IfOk}
use id.Green.Exclusion.Steps.{vacant, held, granted, IsOrdered}
use id.Green.Exclusion.Reactions.{Follows, react-Follows, both}

-- At most one thread is inside, and the threads enter in the order in which they arrived: those that
-- have not entered yet are the last ones.
pub IsExclusive : Log → Type 0
IsExclusive g = (length g.inside ≤ 1) × (g.arrived ≡ g.entered ++ g.trying)

ordered-IsExclusive : (m : ℕ) (g : Log) (a : Schedule) → IsOrdered m g a → IsExclusive g
unfolding IsExclusive
ordered-IsExclusive m g a y = (
  elim y.holds [
    | vacant k i t ↦ omega (arith, ap length i)
    | held o l k i t ↦ omega (arith, ap length i)
    | granted o l k i t ↦ omega (arith, ap length i)
  ],
  y.order,
)

-- The rest of a history behind an event.
rest-IsExclusive :
    {n : ℕ} {news : List ℕ} (m : ℕ) (g : Log) (c : Call) (a : Schedule) (x : Result Schedule)
    (r : Result State) (allows : State → Bool) (ends : State → Log)
    → Sound n news x r
    → Follows m g c a x
    → elim r [ ok s' ↦ allows s' | _ ↦ true ] ≡ true
    → IsExclusive g
    → ((s' : State) (q' : Place → List ℕ) (home' : ℕ → Home)
        → IsSystem n news q' home' s'
        → IsOrdered m (observe m c a.running s'.running g) (view q' s')
        → allows s' ≡ true
        → IsExclusive (ends s'))
    → IsExclusive (elim r [ ok s' ↦ ends s' | _ ↦ g ])
unfolding Sound Follows IfOk
rest-IsExclusive m g c a x (ok s') allows ends (q', home', y, e) f d k next =
    next s' q' home' y (subst (λ r. Follows m g c a r) e f) d
rest-IsExclusive m g c a x null_access allows ends e f d k next = k
rest-IsExclusive m g c a x failed_assert allows ends e f d k next = k
rest-IsExclusive m g c a x out_of_fuel allows ends e f d k next = elim e [ ]

watch_from :
    (n m : ℕ) {q : Place → List ℕ} {home : ℕ → Home} {s : State} (fuel : ℕ) (cs : List Call)
    (g : Log)
    → IsSystem n (created cs) q home s
    → Distinct (created cs)
    → Absent 0 (created cs)
    → n + 2 * length cs ≤ fuel
    → IsOrdered m g (view q s)
    → disciplined m fuel cs g s ≡ true
    → IsExclusive (watch m fuel cs g s)
unfolding disciplined watch
watch_from n m {q} {s = s} fuel [] g y d z le k e = ordered-IsExclusive m g (view q s) k
watch_from n m {q} {s = s} fuel (c ∷ cs) g y d z le k e =
    let (d', z') = created_rest c cs d z in
    let y_runs = y.runs in
    let (may, more) = both (allowed m c s.running g) _ e in
    rest-IsExclusive m g c (view q s) (react c (view q s)) (perform fuel c s)
      (λ s'. disciplined m fuel cs (observe m c s.running s'.running g) s')
      (λ s'. watch m fuel cs (observe m c s.running s'.running g) s')
      (perform-Sound fuel (omega (arith, le)) c cs y d z)
      (react-Follows m g (view q s) (λ p. home-Absent y.core s.running p (λ h. cc)) k c may) more
      (ordered-IsExclusive m g (view q s) k)
      (λ s' q' home' y' k' e'.
        watch_from (suc (suc n)) m fuel cs (observe m c s.running s'.running g) y' d' z'
          (omega (arith, le)) k' e')

-- The mutexes of the green threads exclude. Take a history of calls, ends of threads, timer interrupts
-- and returns from switches, in which no interrupt comes inside the end of a thread (from the return of
-- its function to `setcontext`), from the initial state, with new addresses other than NULL and
-- `main_green` for its threads and fuel for two steps of a queue for each event, in which a thread
-- unlocks one mutex only while it is inside, nobody is inside or waits when `green_mutex_init` is
-- called for it, and it is not passed to `green_cond_wait`. Then at its end, or where it faults, at most
-- one thread is inside, that is between the return of its `green_mutex_lock` and its call of
-- `green_mutex_unlock`, and the threads have entered in the order in which they called
-- `green_mutex_lock`
pub watch-IsExclusive :
    (mutex fuel : ℕ) (calls : List Call)
    → Distinct (created calls)
    → Absent 0 (created calls)
    → Absent main_green (created calls)
    → 2 * length calls ≤ fuel
    → disciplined mutex fuel calls nobody init ≡ true
    → IsExclusive (watch mutex fuel calls nobody init)
watch-IsExclusive mutex fuel calls d z a le e =
    watch_from 0 mutex fuel calls nobody (init-IsSystem (created calls) a) d z (omega (arith, le))
      (record {
        holds = vacant (record { taken = refl; queue = refl; returns = λ t. refl }) refl refl;
        order = refl;
      })
      e
