-- ===== src/Green/Counter/Calls.antt =====
-- What a call of the library by a thread of seminar3/test_mutex.c keeps.
use mathlib.Core.Path.{subst}
use id.Base.{
  ℕ, suc, ◌+◌, ◌≤◌, ◌≡◌, refl, ap, ◌==◌, Bool, true, false, not, List, [], ◌∷◌, arith,
  if◌then◌else◌, if_ind,
}
use id.Links.{Absent, Distinct}
use id.Green.{
  State, Place, Result, ok, null_access, failed_assert, out_of_fuel, and_then, timer_handler,
}
use id.Green.Events.{Call, perform}
use id.Green.Scheduler.{Schedule, react, view}
use id.Green.System.{Home, IsSystem, home-Absent}
use id.Green.System.Sound.{Sound}
use id.Green.System.Perform.{created, created_rest, perform-Sound}
use id.Green.Exclusion.{Log, erase, observe, allowed}
use id.Green.Exclusion.Keeps.{IfOk}
use id.Green.Exclusion.Steps.{IsOrdered, lock_log}
use id.Green.Exclusion.Reactions.{Follows, react-Follows}
use id.Green.Counter.{Machine, count, call, switches}
use id.Green.Counter.Locked.{total, IsCounted}

-- `main` has only threads to create and to join.
abbrev pub is_plain : List Call → Bool
is_plain [] = true
is_plain (Call.create new f a ∷ cs) = is_plain cs
is_plain (Call.join thread res ∷ cs) = is_plain cs
is_plain _ = false

-- A machine in which the library, the log of the mutex and the threads agree.
pub record IsLocked (n m : ℕ) (g : Log) (q : Place → List ℕ) (home : ℕ → Home) (k : Machine)
    : Type 0 where
  pub system : IsSystem n (created k.todo) q home k.lib
  pub once : Distinct (created k.todo)
  pub nonnull : Absent 0 (created k.todo)
  pub plain : is_plain k.todo ≡ true
  pub ordered : IsOrdered m g (view q k.lib)
  pub counted : IsCounted g k

-- A step that faults, or ends in such a machine; it does not run out of fuel.
unfoldable pub Next : ℕ → ℕ → Result Machine → Type 0
Next n m (ok k) = (g : Log) × (q : Place → List ℕ) × (home : ℕ → Home) × IsLocked n m g q home k
Next n m null_access = Unit
Next n m failed_assert = Unit
Next n m out_of_fuel = ⊥

after_lem :
    (n m : ℕ) (g : Log) (c : Call) (k : Machine) (a : Schedule) (x : Result Schedule)
    (r : Result State)
    → Distinct (created k.todo)
    → Absent 0 (created k.todo)
    → is_plain k.todo ≡ true
    → Sound n (created k.todo) x r
    → Follows m g c a x
    → ((s' : State) (a' : Schedule)
        → r ≡ ok s'
        → a'.running ≡ s'.running
        → IsOrdered m (observe m c a.running a'.running g) a'
        → IsCounted
            (observe m c a.running s'.running g)
            (record k { lib = s'; resumes = switches c k.lib s' }))
    → Next n m (and_then r (λ s'. ok (record k { lib = s'; resumes = switches c k.lib s' })))
unfolding Next Sound Follows IfOk
after_lem n m g c k a x (ok s') d z p (q, home, y, e) f counted =
    let o = subst (λ r. Follows m g c a r) e f in
    (
      observe m c a.running s'.running g,
      q,
      home,
      record {
        system = y;
        once = d;
        nonnull = z;
        plain = p;
        ordered = o;
        counted = counted s' (view q s') refl refl o;
      },
    )
after_lem n m g c k a x null_access d z p e f counted = tt
after_lem n m g c k a x failed_assert d z p e f counted = tt
after_lem n m g c k a x out_of_fuel d z p e f counted = e

-- A call of the library by the running thread.
pub call_lem :
    {n m : ℕ} {g : Log} {q : Place → List ℕ} {home : ℕ → Home} (fuel : ℕ) (c : Call) (k : Machine)
    → IsSystem n (created (c ∷ k.todo)) q home k.lib
    → Distinct (created (c ∷ k.todo))
    → Absent 0 (created (c ∷ k.todo))
    → is_plain k.todo ≡ true
    → IsOrdered m g (view q k.lib)
    → suc n ≤ fuel
    → allowed m c k.lib.running g ≡ true
    → ((s' : State) (a' : Schedule)
        → perform fuel c k.lib ≡ ok s'
        → a'.running ≡ s'.running
        → IsOrdered m (observe m c k.lib.running a'.running g) a'
        → IsCounted
            (observe m c k.lib.running s'.running g)
            (record k { lib = s'; resumes = switches c k.lib s' }))
    → Next (suc (suc n)) m (call fuel c k)
unfolding call
call_lem {n} {m} {g} {q} {home} fuel c k y d z p o le may counted =
    let (d', z') = created_rest c k.todo d z in
    let y_runs = y.runs in
    after_lem (suc (suc n)) m g c k (view q k.lib) (react c (view q k.lib)) (perform fuel c k.lib)
      d' z' p (perform-Sound fuel le c k.todo y d z)
      (react-Follows m g (view q k.lib) (λ r. home-Absent y.core k.lib.running r (λ h. cc)) o c may)
      counted

ok_eq : (s t : State) → (ok s ≡ ok t) → s ≡ t
ok_eq s t e = cc

-- An interrupt that is blocked changes nothing.
pub blocked_timer :
    (fuel : ℕ) (s s' : State) → s.masked ≡ true → timer_handler fuel s ≡ ok s' → s ≡ s'
unfolding timer_handler
blocked_timer fuel s s' e r = ground (arith, e, r)

-- The calls that `main` has left leave the log of the mutex alone.
pub plain_call :
    (c : Call) (cs : List Call)
    → is_plain (c ∷ cs) ≡ true
    → (is_plain cs ≡ true)
      × ((m this : ℕ) (g : Log) → allowed m c this g ≡ true)
      × ((m this next : ℕ) (g : Log) → observe m c this next g ≡ g)
      × ((s s' : State) → switches c s s' ≡ not (s'.running == s.running))
unfolding allowed observe
plain_call (Call.create new f a) cs p =
    (p, (λ m this g. refl), (λ m this next g. refl), λ s s'. refl)
plain_call (Call.join thread res) cs p =
    (p, (λ m this g. refl), (λ m this next g. refl), λ s s'. refl)
plain_call Call.yield cs p = absurd (cc)
plain_call Call.interrupt cs p = absurd (cc)
plain_call Call.continue cs p = absurd (cc)
plain_call (Call.exit res) cs p = absurd (cc)
plain_call (Call.cond_init c) cs p = absurd (cc)
plain_call (Call.cond_signal c) cs p = absurd (cc)
plain_call (Call.mutex_init c) cs p = absurd (cc)
plain_call (Call.mutex_lock c) cs p = absurd (cc)
plain_call (Call.mutex_unlock c) cs p = absurd (cc)
plain_call (Call.cond_wait c d) cs p = absurd (cc)

pub observe_lock :
    (m this next : ℕ) (g : Log) → observe m (Call.mutex_lock m) this next g ≡ lock_log this next g
unfolding observe
observe_lock m this next g =
    let self : (m == m) ≡ true = ground arith in
    ap (λ b. if b then lock_log this next g else g) self

pub observe_unlock :
    (m this next : ℕ) (g : Log)
    → observe m (Call.mutex_unlock m) this next g ≡ record g { inside = erase this g.inside }
unfolding observe
observe_unlock m this next g =
    let self : (m == m) ≡ true = ground arith in
    ap (λ b. if b then record g { inside = erase this g.inside } else g) self

-- `zero++`, `one++` or `two++` changes nothing else.
pub count_lem :
    (id : ℕ) (k : Machine)
    → (total (count id k) ≡ total k + 1)
      × (count id k ≡ record k {
        zeros = (count id k).zeros;
        ones = (count id k).ones;
        twos = (count id k).twos;
      })
count_lem id k =
    let P = λ (c : Machine).
      (total c ≡ total k + 1) × (c ≡ record k { zeros = c.zeros; ones = c.ones; twos = c.twos }) in
    if_ind P (id == 0) _ _ (λ e. (omega arith, refl))
      (λ e. if_ind P (id == 1) _ _ (λ e. (omega arith, refl)) (λ e. (omega arith, refl)))
