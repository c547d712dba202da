-- ===== src/Green/System/Outcomes.antt =====
-- The outcome of every function of seminar3/green.c.
use mathlib.Core.Path.{subst}
use id.Base.{
  ℕ, ◌≤◌, ◌≡◌, ◌≢◌, refl, ap, ◌∙◌, ◌==◌, Bool, true, false, List, [], ◌∷◌, arith, if◌then◌else◌,
}
use id.Links.{at, Absent}
use id.Green.{
  State, Place, ready, waiting, blocked_on, Result, ok, null_access, failed_assert, Context, entry,
  in_join, in_wait, released, block, unblock, green_thread, collect, retake, join_at, green_yield,
  lock_at, timer_handler, resume, green_create, signal_at, unlock_at, green_join, green_mutex_lock,
  is_released, in_yield, in_lock,
}
use id.Green.Events.{Call, run}
use id.Green.System.{Home, is_idle, active, joining, IsCore, IsSystem}
use id.Green.System.Sound.{IsSystem-same, IsCore-same}
use id.Green.System.Switch.{none_moved}
use id.Green.System.Faults.{
  Outcome, proceeds, crashes, aborts, outcome, needs_ready, expected_retake, expected_collect,
  expected, switch_away, switch_ready, outcome-dispatch, outcome-deref,
}
use id.Green.System.{at_home_self}
use id.Green.System.Moves.{EnqueuesCore, enqueue-IsCore}
use id.Green.System.Spawn.{join-IsCore, join_wait, prepared-IsCore}
use id.Green.System.Faults.{head_null}
use id.Green.System.Transfer.{Wakes, wake_lem, signal_nil, signal_cons, unlock_nil}
use id.Green.Mutex.{unlock_cons}
use id.Green.Lifecycle.{create_cons}

-- The outcome of a test.
outcome-if :
    (b : Bool) (x y : Result State) (x' y' : Outcome)
    → (b ≡ true → outcome x ≡ x')
    → (b ≡ false → outcome y ≡ y')
    → outcome (if b then x else y) ≡ (if b then x' else y')
outcome-if true x y x' y' t f = t refl
outcome-if false x y x' y' t f = f refl

module _ {n : ℕ} {news : List ℕ} {q : Place → List ℕ} {home : ℕ → Home} {s : State}
    (y : IsSystem n news q home s) (fuel : ℕ) (le : n ≤ fuel) where
  blocked : IsSystem n news q home (block s)
  blocked = IsSystem-same (block s) y (omega arith) refl refl refl refl refl

  pub outcome-yield : outcome (green_yield fuel s) ≡ proceeds
  unfolding green_yield
  outcome-yield = switch_ready blocked fuel le null_access in_yield

  pub outcome-timer : outcome (timer_handler fuel s) ≡ proceeds
  unfolding timer_handler outcome
  outcome-timer =
      outcome-if s.masked (ok s) (green_yield fuel s) proceeds proceeds (λ e. refl)
        (λ e. outcome-yield)
      ∙ ground arith

  pub outcome-lock : (m : ℕ) → outcome (green_mutex_lock fuel m s) ≡ expected (Call.mutex_lock m) s
  unfolding green_mutex_lock lock_at outcome expected needs_ready
  outcome-lock m = outcome-deref m _ _ (
      outcome-if (s.taken m) _ _ _ proceeds
        (λ e. switch_away blocked fuel le (blocked_on m) failed_assert in_lock refl) (λ e. refl))

  outcome-retake : (m : ℕ) → outcome (retake fuel m s) ≡ expected_retake m s
  unfolding retake outcome expected_retake needs_ready
  outcome-retake m =
      outcome-if (m == 0) _ _ proceeds _ (λ e. refl)
        (λ e.
          outcome-if (s.taken m) _ _ _ proceeds
            (λ e. switch_away y fuel le (blocked_on m) null_access in_lock refl) (λ e. refl))

outcome-collect :
    (thread res : ℕ) (s : State) → outcome (collect thread res s) ≡ expected_collect thread res s
unfolding collect outcome expected_collect
outcome-collect thread res s =
    outcome-if (is_released (s.context thread)) _ _ crashes _ (λ e. refl)
      (λ e.
        outcome-if (s.retval thread == 0) _ _ proceeds _ (λ e. refl)
          (λ e. outcome-if (res == 0) _ _ crashes proceeds (λ e. refl) (λ e. refl)))

module _ {n : ℕ} {news : List ℕ} {q : Place → List ℕ} {home : ℕ → Home} {s : State}
    (y : IsSystem n news q home s) (fuel : ℕ) (le : n ≤ fuel) where
  pub outcome-resume : outcome (resume fuel s) ≡ expected Call.continue s
  unfolding resume green_thread outcome expected expected_collect expected_retake
  outcome-resume = at_context (s.context s.running)
    where
      at_context :
          (c : Context)
          → outcome (elim c [
            | entry ↦ green_thread s
            | Context.in_yield ↦ ok (unblock s)
            | in_join thread res ↦ collect thread res s
            | in_wait mutex ↦ retake fuel mutex s
            | Context.in_lock ↦ ok (unblock s)
            | released ↦ null_access
          ])
            ≡ elim c [
              | entry ↦ if s.fun s.running == 0 then aborts else proceeds
              | Context.in_yield ↦ proceeds
              | in_join thread res ↦ expected_collect thread res s
              | in_wait mutex ↦ expected_retake mutex s
              | Context.in_lock ↦ proceeds
              | released ↦ crashes
            ]
      at_context entry =
          outcome-if (s.fun s.running == 0) _ _ aborts proceeds (λ e. refl) (λ e. refl)
      at_context Context.in_yield = refl
      at_context (in_join thread res) = outcome-collect thread res s
      at_context (in_wait mutex) = outcome-retake y fuel le mutex
      at_context Context.in_lock = refl
      at_context released = refl

  pub outcome-join :
      (thread res : ℕ) → outcome (green_join thread res s) ≡ expected (Call.join thread res) s
  unfolding green_join join_at join_wait outcome expected expected_collect needs_ready
  outcome-join thread res = outcome-deref thread _ _ (
      outcome-if (s.zombie thread) _ _ _ _ (λ e. outcome-collect thread res (block s))
        (λ e.
          outcome-dispatch (join-IsCore thread y)
            (λ t a. none_moved home s.running t (joining thread) (λ e. cc) y.only a) null_access
            (Context.in_join thread res)))

  pub outcome-create :
      (new f a : ℕ) (rest : List ℕ)
      → news ≡ new ∷ rest
      → new ≢ 0
      → Absent new rest
      → outcome (green_create fuel new f a s) ≡ proceeds
  unfolding EnqueuesCore outcome
  outcome-create new f a rest e n≢0 once =
      let c0 = prepared-IsCore new f a (subst (λ l. IsCore n l q home s) e y.core) n≢0 once in
      let self : at home new active new ≡ active = at_home_self home new active in
      let (s1, run, same, core) =
        enqueue-IsCore fuel ready new c0 le (ap is_idle self) (λ u z e. cc) in
      ap outcome (create_cons fuel new f a s s1 run)

  pub signal_from :
      (c : ℕ) (xs : List ℕ) → q (waiting c) ≡ xs → outcome (signal_at fuel c s) ≡ proceeds
  unfolding outcome Wakes
  signal_from c [] e = ap outcome (signal_nil fuel c s (head_null (waiting c) y.core e))
  signal_from c (x ∷ xs) e =
      let (s1, s2, run1, run2, same, head, next, home', core, back, forth) =
        wake_lem fuel (waiting c) x xs
          (IsCore-same (block s) y.core (omega arith) refl refl refl refl) le e in
      ap outcome (signal_cons fuel c x s s1 s2 head run1 run2)

  pub unlock_from :
      (m : ℕ) (xs : List ℕ) → q (blocked_on m) ≡ xs → outcome (unlock_at fuel m s) ≡ proceeds
  unfolding outcome Wakes
  unlock_from m [] e = ap outcome (unlock_nil fuel m s (head_null (blocked_on m) y.core e))
  unlock_from m (x ∷ xs) e =
      let (s1, s2, run1, run2, same, head, next, home', core, back, forth) =
        wake_lem fuel (blocked_on m) x xs
          (IsCore-same (block s) y.core (omega arith) refl refl refl refl) le e in
      ap outcome (unlock_cons fuel m x s s1 s2 head run1 run2)
