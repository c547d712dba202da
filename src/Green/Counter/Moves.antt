-- ===== src/Green/Counter/Moves.antt =====
-- What every step of seminar3/test_mutex.c keeps.
use mathlib.Core.Path.{subst}
use id.Base.{
  ℕ, suc, ◌+◌, ◌-◌, ◌≤◌, ◌≡◌, refl, sym, ap, ◌∙◌, ◌==◌, Bool, true, false, not, List, [], ◌∷◌,
  arith, if◌then◌else◌, if_ind,
}
use id.Links.{at, Absent, Distinct}
use id.Green.{State, Place, blocked_on, ok, main_green}
use id.Green.Events.{Call, perform}
use id.Green.Scheduler.{view}
use id.Green.System.{Home, IsSystem, home-Absent}
use id.Green.System.Sound.{IsSystem-same}
use id.Green.System.Perform.{created}
use id.Green.Exclusion.{Log, member, observe, allowed}
use id.Green.Exclusion.Steps.{IsOrdered, Holds}
use id.Green.Counter.{
  Machine, Point, locking, counting, loading, storing, unlocking, ended, count, call, switches,
  step_of_test, step_of_main, move,
}
use id.Green.Counter.Locked.{critical, pending, IsCounted, still_gone, or_right, section_step}
use id.Green.Counter.Events.{library_step, outside_step, lock_step, after_lock}
use id.Green.Counter.Handover.{unlock_step, continue_step}
use id.Green.Counter.Calls.{
  is_plain, Next, call_lem, blocked_timer, plain_call, observe_lock, observe_unlock, count_lem,
  IsLocked,
}

module _ {n m : ℕ} {g : Log} {q : Place → List ℕ} {home : ℕ → Home} {k : Machine}
    (y : IsLocked n m g q home k) where
  -- A step that does not call the library.
  local-Next :
      (k' : Machine)
      → k'.lib ≡ k.lib
      → k'.todo ≡ k.todo
      → IsCounted g k'
      → Next (suc (suc n)) m (ok k')
  unfolding Next
  local-Next k' el et counted = (
    g,
    q,
    home,
    record {
      system =
          subst (λ l. IsSystem (suc (suc n)) (created l) q home k'.lib) (sym et)
            (subst (λ s. IsSystem (suc (suc n)) (created k.todo) q home s) (sym el)
              (IsSystem-same k.lib y.system (omega arith) refl refl refl refl refl));
      once = subst (λ l. Distinct (created l)) (sym et) y.once;
      nonnull = subst (λ l. Absent 0 (created l)) (sym et) y.nonnull;
      plain = ap is_plain et ∙ y.plain;
      ordered = subst (λ s. IsOrdered m g (view q s)) (sym el) y.ordered;
      counted = counted;
    },
  )

module _ {n m : ℕ} {g : Log} {q : Place → List ℕ} {home : ℕ → Home} {k : Machine} (fuel : ℕ)
    (y : IsLocked n m g q home k) (le : suc n ≤ fuel) where
  interrupt-Next : k.resumes ≡ false → Next (suc (suc n)) m (call fuel Call.interrupt k)
  unfolding created observe allowed perform
  interrupt-Next awake =
      call_lem fuel Call.interrupt k y.system y.once y.nonnull y.plain y.ordered le refl
        (λ s' a' r same o. library_step y.counted s' (not k.lib.masked) k.todo (λ f.
          let masked : k.lib.masked ≡ true = ground (arith, f) in
          let unchanged : k.lib ≡ s' = blocked_timer fuel k.lib s' masked r in
          ap (λ (s : State). member s.running g.trying) (sym unchanged) ∙ y.counted.back awake))

  continue-Next : Next (suc (suc n)) m (call fuel Call.continue k)
  unfolding created observe allowed
  continue-Next =
      let y_runs = y.system.runs in
      call_lem fuel Call.continue k y.system y.once y.nonnull y.plain y.ordered le refl
        (λ s' a' r same o.
          continue_step y.ordered.holds y.counted
            (home-Absent y.system.core k.lib.running (blocked_on m) (λ h. cc)) s')

  -- The calls of `main`.
  main_from :
      (cs : List Call)
      → k.todo ≡ cs
      → k.resumes ≡ false
      → Next (suc (suc n)) m (elim cs [ [] ↦ ok k | c ∷ cs ↦ call fuel c (record k { todo = cs }) ])
  main_from [] e awake = local-Next y k refl refl y.counted
  main_from (c ∷ cs) e awake =
      let (p, may, same_log, left) = plain_call c cs (sym (ap is_plain e) ∙ y.plain) in
      let this : ℕ = k.lib.running in
      call_lem fuel c (record k { todo = cs })
        (subst (λ l. IsSystem n (created l) q home k.lib) e y.system)
        (subst (λ l. Distinct (created l)) e y.once) (subst (λ l. Absent 0 (created l)) e y.nonnull)
        p y.ordered le (may m this g)
        (λ s' a' r same o.
          subst (λ l. IsCounted l (record k { todo = cs; lib = s'; resumes = switches c k.lib s' }))
            (sym (same_log m this s'.running g))
            (library_step y.counted s' (switches c k.lib s') cs (λ f.
              still_gone this s'.running g.trying (y.counted.back awake)
                (sym (left k.lib s') ∙ f))))

  exit-Next :
      k.point k.lib.running ≡ locking
      → k.resumes ≡ false
      → Next
          (suc (suc n))
          m
          (call fuel (Call.exit 0) (record k { point = at k.point k.lib.running ended }))
  unfolding created observe allowed
  exit-Next e awake =
      let this : ℕ = k.lib.running in
      let gone = y.counted.back awake in
      call_lem fuel (Call.exit 0) (record k { point = at k.point this ended }) y.system y.once
        y.nonnull y.plain y.ordered le refl
        (λ s' a' r same o.
          library_step (outside_step y.counted this ended (ap critical e) refl gone) s'
            (not (s'.running == this)) k.todo (still_gone this s'.running g.trying gone))

  lock-Next :
      k.point k.lib.running ≡ locking
      → k.resumes ≡ false
      → Next
          (suc (suc n))
          m
          (call fuel (Call.mutex_lock m) (record k { point = at k.point k.lib.running counting }))
  unfolding created allowed
  lock-Next e awake =
      let this : ℕ = k.lib.running in
      call_lem fuel (Call.mutex_lock m) (record k { point = at k.point this counting }) y.system
        y.once y.nonnull y.plain y.ordered le refl
        (λ s' a' r same o.
          subst (λ l. IsCounted l (after_lock this k s')) (sym (observe_lock m this s'.running g))
            (lock_step m y.counted this (y.counted.back awake) e a' s' (
              subst (λ l. Holds m l a')
                (ap (λ t. observe m (Call.mutex_lock m) this t g) same
                  ∙ observe_lock m this s'.running g)
                o.holds)))

  unlock-Next :
      k.point k.lib.running ≡ unlocking
      → k.resumes ≡ false
      → Next (suc (suc n)) m (
          call fuel (Call.mutex_unlock m) (record k {
            point = at k.point k.lib.running locking;
            left = at k.left k.lib.running (k.left k.lib.running - 1);
          }))
  unfolding created allowed
  unlock-Next e awake =
      let this : ℕ = k.lib.running in
      let left : ℕ → ℕ = at k.left this (k.left this - 1) in
      let gone = y.counted.back awake in
      let inside : member this g.inside ≡ true =
        sym (or_right (member this g.inside) (member this g.trying) gone)
        ∙ sym (y.counted.places this)
        ∙ ap critical e in
      let may : (if m == m then member this g.inside else true) ≡ true = ground (arith, inside) in
      call_lem fuel (Call.mutex_unlock m)
        (record k { point = at k.point this locking; left = left }) y.system y.once y.nonnull
        y.plain y.ordered le may
        (λ s' a' r same o.
          subst
            (λ l. IsCounted l (record k {
              point = at k.point this locking;
              left = left;
              lib = s';
              resumes = not (s'.running == this);
            }))
            (sym (observe_unlock m this s'.running g))
            (unlock_step y.ordered.holds y.counted this gone left s' e))

  -- The steps of `test`.
  test_at :
      (p : Point)
      → k.point k.lib.running ≡ p
      → k.resumes ≡ false
      → Next (suc (suc n)) m (
          let this = k.lib.running in
          elim p [
            | locking ↦
                if k.left this == 0
                then call fuel (Call.exit 0) (record k { point = at k.point this ended })
                else call fuel (Call.mutex_lock m) (record k { point = at k.point this counting })
            | counting ↦ ok (record (count (k.lib.arg this) k) { point = at k.point this loading })
            | loading ↦ ok (record k {
              register = at k.register this k.shared;
              point = at k.point this storing;
            })
            | storing ↦
                ok (record k { shared = k.register this + 1; point = at k.point this unlocking })
            | unlocking ↦ call fuel (Call.mutex_unlock m) (record k {
              point = at k.point this locking;
              left = at k.left this (k.left this - 1);
            })
            | ended ↦ ok k
          ])
  test_at ended e awake = local-Next y k refl refl y.counted
  test_at counting e awake =
      let this : ℕ = k.lib.running in
      let (sum, rest) = count_lem (k.lib.arg this) k in
      let k' : Machine = record (count (k.lib.arg this) k) { point = at k.point this loading } in
      local-Next y k' (ap (λ (c : Machine). c.lib) rest) (ap (λ (c : Machine). c.todo) rest) (
        section_step y.ordered.holds y.counted this (y.counted.back awake) loading k'
          (ap critical e) refl refl (ap (λ (c : Machine). c.lib) rest)
          (ap (λ (c : Machine). c.resumes) rest)
          (λ before reg. (
            omega (arith, before, sum, ap pending e, ap (λ (c : Machine). c.shared) rest),
            λ f. absurd (cc),
          )))
  test_at loading e awake =
      let this : ℕ = k.lib.running in
      let k' : Machine = record k {
        register = at k.register this k.shared;
        point = at k.point this storing;
      } in
      local-Next y k' refl refl (
        section_step y.ordered.holds y.counted this (y.counted.back awake) storing k'
          (ap critical e) refl refl refl refl
          (λ before reg. (omega (arith, before, ap pending e), λ f. ground arith)))
  test_at storing e awake =
      let this : ℕ = k.lib.running in
      let k' : Machine = record k {
        shared = k.register this + 1;
        point = at k.point this unlocking;
      } in
      local-Next y k' refl refl (
        section_step y.ordered.holds y.counted this (y.counted.back awake) unlocking k'
          (ap critical e) refl refl refl refl
          (λ before reg. (omega (arith, before, reg e, ap pending e), λ f. absurd (cc))))
  test_at locking e awake =
      if_ind (λ r. Next (suc (suc n)) m r) (k.left k.lib.running == 0) _ _ (λ z. exit-Next e awake)
        (λ z. lock-Next e awake)
  test_at unlocking e awake = unlock-Next e awake

  pub move-Next : (b : Bool) → Next (suc (suc n)) m (move m fuel b k)
  unfolding move step_of_main step_of_test
  move-Next true =
      if_ind (λ r. Next (suc (suc n)) m r) k.resumes (ok k) _
        (λ e. local-Next y k refl refl y.counted) (λ e. interrupt-Next e)
  move-Next false =
      if_ind (λ r. Next (suc (suc n)) m r) k.resumes _ _ (λ e. continue-Next)
        (λ e.
          if_ind (λ r. Next (suc (suc n)) m r) (k.lib.running == main_green) _ _
            (λ main. main_from k.todo refl e) (λ thread. test_at (k.point k.lib.running) refl e))
