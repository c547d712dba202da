-- ===== src/Green/System/Endings.antt =====
-- The outcome of `green_exit` and of `green_cond_wait` of seminar3/green.c.
use mathlib.Core.Path.{subst}
use id.Base.{
  if_ind, ℕ, suc, ◌≤◌, ◌≡◌, ◌≢◌, refl, sym, ap, ◌∙◌, ◌==◌, false, Bool-cases, inl, inr, List, [],
  ◌∷◌, ◌++◌, arith, if◌then◌else◌,
}
use id.Links.{at, Queue}
use id.Green.{
  State, Place, ready, waiting, blocked_on, failed_assert, Context, in_wait, dispatch, and_then,
  block, same_place, release, green_exit, wait_at, green_cond_wait,
}
use id.Green.Events.{Call, run}
use id.Green.System.{Home, ended, active, queued, put_queue_self, put_queue_ne, IsCore, IsSystem}
use id.Green.System.Sound.{IsSystem-same, IsCore-same}
use id.Green.System.Switch.{none_moved, next-IsSystem}
use id.Green.System.Faults.{
  proceeds, crashes, aborts, outcome, needs_ready, expected, expected_wait, outcome-dispatch,
  outcome-deref,
}
use id.Green.System.Moves.{
  EnqueuesCore, enqueue-IsCore, dequeue_nil, enqueue_null, reset, reset-IsCore,
}
use id.Green.System.Faults.{head_null, head_set, needs_nil, needs_cons, append_cons, suspends}
use id.Green.System.Transfer.{Wakes, wake_lem}
use id.Green.System.Release.{release_none, release_nil}
use id.Green.Wait.{release_cons}
use id.Green.Lifecycle.{terminated}
use id.Green.System.Exit.{
  exit_as, wake_none, wake_some, run_next, run_next_nil, run_next_cons, wake_joiner, exit-IsCore,
  joiner_waits,
}

running_ne :
    {n : ℕ} {news : List ℕ} {q : Place → List ℕ} {home : ℕ → Home} {s : State}
    → IsSystem n news q home s
    → s.running ≢ 0
running_ne {home = home} y z =
    let y_runs = y.runs in let null = y.core.null in let z' = ap home z in cc

-- Queues that hold the same list have the same head.
head_same :
    {n m : ℕ} {news : List ℕ} {q q' : Place → List ℕ} {home home' : ℕ → Home} {s s' : State}
    (p : Place) (xs : List ℕ)
    → IsCore n news q home s
    → IsCore m news q' home' s'
    → q p ≡ xs
    → q' p ≡ xs
    → s'.head p ≡ s.head p
unfolding Queue
head_same p [] c c' e e' = head_null p c' e' ∙ sym (head_null p c e)
head_same {s = s} {s'} p (x ∷ xs) c c' e e' =
    let (h, x≢0, more) = subst (λ l. Queue l (s.head p) s.next) e (c.queues p) in
    let (h', y≢0, more') = subst (λ l. Queue l (s'.head p) s'.next) e' (c'.queues p) in h' ∙ sym h

module _ {n : ℕ} {news : List ℕ} {q : Place → List ℕ} {home : ℕ → Home} {s : State}
    (c : IsCore n news q home s) (idle : (t : ℕ) → home t ≢ active) where
  run_next_from : (xs : List ℕ) → q ready ≡ xs → outcome (run_next s) ≡ needs_ready crashes s
  unfolding outcome
  run_next_from [] e =
      ap outcome (run_next_nil s (dequeue_nil ready c e))
      ∙ sym (needs_nil crashes s (head_null ready c e))
  run_next_from (x ∷ xs) e =
      let (s1, run, x≢0, y, same) = next-IsSystem c idle x xs e in
      ap outcome (run_next_cons s s1 x run x≢0)
      ∙ sym (needs_cons crashes s (head_set ready x xs c e))

  release_from :
      (fuel m : ℕ) (xs : List ℕ) (cx : Context)
      → n ≤ fuel
      → m ≢ 0
      → q (blocked_on m) ≡ xs
      → outcome (and_then (release fuel m s) (λ s2. dispatch failed_assert cx s2))
        ≡ (if s.head (blocked_on m) == 0 then needs_ready aborts s else proceeds)
  unfolding outcome Wakes needs_ready
  release_from fuel m [] cx le m≢0 e =
      let s0 : State = record s { taken = at s.taken m false } in
      let c0 : IsCore n news q home s0 = IsCore-same s0 c (omega arith) refl refl refl refl in
      let null : s.head (blocked_on m) ≡ 0 = head_null (blocked_on m) c e in
      let s2 : State = reset (blocked_on m) s0 in
      ap (λ r. outcome (and_then r (λ s2. dispatch failed_assert cx s2)))
        (release_nil fuel m s s0 m≢0 (dequeue_nil (blocked_on m) c0 e)
          (enqueue_null fuel ready c0 le))
      ∙ outcome-dispatch (reset-IsCore (blocked_on m) c0) idle failed_assert cx
      ∙ ap (λ h. if h == 0 then needs_ready aborts s else proceeds) (sym null)
  release_from fuel m (x ∷ xs) cx le m≢0 e =
      let s0 : State = record s { taken = at s.taken m false } in
      let c0 : IsCore n news q home s0 = IsCore-same s0 c (omega arith) refl refl refl refl in
      let (s1, s2, run1, run2, same, head, some, home', core, back, forth) =
        wake_lem fuel (blocked_on m) x xs c0 le e in
      let set : s.head (blocked_on m) ≢ 0 = head in
      ap (λ r. outcome (and_then r (λ s2. dispatch failed_assert cx s2)))
        (release_cons fuel m x s s1 s2 m≢0 run1 run2)
      ∙ outcome-dispatch (reset-IsCore (blocked_on m) core) (λ t a. idle t (back t a)) failed_assert
          cx
      ∙ needs_cons aborts (reset (blocked_on m) s2) some
      ∙ ground (arith, set)

module _ {n : ℕ} {news : List ℕ} {q : Place → List ℕ} {home : ℕ → Home} {s : State}
    (y : IsSystem n news q home s) (fuel : ℕ) where
  pub outcome-exit :
      (res : ℕ) → n ≤ fuel → outcome (green_exit fuel res s) ≡ expected (Call.exit res) s
  unfolding expected needs_ready terminated EnqueuesCore
  outcome-exit res le =
      let y_runs = y.runs in
      let r : ℕ = s.running in
      let j : ℕ = s.join r in
      let t : State = terminated r res s in
      let c = exit-IsCore res y in
      let none = λ (u : ℕ). none_moved home r u ended (λ e. cc) y.only in
      ap outcome (exit_as fuel res s)
      ∙ if_ind (λ o. outcome (and_then (wake_joiner fuel t) run_next) ≡ o) (j == 0) _ proceeds
          (λ e.
            ap (λ o. outcome (and_then o run_next)) (wake_none fuel t e)
            ∙ run_next_from c none (q ready) refl)
          (λ e.
            let j≢0 : j ≢ 0 = ground (arith, e) in
            let (there, free) = joiner_waits res y j≢0 in
            let (s1, run, same, core) = enqueue-IsCore fuel ready j c le there free in
            let (x, xs, e') = append_cons (q ready) j in
            ap (λ o. outcome (and_then o run_next)) (wake_some fuel t e ∙ run)
            ∙ run_next_from core
                (λ u a.
                  none_moved (at home r ended) j u (queued ready) (λ h. cc)
                    (λ v b. absurd (none v b)) a)
                _ refl
            ∙ needs_cons crashes s1
                (head_set ready x xs core (put_queue_self q ready (q ready ++ (j ∷ [])) ∙ e')))

  outcome-wait : (cond m : ℕ) → suc n ≤ fuel → outcome (wait_at fuel cond m s) ≡ expected_wait m s
  unfolding wait_at expected_wait EnqueuesCore needs_ready outcome
  outcome-wait cond m le =
      if_ind (λ r. outcome r ≡ expected_wait m s) (s.running == 0) failed_assert _
        (λ e. absurd (running_ne y (ground (arith, e))))
        (λ e.
          let (s1, run, same, core) =
            suspends blocked_first fuel (omega (arith, le)) (waiting cond) in
          let none = λ (t : ℕ) (a : _).
            none_moved home s.running t (queued (waiting cond)) (λ h. cc) y.only a in
          let kept = λ (p : Place) (ne : same_place p (waiting cond) ≡ false).
            head_same p _ y.core core refl
              (put_queue_ne q (waiting cond) (q (waiting cond) ++ (s.running ∷ [])) p ne) in
          let first = kept ready refl in
          let second = kept (blocked_on m) refl in
          ap
            (λ r. outcome (
              and_then r
                (λ t1. and_then (release fuel m t1) (λ t2. dispatch failed_assert (in_wait m) t2))))
            run
          ∙ elim (Bool-cases (m == 0)) [
            | inl z ↦
                ap (λ r. outcome (and_then r (λ t2. dispatch failed_assert (in_wait m) t2)))
                  (release_none fuel m s1 (ground (arith, z)))
                ∙ outcome-dispatch core none failed_assert (in_wait m)
                ∙ ap (λ h. if h == 0 then aborts else proceeds) first
                ∙ ap
                    (λ b.
                      if b
                      then needs_ready aborts s
                      else if s.head (blocked_on m) == 0
                      then needs_ready aborts s
                      else proceeds)
                    (sym z)
            | inr z ↦
                release_from core none fuel m _ (in_wait m) le (ground (arith, z)) refl
                ∙ ap (λ h. if h == 0 then needs_ready aborts s1 else proceeds) second
                ∙ ap
                    (λ h.
                      if s.head (blocked_on m) == 0
                      then (if h == 0 then aborts else proceeds)
                      else proceeds)
                    first
                ∙ ap
                    (λ b.
                      if b
                      then needs_ready aborts s
                      else if s.head (blocked_on m) == 0
                      then needs_ready aborts s
                      else proceeds)
                    (sym z)
          ])
    where
      blocked_first : IsSystem n news q home (block s)
      blocked_first = IsSystem-same (block s) y (omega arith) refl refl refl refl refl

  pub outcome-cond_wait :
      (cond m : ℕ)
      → suc n ≤ fuel
      → outcome (green_cond_wait fuel cond m s) ≡ expected (Call.cond_wait cond m) s
  unfolding green_cond_wait expected
  outcome-cond_wait cond m le =
      if_ind (λ r. outcome r ≡ expected (Call.cond_wait cond m) s) (s.running == 0) failed_assert _
        (λ e. absurd (running_ne y (ground (arith, e))))
        (λ e. outcome-deref cond _ _ (outcome-wait cond m le))
