-- ===== src/Green/System/Signals.antt =====
-- What `green_cond_signal`, `green_mutex_unlock`, `green_cond_wait` and the initialisations of
-- seminar3/green.c keep.
use mathlib.Core.Path.{subst}
use id.Base.{
  if_ind, ℕ, suc, ◌≤◌, ◌≡◌, ◌≢◌, refl, sym, ap, ◌∙◌, ◌==◌, false, List, [], ◌∷◌, ◌++◌, arith,
}
use id.Links.{at}
use id.Green.{
  at_place, dequeue, enqueue, ready, Result, State, Place, waiting, blocked_on, ok, failed_assert,
  dispatch, block, unblock, and_then, unlock_at, release, wait_at, signal_at, in_wait, deref,
  green_cond_wait,
}
use id.Green.Mutex.{unlock_cons}
use id.Green.Scheduler.{put_queue}
use id.Green.System.{Home, put_queue_same, IsSystem}
use id.Green.System.Moves.{reset, reset-IsCore}
use id.Green.Scheduler.{Schedule, signal_one, hand_over, let_go, suspend_on, switch_to, view}
use id.Green.Scheduler.Heads.{signal_one_nil, signal_one_cons, hand_over_nil, hand_over_cons}
use id.Green.System.Sound.{Sound, Sound-subst, IsCore-same, IsSystem-same, ok-Sound, deref-Sound}
use id.Green.System.Switch.{dispatch-Sound, Suspends, suspend_lem}
use id.Green.System.Transfer.{
  Wakes, queue_null, woken, wake_lem, wake-IsSystem, signal_nil, signal_cons, unlock_nil,
}
use id.Green.System.Release.{Released, released_lem}

module _ {n : ℕ} {news : List ℕ} {q : Place → List ℕ} {home : ℕ → Home} {s : State}
    (y : IsSystem n news q home s) (fuel : ℕ) (le : n ≤ fuel) where
  blocked : IsSystem n news q home (block s)
  blocked = IsSystem-same (block s) y (omega arith) refl refl refl refl refl

  -- The first thread of a queue becomes ready, and the signal is unblocked.
  woken_from :
      (p : Place) (x : ℕ) (xs : List ℕ) (a : Schedule) (r : Result State)
      → q p ≡ x ∷ xs
      → a ≡ view (woken q p x xs) (unblock s)
      → ((s1 s2 : State)
          → s.head p ≢ 0
          → dequeue p (block s) ≡ (x, s1)
          → enqueue fuel ready x s1 ≡ ok s2
          → r ≡ ok (unblock s2))
      → Sound (suc n) news (ok a) r
  unfolding Sound Wakes
  woken_from p x xs a r e shows runs =
      let (s1, s2, run1, run2, same, head, more, home', core, back, forth) =
        wake_lem fuel p x xs blocked.core le e in
      let q' : Place → List ℕ = woken q p x xs in
      let moved =
        wake-IsSystem s2 q' home' y core (ap (λ (r : State). r.running) same) back forth in
      subst (λ r. Sound (suc n) news (ok a) r) (sym (runs s1 s2 head run1 run2))
        (
          q',
          home',
          IsSystem-same (unblock s2) moved (omega arith) refl refl refl refl refl,
          ap ok shows ∙ ap (λ r. ok (view q' (unblock r))) (sym same),
        )

  signal_from :
      (c : ℕ) (xs : List ℕ)
      → q (waiting c) ≡ xs
      → Sound (suc n) news (ok (signal_one c (view q s))) (signal_at fuel c s)
  signal_from c [] e =
      Sound-subst (suc n) news _ _ _ _ (ap ok (signal_one_nil (view q s) c e))
        (signal_nil fuel c s (queue_null (waiting c) y.core e))
        (ok-Sound (block s) y refl refl refl refl refl)
  signal_from c (x ∷ xs) e =
      woken_from (waiting c) x xs _ _ e (signal_one_cons (view q s) c x xs e)
        (λ s1 s2 head run1 run2. signal_cons fuel c x s s1 s2 head run1 run2)

  pub signal-Sound :
      (c : ℕ) → Sound (suc n) news (ok (signal_one c (view q s))) (signal_at fuel c s)
  signal-Sound c = signal_from c (q (waiting c)) refl

  -- The two queues that initialisations empty.
  pub reset-Sound :
      (p : Place) (s' : State)
      → s'.running ≡ s.running
      → s'.head ≡ at_place s.head p 0
      → s'.next ≡ s.next
      → s'.join ≡ s.join
      → s'.zombie ≡ s.zombie
      → Sound (suc n) news (ok (view (put_queue q p []) s')) (ok s')
  unfolding Sound
  reset-Sound p s' er eh en ej ez = (
    put_queue q p [],
    home,
    record {
      core = IsCore-same s' (reset-IsCore p y.core) (omega arith) eh en ej ez;
      runs = ap home er ∙ y.runs;
      only = λ t a. y.only t a ∙ sym er;
    },
    refl,
  )

  unlock_from :
      (m : ℕ) (xs : List ℕ)
      → q (blocked_on m) ≡ xs
      → Sound (suc n) news (ok (hand_over m (view q s))) (unlock_at fuel m s)
  unlock_from m [] e =
      let p : Place = blocked_on m in
      let s' : State = unblock (record (reset p s) { taken = at s.taken m false }) in
      Sound-subst (suc n) news _ _ _ _
        (ap ok (hand_over_nil (view q s) m e)
          ∙ ap (λ q'. ok (view q' s')) (sym (put_queue_same q p [] e)))
        (unlock_nil fuel m s (queue_null p y.core e)) (reset-Sound p s' refl refl refl refl refl)
  unlock_from m (x ∷ xs) e =
      woken_from (blocked_on m) x xs _ _ e (hand_over_cons (view q s) m x xs e)
        (λ s1 s2 head run1 run2. unlock_cons fuel m x s s1 s2 head run1 run2)

  pub unlock-Sound : (m : ℕ) → Sound (suc n) news (ok (hand_over m (view q s))) (unlock_at fuel m s)
  unlock-Sound m = unlock_from m (q (blocked_on m)) refl

  running_ne : s.running ≢ 0
  running_ne z = let y_runs = y.runs in let null = y.core.null in let z' = ap home z in cc

  -- `green_cond_wait` moves two threads.
  wait-Sound :
      (c m : ℕ)
      → suc n ≤ fuel
      → Sound (suc (suc n)) news (suspend_on c m (view q s)) (wait_at fuel c m s)
  unfolding wait_at suspend_on Suspends Released Sound
  wait-Sound c m le' =
      if_ind (λ r. Sound (suc (suc n)) news (suspend_on c m (view q s)) r) (s.running == 0)
        failed_assert _ (λ e. absurd (running_ne (ground (arith, e))))
        (λ e.
          let (s1, run1, same1, home1, core1, none1) = suspend_lem fuel (waiting c) blocked le in
          let (s2, run2, q2, home2, core2, back, shows) = released_lem fuel m core1 le' in
          let q1 : Place → List ℕ = put_queue q (waiting c) (q (waiting c) ++ (s.running ∷ [])) in
          let f : Result Schedule = failed_assert in
          Sound-subst (suc (suc n)) news _ _ _ _
            (ap (λ r. switch_to f (in_wait m) (let_go m (view q1 r))) (sym same1)
              ∙ ap (λ a. switch_to f (in_wait m) a) shows)
            (ap
                (λ r. and_then r (λ t1.
                  and_then (release fuel m t1) (λ t2. dispatch failed_assert (in_wait m) t2)))
                run1
              ∙ ap (λ r. and_then r (λ t2. dispatch failed_assert (in_wait m) t2)) run2)
            (dispatch-Sound core2 (λ t a. none1 t (back t a)) failed_assert failed_assert
              (in_wait m) refl))

  pub cond_wait-Sound :
      (c m : ℕ)
      → suc n ≤ fuel
      → Sound (suc (suc n)) news (deref c (suspend_on c m (view q s))) (green_cond_wait fuel c m s)
  unfolding green_cond_wait
  cond_wait-Sound c m le' =
      if_ind (λ r. Sound (suc (suc n)) news (deref c (suspend_on c m (view q s))) r)
        (s.running == 0) failed_assert _ (λ e. absurd (running_ne (ground (arith, e))))
        (λ e. deref-Sound (suc (suc n)) news c _ _ (wait-Sound c m le'))
