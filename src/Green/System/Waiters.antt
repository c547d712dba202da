-- ===== src/Green/System/Waiters.antt =====
-- No thread of seminar3/green.c is on the queue of a mutex that is free.
use mathlib.Core.Path.{subst}
use id.Base.{
  ℕ, ◌≡◌, inl, inr, refl, sym, ◌∙◌, ◌==◌, true, false, if_ind, if◌then◌else◌, List, [], ◌∷◌, arith,
}
use id.Links.{at}
use id.Green.{
  State, Place, ready, waiting, blocked_on, Result, ok, null_access, failed_assert, out_of_fuel,
  Context, entry, in_join, in_wait, released, at_place, dequeue, enqueue, dispatch, and_then, block,
  unblock, green_thread, collect, retake, release, join_at, green_yield, lock_at, green_exit,
  wait_at, timer_handler, resume, green_create, signal_at, unlock_at, clear_cond, clear_mutex,
  green_join, green_cond_init, green_mutex_init, green_mutex_lock, green_mutex_unlock,
  green_cond_signal, green_cond_wait, deref, is_released, init,
}
use id.Green.Events.{Call, perform, run}
use id.Green.Lifecycle.{prepared}
use id.Green.System.Guarded.{
  IsCovered, Covers, IsOther, Guards, NoneExempt, IsGuarded, IsCovered-IsGuarded, cleared-IsCovered,
  freed-IsCovered, taken-IsCovered, enqueue_other, enqueue_busy, dequeue_other, dequeue_busy,
  dispatch-Covers, and_then-Covers, other-Covered,
}

-- The running thread goes to another queue, and the next one runs.
switch-Guards :
    (fuel : ℕ) (p : Place) (fault : Result State) (cx : Context) (s : State)
    → IsOther p
    → Guards fault
    → IsCovered NoneExempt s
    → Guards (and_then (enqueue fuel p s.running s) (λ s1. dispatch fault cx s1))
switch-Guards fuel p fault cx s o bad g =
    and_then-Covers NoneExempt _ _ (enqueue_other NoneExempt fuel p s.running s o g)
      (λ s1 g1. dispatch-Covers NoneExempt fault cx s1 bad g1)

-- The running thread waits for a mutex that is taken.
block-Guards :
    (fuel n : ℕ) (fault : Result State) (cx : Context) (s : State)
    → s.taken n ≡ true
    → Guards fault
    → IsCovered NoneExempt s
    → Guards (and_then (enqueue fuel (blocked_on n) s.running s) (λ s1. dispatch fault cx s1))
block-Guards fuel n fault cx s busy bad g =
    and_then-Covers NoneExempt _ _ (enqueue_busy NoneExempt fuel n s.running s busy g)
      (λ s1 g1. dispatch-Covers NoneExempt fault cx s1 bad g1)

-- A thread is made ready.
ready-Guards :
    (fuel t : ℕ) (s : State)
    → IsCovered NoneExempt s
    → Guards (and_then (enqueue fuel ready t s) (λ s2. ok (unblock s2)))
unfolding IsOther Covers IsCovered
ready-Guards fuel t s g =
    and_then-Covers NoneExempt _ _ (enqueue_other NoneExempt fuel ready t s tt g) (λ s2 g2. g2)

run_next-Guards :
    (s : State)
    → IsCovered NoneExempt s
    → Guards (
        let (n, s3) = dequeue ready s in
        if n == 0 then null_access else ok (record s3 { running = n; masked = true }))
unfolding IsOther Covers IsCovered
run_next-Guards s g =
    if_ind (λ r. Guards r) ((dequeue ready s).0 == 0) _ _ (λ e. tt)
      (λ e. dequeue_other NoneExempt ready s tt g)

clear_after :
    (n : ℕ) (r : Result State)
    → Covers (λ m. n ≡ m) r
    → Guards (and_then r (λ s2. ok (record s2 { head = at_place s2.head (blocked_on n) 0 })))
unfolding Covers
clear_after n (ok s) g = cleared-IsCovered n s g
clear_after n null_access g = tt
clear_after n failed_assert g = tt
clear_after n out_of_fuel g = tt

module _ (fuel : ℕ) (s : State) (g : IsCovered NoneExempt s) where
  lock-Guards : (n : ℕ) → Guards (lock_at fuel n s)
  unfolding lock_at Covers IsCovered
  lock-Guards n =
      if_ind (λ r. Guards r) (s.taken n) _ _
        (λ e. block-Guards fuel n failed_assert Context.in_lock (block s) e tt g)
        (λ e. taken-IsCovered n s g)

  retake-Guards : (n : ℕ) → Guards (retake fuel n s)
  unfolding retake Covers IsCovered
  retake-Guards n =
      if_ind (λ r. Guards r) (n == 0) _ _ (λ e. g)
        (λ e.
          if_ind (λ r. Guards r) (s.taken n) _ _
            (λ e. block-Guards fuel n null_access Context.in_lock s e tt g)
            (λ e. taken-IsCovered n s g))

  collect-Guards : (thread res : ℕ) → Guards (collect thread res s)
  unfolding collect Covers IsCovered
  collect-Guards thread res =
      if_ind (λ r. Guards r) (is_released (s.context thread)) _ _ (λ e. tt)
        (λ e.
          if_ind (λ r. Guards r) (s.retval thread == 0) _ _ (λ e. g)
            (λ e. if_ind (λ r. Guards r) (res == 0) _ _ (λ e. tt) (λ e. g)))

  join-Guards : (thread res : ℕ) → Guards (join_at thread res s)
  unfolding join_at Covers IsCovered
  join-Guards thread res =
      if_ind (λ r. Guards r) (s.zombie thread) _ _ (λ e. collect-Guards thread res)
        (λ e.
          dispatch-Covers NoneExempt null_access (in_join thread res)
            (record s { masked = true; join = at s.join thread s.running }) tt g)

  signal-Guards : (c : ℕ) → Guards (signal_at fuel c s)
  unfolding signal_at Covers IsCovered IsOther
  signal-Guards c =
      if_ind (λ r. Guards r) (s.head (waiting c) == 0) _ _ (λ e. g)
        (λ e.
          ready-Guards fuel ((dequeue (waiting c) (block s)).0) ((dequeue (waiting c) (block s)).1)
            (dequeue_other NoneExempt (waiting c) (block s) tt g))

  unlock-Guards : (n : ℕ) → Guards (unlock_at fuel n s)
  unfolding unlock_at Covers IsCovered
  unlock-Guards n =
      if_ind (λ r. Guards r) (s.head (blocked_on n) == 0) _ _
        (λ e. cleared-IsCovered n (record s { taken = at s.taken n false }) (freed-IsCovered n s g))
        (λ e.
          ready-Guards fuel ((dequeue (blocked_on n) (block s)).0)
            ((dequeue (blocked_on n) (block s)).1)
            (dequeue_busy NoneExempt n (block s)
              (inr (elim (g n) [
                | inl k ↦ elim k [ ]
                | inr (inl k) ↦ k
                | inr (inr k) ↦ absurd (
                    let k' : (s.head (blocked_on n) == 0) ≡ true = ground (arith, k) in
                    let k'' = sym k' ∙ e in cc)
              ]))
              g))

  release-Guards : (n : ℕ) → Guards (release fuel n s)
  unfolding release Covers IsOther
  release-Guards n =
      if_ind (λ r. Guards r) (n == 0) _ _ (λ e. g)
        (λ e.
          let s0 : State = record s { taken = at s.taken n false } in
          let r =
            enqueue_other (λ m. n ≡ m) fuel ready ((dequeue (blocked_on n) s0).0)
              ((dequeue (blocked_on n) s0).1) tt
              (dequeue_busy (λ m. n ≡ m) n s0 (inl refl) (freed-IsCovered n s g)) in
          clear_after n _ r)

  thread-Guards : Guards (green_thread s)
  unfolding green_thread Covers IsCovered
  thread-Guards = if_ind (λ r. Guards r) (s.fun s.running == 0) _ _ (λ e. tt) (λ e. g)

  create-Guards : (new f a : ℕ) → Guards (green_create fuel new f a s)
  unfolding green_create IsCovered prepared
  create-Guards new f a = ready-Guards fuel new (prepared new f a s) g

  exit-Guards : (res : ℕ) → Guards (green_exit fuel res s)
  unfolding green_exit Covers IsCovered IsOther
  exit-Guards res =
      and_then-Covers NoneExempt _ _
        (if_ind (λ r. Guards r) (s.join s.running == 0) _ _ (λ e. g)
          (λ e. enqueue_other NoneExempt fuel ready (s.join s.running) s tt g))
        (λ s1 g1.
          run_next-Guards
            (record s1 {
              retval = at s1.retval s.running res;
              zombie = at s1.zombie s.running true;
            })
            g1)

  yield-Guards : Guards (green_yield fuel s)
  unfolding green_yield Covers IsCovered IsOther
  yield-Guards = switch-Guards fuel ready null_access Context.in_yield (block s) tt tt g

  timer-Guards : Guards (timer_handler fuel s)
  unfolding timer_handler Covers
  timer-Guards = if_ind (λ r. Guards r) s.masked _ _ (λ e. g) (λ e. yield-Guards)

  resume-Guards : Guards (resume fuel s)
  unfolding resume Covers IsCovered
  resume-Guards = at_context (s.context s.running)
    where
      at_context :
          (c : Context)
          → Guards (elim c [
            | entry ↦ green_thread s
            | Context.in_yield ↦ ok (unblock s)
            | in_join thread res ↦ collect thread res s
            | in_wait mutex ↦ retake fuel mutex s
            | Context.in_lock ↦ ok (unblock s)
            | released ↦ null_access
          ])
      at_context entry = thread-Guards
      at_context Context.in_yield = g
      at_context (in_join thread res) = collect-Guards thread res
      at_context (in_wait mutex) = retake-Guards mutex
      at_context Context.in_lock = g
      at_context released = tt

wait-Guards :
    (fuel cond n : ℕ) (s : State) → IsCovered NoneExempt s → Guards (wait_at fuel cond n s)
unfolding wait_at Covers IsCovered IsOther
wait-Guards fuel cond n s g =
    if_ind (λ r. Guards r) (s.running == 0) _ _ (λ e. tt)
      (λ e.
        and_then-Covers NoneExempt _ _
          (enqueue_other NoneExempt fuel (waiting cond) s.running (block s) tt g)
          (λ s1 g1.
            and_then-Covers NoneExempt _ _ (release-Guards fuel s1 g1 n)
              (λ s2 g2. dispatch-Covers NoneExempt failed_assert (in_wait n) s2 tt g2)))

reset-IsCovered :
    (n : ℕ) (s : State)
    → IsCovered NoneExempt s
    → IsCovered NoneExempt
        (record s { taken = at s.taken n false; head = at_place s.head (blocked_on n) 0 })
reset-IsCovered n s g =
    cleared-IsCovered n (record s { taken = at s.taken n false }) (freed-IsCovered n s g)

deref-Guards : (p : ℕ) (r : Result State) → Guards r → Guards (deref p r)
unfolding Covers
deref-Guards p r g = if_ind (λ x. Guards x) (p == 0) null_access r (λ e. tt) (λ e. g)

perform-Guards :
    (fuel : ℕ) (c : Call) (s : State) → IsCovered NoneExempt s → Guards (perform fuel c s)
unfolding perform clear_cond clear_mutex green_join green_cond_init green_mutex_init
    green_mutex_lock green_mutex_unlock green_cond_signal green_cond_wait Covers IsOther IsCovered
perform-Guards fuel (Call.create new f a) s g = create-Guards fuel s g new f a
perform-Guards fuel Call.yield s g = yield-Guards fuel s g
perform-Guards fuel Call.interrupt s g = timer-Guards fuel s g
perform-Guards fuel Call.continue s g = resume-Guards fuel s g
perform-Guards fuel (Call.join thread res) s g =
    deref-Guards thread _ (join-Guards fuel s g thread res)
perform-Guards fuel (Call.exit res) s g = exit-Guards fuel s g res
perform-Guards fuel (Call.cond_init c) s g =
    deref-Guards c _ (other-Covered NoneExempt (waiting c) 0 s.next s tt g)
perform-Guards fuel (Call.cond_signal c) s g = deref-Guards c _ (signal-Guards fuel s g c)
perform-Guards fuel (Call.mutex_init m) s g = deref-Guards m _ (reset-IsCovered m s g)
perform-Guards fuel (Call.mutex_lock m) s g = deref-Guards m _ (lock-Guards fuel s g m)
perform-Guards fuel (Call.mutex_unlock m) s g = deref-Guards m _ (unlock-Guards fuel s g m)
perform-Guards fuel (Call.cond_wait c m) s g =
    if_ind (λ r. Guards r) (s.running == 0) _ _ (λ e. tt)
      (λ e. deref-Guards c _ (wait-Guards fuel c m s g))

run-Guards :
    (fuel : ℕ) (calls : List Call) (s : State) → IsCovered NoneExempt s → Guards (run fuel calls s)
unfolding run Covers
run-Guards fuel [] s g = g
run-Guards fuel (c ∷ cs) s g =
    and_then-Covers NoneExempt _ _ (perform-Guards fuel c s g) (λ s1 g1. run-Guards fuel cs s1 g1)

ended-IsCovered : (r : Result State) (s : State) → Guards r → r ≡ ok s → IsCovered NoneExempt s
unfolding Covers
ended-IsCovered r s g e = subst (λ r. Covers NoneExempt r) e g

-- In every state that a history of calls, ends of threads, timer interrupts and returns from switches
-- reaches from the initial state, whatever mutexes the calls name, and with any fuel, every mutex is
-- taken or no thread is on its queue
pub run-IsGuarded :
    (fuel : ℕ) (calls : List Call) (s : State) → run fuel calls init ≡ ok s → IsGuarded s
unfolding IsCovered
run-IsGuarded fuel calls s e =
    IsCovered-IsGuarded s
      (ended-IsCovered (run fuel calls init) s (run-Guards fuel calls init (λ m. inr (inr refl))) e)
