-- ===== src/Green/Race.antt =====
-- The end of `green_thread` of seminar3/green.c, cut where `dequeue` has read the first ready thread.
-- SIGVTALRM is not blocked there if the thread's function last unblocked it.
mod Examples
use id.Base.{ℕ, ◌≡◌, ◌==◌, true, arith, if◌then◌else◌}
use id.Links.{at}
use id.Green.{
  State, ready, Result, ok, null_access, enqueue, dequeue, and_then, at_place, green_exit,
}
use id.Green.Lifecycle.{terminated}

-- Up to the assignment to `thread` in `dequeue`; 0 if no thread is ready.
unfoldable pub exit_choose : ℕ → ℕ → State → Result (ℕ × State)
unfolding terminated
exit_choose fuel res s =
    and_then (if s.join s.running == 0 then ok s else enqueue fuel ready (s.join s.running) s)
      (λ s1. ok (s1.head ready, terminated s.running res s1))

-- From there on, with that `thread`. The head of the queue is read again.
unfoldable pub exit_switch : ℕ → State → Result State
exit_switch thread s =
    if thread == 0
    then null_access
    else if s.head ready == 0
    then null_access
    else ok (record s {
      head = at_place s.head ready (s.next (s.head ready));
      next = at s.next thread 0;
      running = thread;
      masked = true;
    })

-- Without an interrupt in between, the two parts are `green_exit`.
pub exit_split :
    (fuel res : ℕ) (s : State)
    → green_exit fuel res s ≡ and_then (exit_choose fuel res s) (λ p. exit_switch p.0 p.1)
unfolding green_exit exit_choose exit_switch terminated enqueue dequeue
exit_split fuel res s = ground arith
