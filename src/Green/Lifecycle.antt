-- ===== src/Green/Lifecycle.antt =====
-- How the threads of seminar3/green.c are created, and how they end: the ring of the running and the
-- ready threads.
use mathlib.Core.Path.{subst, subst₂}
use id.Base.{
  ℕ, ◌≤◌, ◌≡◌, ◌≢◌, refl, sym, ap, ◌∙◌, ◌==◌, true, false, List, [], ◌∷◌, ◌++◌, arith, length,
  if◌then◌else◌,
}
use id.Links.{at, Queue, Absent, Distinct}
use id.Green.{
  State, Place, Result, ok, dequeue, enqueue, unblock, and_then, entry, green_create, green_exit,
}
use id.Green.Queue.{Enqueues, enqueue_lem, Dequeues, dequeue_lem}
use id.Green.Yield.{IsRing, Distinct-append}

-- The new thread before it is appended.
unfoldable pub prepared : ℕ → ℕ → ℕ → State → State
prepared new f a s = record s {
  masked = true;
  context = at s.context new entry;
  fun = at s.fun new f;
  arg = at s.arg new a;
  next = at s.next new 0;
  join = at s.join new 0;
  retval = at s.retval new 0;
  zombie = at s.zombie new false;
}

pub create_cons :
    (fuel new f a : ℕ) (s s1 : State)
    → enqueue fuel Place.ready new (prepared new f a s) ≡ ok s1
    → green_create fuel new f a s ≡ ok (unblock s1)
unfolding green_create prepared
create_cons fuel new f a s s1 e = ap (λ r. and_then r (λ x. ok (unblock x))) e

-- The thread that waits in `green_join` for the running one is made ready, if there is one.
unfoldable pub wake : ℕ → State → Result State
unfolding enqueue
wake fuel s = if s.join s.running == 0 then ok s else enqueue fuel Place.ready (s.join s.running) s

-- The running thread is recorded as terminated with `res`.
unfoldable pub terminated : ℕ → ℕ → State → State
terminated this res s = record s { retval = at s.retval this res; zombie = at s.zombie this true }

unfoldable pub Exits : ℕ → ℕ → ℕ → List ℕ → State → Type 0
unfolding green_exit IsRing
Exits fuel res r rs s =
    (s' : State) × (green_exit fuel res s ≡ ok s')
    × IsRing rs s'
    × (s'.zombie r ≡ true)
    × (s'.retval r ≡ res)

exit_cons :
    (fuel res n : ℕ) (s s1 s3 : State)
    → wake fuel s ≡ ok s1
    → dequeue Place.ready (terminated s.running res s1) ≡ (n, s3)
    → n ≢ 0
    → green_exit fuel res s ≡ ok (record s3 { running = n; masked = true })
unfolding green_exit wake terminated
exit_cons fuel res n s s1 s3 e1 e2 n≢0 = ground (arith, e1, e2, n≢0)

exit_from :
    (fuel res y : ℕ) (ys : List ℕ) (s s1 : State)
    → wake fuel s ≡ ok s1
    → Queue (y ∷ ys) (s1.head Place.ready) s1.next
    → Distinct (y ∷ ys)
    → Exits fuel res s.running (y ∷ ys) s
unfolding Exits IsRing Dequeues Queue Distinct terminated
exit_from fuel res y ys s s1 woken q d =
    let s2 : State = terminated s.running res s1 in
    let (s3, run, same, queue, clear, other, frame) = dequeue_lem Place.ready y ys s2 d q in
    let (_, y≢0, _) = q in
    (
      record s3 { running = y; masked = true },
      exit_cons fuel res y s s1 s3 woken run y≢0,
      (refl, y≢0, clear, queue, d),
      ap (λ (t : State). t.zombie s.running) same ∙ ground arith,
      ap (λ (t : State). t.retval s.running) same ∙ ground arith,
    )

wake_cons :
    (fuel : ℕ) (s s1 : State)
    → s.join s.running ≢ 0
    → enqueue fuel Place.ready (s.join s.running) s ≡ ok s1
    → wake fuel s ≡ ok s1
unfolding wake
wake_cons fuel s s1 j≢0 e = ground (arith, j≢0, e)

exit_wakes :
    (fuel res : ℕ) (xs : List ℕ) (s : State)
    → length xs ≤ fuel
    → s.join s.running ≢ 0
    → s.next (s.join s.running) ≡ 0
    → Absent (s.join s.running) xs
    → Queue xs (s.head Place.ready) s.next
    → Distinct xs
    → Exits fuel res s.running (xs ++ (s.join s.running ∷ [])) s
unfolding Enqueues Distinct
exit_wakes fuel res [] s le j≢0 nj a q d =
    let (s1, run, same, queue, _, _) =
      enqueue_lem fuel Place.ready (s.join s.running) s [] le j≢0 nj a d q in
    exit_from fuel res (s.join s.running) [] s s1 (wake_cons fuel s s1 j≢0 run) queue (tt, tt)
exit_wakes fuel res (x ∷ xs) s le j≢0 nj a q d =
    let (s1, run, same, queue, _, _) =
      enqueue_lem fuel Place.ready (s.join s.running) s (x ∷ xs) le j≢0 nj a d q in
    exit_from fuel res x (xs ++ (s.join s.running ∷ [])) s s1 (wake_cons fuel s s1 j≢0 run) queue
      (Distinct-append (s.join s.running) (x ∷ xs) (a, d))

-- When the real function of a thread returns and another thread waits in `green_join` for it, then
-- with fuel for the ready threads the waiting one is made ready behind them, the result is kept,
-- the thread is marked as terminated and leaves the ring, and the first ready thread runs.
pub exit-Exits :
    (fuel res r joiner : ℕ) (xs : List ℕ) (s : State)
    → length xs ≤ fuel
    → IsRing (r ∷ xs) s
    → s.join r ≡ joiner
    → joiner ≢ 0
    → s.next joiner ≡ 0
    → Absent joiner xs
    → Exits fuel res r (xs ++ (joiner ∷ [])) s
unfolding IsRing Distinct
exit-Exits fuel res r joiner xs s le (er, r≢0, nr, q, (rx, d)) ej j≢0 nj a =
    let ej' : s.join s.running ≡ joiner = ap s.join er ∙ ej in
    subst₂ (λ t j. Exits fuel res t (xs ++ (j ∷ [])) s) er ej'
      (exit_wakes fuel res xs s le (subst (λ j. j ≢ 0) (sym ej') j≢0)
        (subst (λ j. s.next j ≡ 0) (sym ej') nj) (subst (λ j. Absent j xs) (sym ej') a) q d)
