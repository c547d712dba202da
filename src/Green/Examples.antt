-- ===== src/Green/Examples.antt =====
-- Runs of the green threads at concrete states, and the theorems applied to them.
use id.Base.{true, ℕ, ◌≡◌, refl, [], ◌∷◌, arith}
use id.Links.{at, Queue, Absent, Distinct, Disjoint}
use id.Green.{
  install, failed_assert, State, Place, Result, ok, Context, init, at_place, and_then, green_yield,
  green_mutex_lock, last,
}
use id.Green.Yield.{IsRing, Turns, every_thread_runs}
use id.Green.Lifecycle.{Exits, exit-Exits}
use id.Green.Mutex.{AreApart, Hands, unlock-Hands, Waits, lock-Waits}
use id.Green.Wait.{Unlocks, cond_wait-Unlocks}

-- The main thread runs, 2 and 3 are ready, 4 and 5 wait for the mutex 7, and 6 for the condition 8.
abbrev busy : State
busy = record init {
  head =
      at_place (at_place (at_place (λ _. 0) Place.ready 2) (Place.blocked_on 7) 4) (Place.waiting 8)
        6;
  next = at (at (λ _. 0) 2 3) 4 5;
  taken = λ _. true;
  context = λ _. Context.in_lock;
  fun = λ _. 100;
}

-- As before, but no thread is ready.
abbrev lone : State
lone = record busy { head = at_place busy.head Place.ready 0 }

-- The main thread waits in `green_join` for 3, which runs; 2 is ready.
abbrev joined : State
joined = record init { running = 3; head = at_place (λ _. 0) Place.ready 2; join = at (λ _. 0) 3 1 }

-- The thread that runs after an operation.
runs : Result State → ℕ
runs (ok s) = s.running
runs _ = 0

two_yields : runs (and_then (green_yield 5 busy) (green_yield 5)) ≡ 3
unfolding runs green_yield last
two_yields = refl

lock_switches : runs (green_mutex_lock 5 7 busy) ≡ 2
unfolding runs green_mutex_lock last
lock_switches = refl

busy-IsRing : IsRing (1 ∷ 2 ∷ 3 ∷ []) busy
unfolding IsRing Queue Distinct Absent
busy-IsRing = (
  refl,
  omega arith,
  refl,
  (refl, omega arith, (refl, omega arith, refl)),
  ((omega arith, (omega arith, tt)), ((omega arith, tt), (tt, tt))),
)

every_thread_runs_example : Turns 2 2 (3 ∷ 1 ∷ 2 ∷ []) busy
every_thread_runs_example = every_thread_runs 2 3 (1 ∷ 2 ∷ []) [] busy (omega arith) busy-IsRing

exit-Exits_example : Exits 1 42 3 (2 ∷ 1 ∷ []) joined
unfolding IsRing Queue Distinct Absent
exit-Exits_example =
    exit-Exits 1 42 3 1 (2 ∷ []) joined (omega arith)
      (refl, omega arith, refl, (refl, omega arith, refl), ((omega arith, tt), (tt, tt))) refl
      (omega arith) refl (omega arith, tt)

unlock-Hands_example : Hands 2 7 4 (5 ∷ []) (2 ∷ 3 ∷ []) busy
unfolding AreApart Queue Absent Distinct Disjoint
unlock-Hands_example =
    unlock-Hands 2 7 4 (5 ∷ []) (2 ∷ 3 ∷ []) busy (omega arith) (omega arith)
      (refl, omega arith, (refl, omega arith, refl)) (refl, omega arith, (refl, omega arith, refl))
      (
        ((omega arith, tt), (tt, tt)),
        ((omega arith, tt), (tt, tt)),
        ((omega arith, (omega arith, tt)), ((omega arith, (omega arith, tt)), tt)),
        ((omega arith, (omega arith, tt)), ((omega arith, (omega arith, tt)), tt)),
      )

lock-Waits_example : Waits 2 7 2 (4 ∷ 5 ∷ []) (3 ∷ []) busy
unfolding AreApart Queue Absent Distinct Disjoint
lock-Waits_example =
    lock-Waits 2 7 2 (4 ∷ 5 ∷ []) (3 ∷ []) busy (omega arith) refl (omega arith)
      (refl, omega arith, (refl, omega arith, refl)) (refl, omega arith, (refl, omega arith, refl))
      (
        ((omega arith, (omega arith, tt)), ((omega arith, tt), (tt, tt))),
        ((omega arith, tt), (tt, tt)),
        (
          (omega arith, (omega arith, tt)),
          ((omega arith, (omega arith, tt)), ((omega arith, (omega arith, tt)), tt)),
        ),
        (
          (omega arith, (omega arith, (omega arith, tt))),
          ((omega arith, (omega arith, (omega arith, tt))), tt),
        ),
      )
      (omega arith) refl

cond_wait-Unlocks_example : Unlocks 1 8 7 4 (6 ∷ []) lone
unfolding AreApart Queue Absent Distinct Disjoint
cond_wait-Unlocks_example =
    cond_wait-Unlocks 1 8 7 4 (5 ∷ []) (6 ∷ []) lone (omega arith) (omega arith) (omega arith)
      (refl, omega arith, refl) (refl, omega arith, (refl, omega arith, refl)) refl
      (
        ((omega arith, tt), (tt, tt)),
        ((omega arith, tt), (tt, tt)),
        ((omega arith, (omega arith, tt)), ((omega arith, (omega arith, tt)), tt)),
        ((omega arith, (omega arith, tt)), ((omega arith, (omega arith, tt)), tt)),
      )
      (omega arith) refl refl

-- Without a handler for the timer the program does not start.
not_installed : install 1 ≡ failed_assert
unfolding install
not_installed = refl
