-- ===== src/Green/Race/Examples.antt =====
-- An interrupt inside the end of `green_thread` of seminar3/green.c, while threads use a mutex.
use id.Base.{true, false, List, ◌≡◌, refl, [], ◌∷◌}
use id.Green.Race.{exit_choose, exit_switch}
use id.Green.Events.{Call, run, perform}
use id.Green.{
  State, Place, Result, ok, init, and_then, last, green_create, green_mutex_init, green_join,
  green_yield, green_mutex_lock, green_mutex_unlock, timer_handler, resume,
}

-- The main thread 1 waits for 2; 3 has used the mutex 9; 2 is inside it and was interrupted; 3 runs, and
-- 4 and 2 are ready.
abbrev before_race : List Call
before_race =
    Call.create 2 100 0
    ∷ Call.create 3 100 0
    ∷ Call.create 4 100 0
    ∷ Call.mutex_init 9
    ∷ Call.join 2 0
    ∷ Call.continue
    ∷ Call.yield
    ∷ Call.continue
    ∷ Call.mutex_lock 9
    ∷ Call.mutex_unlock 9
    ∷ Call.yield
    ∷ Call.continue
    ∷ Call.yield
    ∷ Call.continue
    ∷ Call.mutex_lock 9
    ∷ Call.interrupt
    ∷ Call.continue
    ∷ []

-- The end of 3 is interrupted, 4 waits for the mutex, 2 runs and is interrupted inside it, and 3 runs
-- again.
abbrev in_race : List Call
in_race =
    Call.interrupt
    ∷ Call.continue
    ∷ Call.mutex_lock 9
    ∷ Call.continue
    ∷ Call.interrupt
    ∷ Call.continue
    ∷ []

raced : Result State
unfolding exit_choose exit_switch
raced = and_then (run 50 before_race init) (λ s. and_then (exit_choose 50 0 s) (λ p.
    and_then (run 50 in_race p.1)
      (λ s1. and_then (exit_switch p.0 s1) (λ s2. run 50 (Call.continue ∷ []) s2))))

-- The state that a run ends in.
reached : Result State → State
reached (ok s) = s
reached _ = init

-- The thread 4 has returned from `green_mutex_lock` and runs, with the signal unblocked, while it is on
-- the queue of the mutex, which 2 holds; and 2 is lost, for no thread is ready.
race :
    ((reached raced).running ≡ 4)
    × ((reached raced).masked ≡ false)
    × ((reached raced).head (Place.blocked_on 9) ≡ 4)
    × ((reached raced).taken 9 ≡ true)
    × ((reached raced).head Place.ready ≡ 0)
unfolding raced reached run perform last green_create green_mutex_init green_join green_yield
    green_mutex_lock green_mutex_unlock timer_handler resume
race = (refl, refl, refl, refl, refl)
