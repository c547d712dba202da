-- ===== src/Green/System/Examples.antt =====
-- A history of the green threads that ends in a deadlock, and the theorems applied to it.
use id.Base.{◌≡◌, refl, List, [], ◌∷◌, arith}
use id.Links.{Absent, Distinct}
use id.Green.{
  State, Result, ok, init, last, green_create, green_mutex_lock, green_mutex_init, timer_handler,
  resume, green_exit, green_join,
}
use id.Green.Events.{Call, run, perform}
use id.Green.System.Guarded.{IsGuarded}
use id.Green.System.Waiters.{run-IsGuarded}
use id.Green.System.Perform.{created}
use id.Green.Scheduler.{follow, view}
use id.Green.System.Refinement.{Refines, run-follow}
use id.Green.System.Run.{Ends, run-Ends}
use id.Green.System.Faults.{crashes, outcome, expected}
use id.Green.System.History.{outcome-perform}

-- The main thread takes the mutex 9 and is interrupted; 2 waits for the mutex, and 3 ends.
abbrev deadlock : List Call
deadlock =
    Call.create 2 100 0
    ∷ Call.create 3 100 0
    ∷ Call.mutex_init 9
    ∷ Call.mutex_lock 9
    ∷ Call.interrupt
    ∷ Call.continue
    ∷ Call.mutex_lock 9
    ∷ Call.continue
    ∷ Call.exit 0
    ∷ Call.continue
    ∷ []

reached : Result State → State
reached (ok s) = s
reached _ = init

-- The main thread runs again, and its `green_join` of 2 crashes.
main_runs : (reached (run 22 deadlock init)).running ≡ 1
unfolding reached run perform last green_create green_mutex_lock green_mutex_init timer_handler
    resume green_exit
main_runs = refl

join_crashes : outcome (perform 22 (Call.join 2 0) (reached (run 22 deadlock init))) ≡ crashes
unfolding reached run perform last outcome green_join green_create green_mutex_lock green_mutex_init
    timer_handler resume green_exit
join_crashes = refl

run-follow_example : Refines (follow deadlock (view (λ p. []) init)) (run 22 deadlock init)
unfolding created Distinct Absent
run-follow_example =
    run-follow 22 deadlock ((omega arith, tt), (tt, tt)) (omega arith, (omega arith, tt))
      (omega arith, (omega arith, tt)) (omega arith)

run-Ends_example : Ends 20 (run 22 deadlock init)
unfolding created Distinct Absent
run-Ends_example =
    run-Ends 22 deadlock ((omega arith, tt), (tt, tt)) (omega arith, (omega arith, tt))
      (omega arith, (omega arith, tt)) (omega arith)

outcome-perform_example :
    outcome (perform 22 (Call.join 2 0) (reached (run 22 deadlock init)))
    ≡ expected (Call.join 2 0) (reached (run 22 deadlock init))
unfolding created Distinct Absent reached run perform last green_create green_mutex_lock
    green_mutex_init timer_handler resume green_exit
outcome-perform_example =
    outcome-perform 22 deadlock (Call.join 2 0) (reached (run 22 deadlock init))
      ((omega arith, tt), (tt, tt)) (omega arith, (omega arith, tt))
      (omega arith, (omega arith, tt)) (omega arith) refl

run-IsGuarded_example : IsGuarded (reached (run 22 deadlock init))
unfolding reached run perform last green_create green_mutex_lock green_mutex_init timer_handler
    resume green_exit
run-IsGuarded_example = run-IsGuarded 22 deadlock (reached (run 22 deadlock init)) refl
