-- ===== src/Green/Counter/Examples.antt =====
-- Runs of seminar3/test_mutex.c.
use id.Base.{ℕ, zero, suc, ◌≡◌, refl, Bool, true, false, List, [], ◌∷◌, arith}
use id.Green.{
  Result, ok, last, green_create, green_mutex_lock, green_mutex_unlock, clear_mutex, green_yield,
  timer_handler, resume, green_exit, green_join,
}
use id.Green.Events.{perform}
use id.Links.{Absent, Distinct}
use id.Green.Counter.{Machine, start, moves}
use id.Green.Counter.Total.{Counts, start-Counts}

-- `n` steps, an interrupt, and the same again.
abbrev interrupted : ℕ → ℕ → ℕ → List Bool
interrupted zero n m = []
interrupted (suc k) n zero = true ∷ interrupted k n n
interrupted (suc k) n (suc m) = false ∷ interrupted k n m

abbrev end_of : Result Machine → Machine
end_of (ok k) = k
end_of _ = start 0 0 0 0 0

last_machine : Machine
last_machine = end_of (moves 9 400 (interrupted 120 3 3) (start 9 2 2 3 4))

total : (last_machine.shared ≡ 6) × (last_machine.todo ≡ [])
unfolding last_machine moves perform last green_create green_mutex_lock green_mutex_unlock
    clear_mutex green_yield timer_handler resume green_exit green_join
total = (refl, refl)

start-Counts_example : Counts (moves 9 400 (interrupted 120 3 3) (start 9 2 2 3 4))
unfolding Distinct Absent
start-Counts_example =
    start-Counts 9 2 2 3 4 400 (interrupted 120 3 3)
      ((omega arith, (omega arith, tt)), ((omega arith, tt), (tt, tt)))
      (omega arith, (omega arith, (omega arith, tt)))
      (omega arith, (omega arith, (omega arith, tt))) (omega arith)
