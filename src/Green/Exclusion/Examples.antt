-- ===== src/Green/Exclusion/Examples.antt =====
-- A history in which three threads want one mutex of seminar3/green.c.
use id.Base.{◌≡◌, refl, List, [], ◌∷◌, arith}
use id.Links.{Absent, Distinct}
use id.Green.{
  init, last, green_create, green_mutex_lock, green_mutex_unlock, green_mutex_init, green_yield,
  timer_handler, resume,
}
use id.Green.Events.{Call, perform}
use id.Green.System.Perform.{created}
use id.Green.Exclusion.{nobody, observe, allowed, disciplined, watch}
use id.Green.Exclusion.Mutual.{IsExclusive, watch-IsExclusive}

-- The main thread takes the mutex 9 and is interrupted; 2 and 3 wait for it; the main thread gives it
-- to 2, which enters.
abbrev contention : List Call
contention =
    Call.create 2 100 0
    ∷ Call.create 3 100 0
    ∷ Call.mutex_init 9
    ∷ Call.mutex_lock 9
    ∷ Call.interrupt
    ∷ Call.continue
    ∷ Call.mutex_lock 9
    ∷ Call.continue
    ∷ Call.mutex_lock 9
    ∷ Call.continue
    ∷ Call.mutex_unlock 9
    ∷ Call.yield
    ∷ Call.continue
    ∷ []

entered_in_order : (watch 9 26 contention nobody init).entered ≡ 1 ∷ 2 ∷ []
unfolding watch perform observe last green_create green_mutex_lock green_mutex_unlock
    green_mutex_init green_yield timer_handler resume
entered_in_order = refl

watch-IsExclusive_example : IsExclusive (watch 9 26 contention nobody init)
unfolding created Distinct Absent disciplined allowed perform observe last green_create
    green_mutex_lock green_mutex_unlock green_mutex_init green_yield timer_handler resume
watch-IsExclusive_example =
    watch-IsExclusive 9 26 contention ((omega arith, tt), (tt, tt)) (omega arith, (omega arith, tt))
      (omega arith, (omega arith, tt)) (omega arith) refl
