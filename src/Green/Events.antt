-- ===== src/Green/Events.antt =====
-- The histories of the green threads of seminar3/green.c, for the functions that green.h declares.
use id.Base.{ℕ, List, [], ◌∷◌}
use id.Green.{
  State, Result, ok, and_then, green_create, green_yield, green_join, green_exit, green_cond_init,
  green_cond_wait, green_cond_signal, timer_handler, green_mutex_init, green_mutex_lock,
  green_mutex_unlock, resume,
}

-- The events of a history: a call by the running thread, the end of its function, a timer interrupt,
-- and its return from the `swapcontext` at which it was suspended. The end of a function is one event, so
-- that no interrupt comes inside it.
pub data Call : Type 0 where
  create : (new fun arg : ℕ) → Call
  yield interrupt continue : Call
  join : (thread res : ℕ) → Call
  exit : (res : ℕ) → Call
  cond_init cond_signal mutex_init mutex_lock mutex_unlock : (object : ℕ) → Call
  cond_wait : (cond mutex : ℕ) → Call

unfoldable pub perform : ℕ → Call → State → Result State
perform fuel (create new fun arg) s = green_create fuel new fun arg s
perform fuel yield s = green_yield fuel s
perform fuel interrupt s = timer_handler fuel s
perform fuel continue s = resume fuel s
perform fuel (join thread res) s = green_join thread res s
perform fuel (exit res) s = green_exit fuel res s
perform fuel (cond_init cond) s = green_cond_init cond s
perform fuel (cond_signal cond) s = green_cond_signal fuel cond s
perform fuel (mutex_init mutex) s = green_mutex_init mutex s
perform fuel (mutex_lock mutex) s = green_mutex_lock fuel mutex s
perform fuel (mutex_unlock mutex) s = green_mutex_unlock fuel mutex s
perform fuel (cond_wait cond mutex) s = green_cond_wait fuel cond mutex s

unfoldable pub run : ℕ → List Call → State → Result State
unfolding perform
run fuel [] s = ok s
run fuel (c ∷ cs) s = and_then (perform fuel c s) (λ s'. run fuel cs s')
