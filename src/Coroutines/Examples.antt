-- ===== src/Coroutines/Examples.antt =====
-- The run of contexts-assignment/yield.c with its MAX of 10, and a short one.
use id.Base.{◌≡◌}
use id.Coroutines.{run, start}
use id.Coroutines.Trace.{ended, run_ends}

run_ends_example : run 10 43 start ≡ ended 9
run_ends_example = run_ends 9
