-- ===== src/Peterson/Examples.antt =====
-- The theorems on locks-assignment/peterson.c at interleavings of two threads that do one round.
use id.Base.{◌<◌, ◌^◌, arith, ◌+◌, ◌≡◌, refl, false, true, List, ◌++◌, ◌&&◌}
use id.Threads.{Thread, first, second}
use id.Peterson.{step, start, run, critical}
use id.Peterson.Safety.{mutual_exclusion, count-done}
use id.Peterson.Progress.{solo, no_overtaking}

-- Both threads have written `request` and `turn`; the second one wrote `turn` last.
abbrev contended : List Thread
contended = solo 3 first ++ solo 3 second

-- Both threads run to their end, the second one spinning meanwhile.
abbrev complete : List Thread
complete = contended ++ solo 2 first ++ solo 4 second ++ solo 9 first ++ solo 9 second

mutual_exclusion_example :
    (critical ((run 1 start contended).pc first) && critical ((run 1 start contended).pc second))
    ≡ false
mutual_exclusion_example = mutual_exclusion 1 contended

count-done_example :
    ((us : List Thread) → (run 1 start us).mem.count < 2 ^ 31)
    × ((run 1 start complete).mem.count ≡ 1 + 1)
unfolding run step
count-done_example = count-done 1 complete (omega arith) refl refl

no_overtaking_example : critical ((run 1 (run 1 start contended) (solo 7 second)).pc second) ≡ false
unfolding run step
no_overtaking_example = no_overtaking 1 contended 7 first refl refl refl

-- Without contention a thread enters after four moves.
alone : critical ((run 1 start (solo 4 second)).pc second) ≡ true
unfolding run step
alone = refl
