-- ===== src/Swap/Examples.antt =====
-- The theorems on locks-assignment/swap.c at interleavings of two threads that do one round.
use id.Base.{arith, ◌<◌, ◌^◌, ◌+◌, ◌≡◌, refl, false, List, [], ◌∷◌, ◌&&◌, ◌||◌, ◌==◌}
use id.Threads.{Thread, first, second}
use id.Swap.{step, start, run, critical}
use id.Swap.Safety.{owner_alone, count_at_end}

-- The second thread spins while the first one owns the lock.
abbrev contended : List Thread
contended = first ∷ second ∷ first ∷ second ∷ second ∷ []

-- The threads take turns until both have finished.
abbrev complete : List Thread
complete =
    first ∷ first ∷ second ∷ second ∷ first ∷ second ∷ first ∷ first ∷ second ∷ first ∷ second
    ∷ second ∷ second ∷ second ∷ []

owner_alone_example :
    ((critical ((run 1 start contended).pc first) && critical ((run 1 start contended).pc second))
      ≡ false)
    × (((run 1 start contended).mem.global == 1) ≡ (
        critical ((run 1 start contended).pc first)
        || critical ((run 1 start contended).pc second)))
owner_alone_example = owner_alone 1 contended

count_at_end_example :
    ((us : List Thread) → (run 1 start us).mem.count < 2 ^ 31)
    × ((run 1 start complete).mem.count ≡ 1 + 1)
    × ((run 1 start complete).mem.global ≡ 0)
unfolding run step
count_at_end_example = count_at_end 1 complete (omega arith) refl refl
