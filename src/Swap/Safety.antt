-- ===== src/Swap/Safety.antt =====
-- What the spin lock guarantees in locks-assignment/swap.c.
use id.Base.{ℕ, ◌+◌, ◌≤◌, ◌<◌, ◌^◌, ◌≡◌, false, List, ◌&&◌, ◌||◌, arith, ◌==◌}
use id.Threads.{Thread, first, second}
use id.Swap.{Pc, done, start, run, critical}
use id.Swap.Invariant.{stored, InRange, reach-Inv}

-- Whatever the interleaving and the number of rounds, the two threads are never both between the
-- return of `lock` and the write of `unlock`, and the mutex is 1 exactly when one of them is there.
pub owner_alone :
    (inc : ℕ) (ts : List Thread)
    → ((critical ((run inc start ts).pc first) && critical ((run inc start ts).pc second)) ≡ false)
      × (((run inc start ts).mem.global == 1)
          ≡ (critical ((run inc start ts).pc first) || critical ((run inc start ts).pc second)))
owner_alone inc ts = ground (arith, reach-Inv inc ts)

stored-le : (inc : ℕ) (p : Pc) → InRange inc p → stored inc p ≤ inc
stored-le inc (Pc.head i) h = omega arith
stored-le inc p h = omega arith

count-le : (inc : ℕ) (ts : List Thread) → (run inc start ts).mem.count ≤ inc + inc
count-le inc ts =
    let inv = reach-Inv inc ts in
    omega (arith, inv.counted, stored-le inc _ inv.ranged, stored-le inc _ inv.ranged_other)

-- No increment is lost. If an `int` holds twice the number of rounds `inc`, then after every interleaving
-- `count` is below 2 ^ 31, so that it does not overflow, and when an interleaving has brought both
-- threads to their end, it is twice the number of rounds, and the mutex is free.
pub count_at_end :
    (inc : ℕ) (ts : List Thread)
    → inc + inc < 2 ^ 31
    → (run inc start ts).pc first ≡ done
    → (run inc start ts).pc second ≡ done
    → ((us : List Thread) → (run inc start us).mem.count < 2 ^ 31)
      × ((run inc start ts).mem.count ≡ inc + inc)
      × ((run inc start ts).mem.global ≡ 0)
count_at_end inc ts lt p q =
    let inv = reach-Inv inc ts in
    (λ us. omega (arith, count-le inc us, lt), ground (arith, inv), ground (arith, inv))
