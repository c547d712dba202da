-- ===== src/Peterson/Safety.antt =====
-- What Peterson's lock guarantees in locks-assignment/peterson.c.
use id.Base.{ℕ, ◌+◌, ◌≤◌, ◌<◌, ◌^◌, ◌≡◌, false, List, ◌&&◌, arith}
use id.Threads.{Thread, first, second}
use id.Peterson.{Pc, done, start, run, critical}
use id.Peterson.Invariant.{stored, InRange, reach-Inv}

-- Whatever the interleaving and the number of rounds, the two threads are never both between the
-- return of `lock` and the write of `unlock`.
pub mutual_exclusion :
    (inc : ℕ) (ts : List Thread)
    → (critical ((run inc start ts).pc first) && critical ((run inc start ts).pc second)) ≡ false
mutual_exclusion inc ts = ground (arith, reach-Inv inc ts)

stored-le : (inc : ℕ) (p : Pc) → InRange inc p → stored inc p ≤ inc
stored-le inc (Pc.head i) h = omega arith
stored-le inc p h = omega arith

count-le : (inc : ℕ) (ts : List Thread) → (run inc start ts).mem.count ≤ inc + inc
count-le inc ts =
    let inv = reach-Inv inc ts in
    omega (arith, inv.counted, stored-le inc _ inv.one.ranged, stored-le inc _ inv.two.ranged)

-- No increment is lost. If an `int` holds twice the number of rounds `inc`, then after every interleaving
-- `count` is below 2 ^ 31, so that it does not overflow, and when an interleaving has brought both
-- threads to their end, it is twice the number of rounds.
pub count-done :
    (inc : ℕ) (ts : List Thread)
    → inc + inc < 2 ^ 31
    → (run inc start ts).pc first ≡ done
    → (run inc start ts).pc second ≡ done
    → ((us : List Thread) → (run inc start us).mem.count < 2 ^ 31)
      × ((run inc start ts).mem.count ≡ inc + inc)
count-done inc ts lt p q =
    (λ us. omega (arith, count-le inc us, lt), ground (arith, reach-Inv inc ts))
