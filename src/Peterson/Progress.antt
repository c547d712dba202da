-- ===== src/Peterson/Progress.antt =====
-- Waiting for Peterson's lock in locks-assignment/peterson.c: how often the other thread may go first.
use id.Base.{ℕ, zero, suc, ◌≡◌, Bool, true, false, List, [], ◌∷◌, arith}
use id.Threads.{Thread, first, second, other}
use id.Peterson.{Pc, test_request, test_turn, step, System, move, start, run, critical}
use id.Peterson.Invariant.{Inv, reach-Inv, move-Inv}

-- Inside the loop `while(request[other] == 1 && turn == other)`.
abbrev pub waits : Pc → Bool
waits (test_request _) = true
waits (test_turn _) = true
waits _ = false

-- `n` moves of one thread in a row.
abbrev pub solo : ℕ → Thread → List Thread
solo zero t = []
solo (suc n) t = t ∷ solo n t

record Ahead (s : System) (t : Thread) : Type 0 where
  waiting : waits (s.pc t) ≡ true
  turned : s.mem.turn ≡ t
  outside : critical (s.pc (other t)) ≡ false

move-Ahead :
    (inc : ℕ) (s : System) (t : Thread) → Inv inc s → Ahead s t → Ahead (move inc s (other t)) t
unfolding step
move-Ahead inc s first inv h = ground arith
move-Ahead inc s second inv h = ground arith

solo-Ahead :
    (inc : ℕ) (n : ℕ) (s : System) (t : Thread)
    → Inv inc s
    → Ahead s t
    → Ahead (run inc s (solo n (other t))) t
unfolding run
solo-Ahead inc zero s t inv h = h
solo-Ahead inc (suc n) s t inv h =
    solo-Ahead inc n (move inc s (other t)) t (move-Inv inc s (other t) inv)
      (move-Ahead inc s t inv h)

-- A thread that waits while `turn` names it is not overtaken: the other one, if it is outside, is
-- still outside after any number of its own moves.
pub no_overtaking :
    (inc : ℕ) (ts : List Thread) (n : ℕ) (t : Thread)
    → waits ((run inc start ts).pc t) ≡ true
    → (run inc start ts).mem.turn ≡ t
    → critical ((run inc start ts).pc (other t)) ≡ false
    → critical ((run inc (run inc start ts) (solo n (other t))).pc (other t)) ≡ false
no_overtaking inc ts n t w e o =
    (solo-Ahead inc n (run inc start ts) t (reach-Inv inc ts)
      (record { waiting = w; turned = e; outside = o })).outside
