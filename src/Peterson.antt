-- ===== src/Peterson.antt =====
-- locks-assignment/peterson.c: two threads that increment a shared counter under Peterson's lock.
-- Each shared access is one atomic step, in program order (sequential consistency).
mod Invariant
pub mod Safety
pub mod Progress
mod Examples
use id.Base.{ℕ, ◌+◌, Bool, true, false, List, [], ◌∷◌, ◌==◌, ltb, if◌then◌else◌}
use id.Threads.{Thread, first, other, same, put}

-- The globals.
pub record Shared : Type 0 where
  pub count : ℕ  -- an `int`, while it is below 2 ^ 31
  pub request : Thread → ℕ
  pub turn : Thread

-- Where a thread stands in `increment`, with its live locals; `i` is the loop's counter.
pub data Pc : Type 0 where
  head : (i : ℕ) → Pc  -- the test `i < inc`
  want : (i : ℕ) → Pc  -- in `lock`, before `request[id] = 1`
  give : (i : ℕ) → Pc  -- before `turn = other`
  test_request : (i : ℕ) → Pc  -- before the read of `request[other]`
  test_turn : (i : ℕ) → Pc  -- before the read of `turn`
  load : (i : ℕ) → Pc  -- before the read of `count`
  store : (i c : ℕ) → Pc  -- before the write of `c + 1` to `count`
  leave : (i : ℕ) → Pc  -- in `unlock`, before `request[id] = 0`
  done : Pc

-- One step of the thread `t` at `pc`, for a loop of `inc` rounds.
unfoldable pub step : ℕ → Thread → Shared → Pc → Shared × Pc
step inc t m (head i) = if ltb i inc then (m, want i) else (m, done)
step inc t m (want i) = (record m { request = put m.request t 1 }, give i)
step inc t m (give i) = (record m { turn = other t }, test_request i)
step inc t m (test_request i) = if m.request (other t) == 1 then (m, test_turn i) else (m, load i)
step inc t m (test_turn i) = if same m.turn (other t) then (m, test_request i) else (m, load i)
step inc t m (load i) = (m, store i m.count)
step inc t m (store i c) = (record m { count = c + 1 }, leave i)
step inc t m (leave i) = (record m { request = put m.request t 0 }, head (i + 1))
step inc t m done = (m, done)

pub record System : Type 0 where
  pub mem : Shared
  pub pc : Thread → Pc

abbrev pub move : ℕ → System → Thread → System
move inc s t = let (m, p) = step inc t s.mem (s.pc t) in record { mem = m; pc = put s.pc t p }

-- `main` has created both threads.
abbrev pub start : System
start = record { mem = record { count = 0; request = λ _. 0; turn = first }; pc = λ _. head 0 }

-- The scheduler picks the thread that moves: every interleaving is a list of picks.
unfoldable pub run : ℕ → System → List Thread → System
run inc s [] = s
run inc s (t ∷ ts) = run inc (move inc s t) ts

-- Between the return of `lock` and the write of `unlock`.
abbrev pub critical : Pc → Bool
critical (load _) = true
critical (store _ _) = true
critical (leave _) = true
critical _ = false
