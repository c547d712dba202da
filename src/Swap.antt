-- ===== src/Swap.antt =====
-- locks-assignment/swap.c: two threads that increment a shared counter under a spin lock, which is
-- taken by an atomic compare-and-swap. Each shared access is one atomic step, in program order.
mod Invariant
pub mod Safety
mod Examples
use id.Base.{ℕ, ◌+◌, Bool, true, false, List, [], ◌∷◌, ◌==◌, ltb, if◌then◌else◌}
use id.Threads.{Thread, put}

pub record Shared : Type 0 where
  pub count : ℕ  -- an `int`, while it is below 2 ^ 31
  pub global : ℕ  -- the mutex

-- `__sync_val_compare_and_swap(mutex, 0, 1)`: the old value, and the memory that it leaves.
unfoldable pub try : Shared → ℕ × Shared
try m = (m.global, if m.global == 0 then record m { global = 1 } else m)

-- Where a thread stands in `increment`, with its live locals; `i` is the loop's counter.
pub data Pc : Type 0 where
  head : (i : ℕ) → Pc  -- the test `i < inc`
  spin : (i : ℕ) → Pc  -- in `lock`, before a call of `try`
  load : (i : ℕ) → Pc  -- before the read of `count`
  store : (i c : ℕ) → Pc  -- before the write of `c + 1` to `count`
  leave : (i : ℕ) → Pc  -- in `unlock`, before `*mutex = 0`
  done : Pc

-- One step of a thread, for a loop of `inc` rounds.
unfoldable pub step : ℕ → Shared → Pc → Shared × Pc
unfolding try
step inc m (head i) = if ltb i inc then (m, spin i) else (m, done)
step inc m (spin i) = let (old, m') = try m in if old == 0 then (m', load i) else (m', spin i)
step inc m (load i) = (m, store i m.count)
step inc m (store i c) = (record m { count = c + 1 }, leave i)
step inc m (leave i) = (record m { global = 0 }, head (i + 1))
step inc m done = (m, done)

pub record System : Type 0 where
  pub mem : Shared
  pub pc : Thread → Pc

abbrev pub move : ℕ → System → Thread → System
move inc s t = let (m, p) = step inc s.mem (s.pc t) in record { mem = m; pc = put s.pc t p }

-- `main` has created both threads, with the address of `global` as their mutex.
abbrev pub start : System
start = record { mem = record { count = 0; global = 0 }; pc = λ _. head 0 }

-- The scheduler picks the thread that moves: every interleaving is a list of picks.
unfoldable pub run : ℕ → System → List Thread → System
run inc s [] = s
run inc s (t ∷ ts) = run inc (move inc s t) ts

-- Between the return of `lock` and the write of `unlock`.
abbrev pub critical : Pc → Bool
critical (load _) = true
critical (store _ _) = true
critical (leave _) = true
critical _ = false
