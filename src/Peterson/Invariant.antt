-- ===== src/Peterson/Invariant.antt =====
-- What holds between any two steps of peterson.c.
use id.Base.{ℕ, ◌+◌, ◌≤◌, ◌≡◌, Bool, true, false, List, [], ◌∷◌, arith}
use id.Threads.{Thread, first, second, other}
use id.Peterson.{
  Shared, Pc, head, want, give, test_request, test_turn, load, store, leave, done, step, System,
  move, start, run, critical,
}

-- `request[id]` while the thread stands there.
abbrev pub flag : Pc → ℕ
flag (head _) = 0
flag (want _) = 0
flag done = 0
flag _ = 1

-- Past the write of `turn`, until `unlock` has returned.
abbrev pub asks : Pc → Bool
asks (head _) = false
asks (want _) = false
asks (give _) = false
asks done = false
asks _ = true

-- The increments that the thread has stored.
abbrev pub stored : ℕ → Pc → ℕ
stored inc (head i) = i
stored inc (want i) = i
stored inc (give i) = i
stored inc (test_request i) = i
stored inc (test_turn i) = i
stored inc (load i) = i
stored inc (store i c) = i
stored inc (leave i) = i + 1
stored inc done = inc

abbrev pub InRange : ℕ → Pc → Type 0
InRange inc (head i) = i ≤ inc
InRange inc done = Unit
InRange inc (want i) = i + 1 ≤ inc
InRange inc (give i) = i + 1 ≤ inc
InRange inc (test_request i) = i + 1 ≤ inc
InRange inc (test_turn i) = i + 1 ≤ inc
InRange inc (load i) = i + 1 ≤ inc
InRange inc (store i _) = i + 1 ≤ inc
InRange inc (leave i) = i + 1 ≤ inc

abbrev pub IsFresh : ℕ → Pc → Type 0
IsFresh count (store _ c) = c ≡ count
IsFresh count _ = Unit

-- What holds of thread `t`, at `p`, while the other one is at `q`.
pub record Own (inc : ℕ) (m : Shared) (t : Thread) (p q : Pc) : Type 0 where
  pub flagged : m.request t ≡ flag p
  pub turned : critical p ≡ true → asks q ≡ true → m.turn ≡ t
  pub fresh : IsFresh m.count p
  pub ranged : InRange inc p

pub record Inv (inc : ℕ) (s : System) : Type 0 where
  pub one : Own inc s.mem first (s.pc first) (s.pc second)
  pub two : Own inc s.mem second (s.pc second) (s.pc first)
  pub counted : s.mem.count ≡ stored inc (s.pc first) + stored inc (s.pc second)

step-Own :
    (inc : ℕ) (t : Thread) (m : Shared) (p q : Pc)
    → Own inc m t p q
    → Own inc m (other t) q p
    → let r = step inc t m p in
      Own inc r.0 t r.1 q
      × Own inc r.0 (other t) q r.1
      × (r.0.count + stored inc p ≡ m.count + stored inc r.1)
unfolding step
step-Own inc first m (head i) q o o' = ground arith
step-Own inc t m p q o o' = ground arith

pub move-Inv : (inc : ℕ) (s : System) (t : Thread) → Inv inc s → Inv inc (move inc s t)
move-Inv inc s first inv =
    let (a, b, n) = step-Own inc first s.mem (s.pc first) (s.pc second) inv.one inv.two in
    record { one = a; two = b; counted = omega (arith, inv.counted) }
move-Inv inc s second inv =
    let (a, b, n) = step-Own inc second s.mem (s.pc second) (s.pc first) inv.two inv.one in
    record { one = b; two = a; counted = omega (arith, inv.counted) }

run-Inv : (inc : ℕ) (s : System) (ts : List Thread) → Inv inc s → Inv inc (run inc s ts)
unfolding run
run-Inv inc s [] inv = inv
run-Inv inc s (t ∷ ts) inv = run-Inv inc (move inc s t) ts (move-Inv inc s t inv)

start-Inv : (inc : ℕ) → Inv inc start
start-Inv inc = ground arith

-- The invariant holds after every interleaving of the two threads.
pub reach-Inv : (inc : ℕ) (ts : List Thread) → Inv inc (run inc start ts)
reach-Inv inc ts = run-Inv inc start ts (start-Inv inc)
