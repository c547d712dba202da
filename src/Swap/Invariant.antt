-- ===== src/Swap/Invariant.antt =====
-- What holds between any two steps of locks-assignment/swap.c.
use id.Base.{ℕ, ◌+◌, ◌≤◌, ◌≡◌, List, [], ◌∷◌, arith, if◌then◌else◌}
use id.Threads.{Thread, first, second}
use id.Swap.{
  Shared, Pc, head, spin, load, store, leave, done, step, System, move, start, run, critical,
}

-- The increments that the thread has stored.
abbrev pub stored : ℕ → Pc → ℕ
stored inc (head i) = i
stored inc (spin i) = i
stored inc (load i) = i
stored inc (store i c) = i
stored inc (leave i) = i + 1
stored inc done = inc

abbrev pub InRange : ℕ → Pc → Type 0
InRange inc (head i) = i ≤ inc
InRange inc (spin i) = i + 1 ≤ inc
InRange inc (load i) = i + 1 ≤ inc
InRange inc (store i _) = i + 1 ≤ inc
InRange inc (leave i) = i + 1 ≤ inc
InRange inc done = Unit

abbrev pub IsFresh : ℕ → Pc → Type 0
IsFresh count (store _ c) = c ≡ count
IsFresh count _ = Unit

abbrev pub owns : Pc → ℕ
owns p = if critical p then 1 else 0

-- Two threads at `p` and `q` over the memory `m`.
pub record Own (inc : ℕ) (m : Shared) (p q : Pc) : Type 0 where
  pub owned : m.global ≡ owns p + owns q
  pub single : owns p + owns q ≤ 1
  pub fresh : IsFresh m.count p
  pub fresh_other : IsFresh m.count q
  pub ranged : InRange inc p
  pub ranged_other : InRange inc q
  pub counted : m.count ≡ stored inc p + stored inc q

abbrev pub Inv : ℕ → System → Type 0
Inv inc s = Own inc s.mem (s.pc first) (s.pc second)

step-Own :
    (inc : ℕ) (m : Shared) (p q : Pc) → Own inc m p q → let r = step inc m p in Own inc r.0 r.1 q
unfolding step
step-Own inc m (head i) q o = ground arith
step-Own inc m p q o = ground arith

Own-swap : (inc : ℕ) (m : Shared) (p q : Pc) → Own inc m p q → Own inc m q p
Own-swap inc m p q o = record {
  owned = omega (arith, o.owned);
  single = omega (arith, o.single);
  fresh = o.fresh_other;
  fresh_other = o.fresh;
  ranged = o.ranged_other;
  ranged_other = o.ranged;
  counted = omega (arith, o.counted);
}

move-Inv : (inc : ℕ) (s : System) (t : Thread) → Inv inc s → Inv inc (move inc s t)
move-Inv inc s first inv = step-Own inc s.mem (s.pc first) (s.pc second) inv
move-Inv inc s second inv =
    Own-swap inc _ _ _ (step-Own inc s.mem (s.pc second) (s.pc first) (Own-swap inc _ _ _ inv))

run-Inv : (inc : ℕ) (s : System) (ts : List Thread) → Inv inc s → Inv inc (run inc s ts)
unfolding run
run-Inv inc s [] inv = inv
run-Inv inc s (t ∷ ts) inv = run-Inv inc (move inc s t) ts (move-Inv inc s t inv)

-- The invariant holds after every interleaving of the two threads.
pub reach-Inv : (inc : ℕ) (ts : List Thread) → Inv inc (run inc start ts)
reach-Inv inc ts = run-Inv inc start ts (ground arith)
