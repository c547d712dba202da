-- ===== src/Bench.antt =====
-- mylloc-assignment/bench.c and seminar2/bench.c: a benchmark that fills and empties a buffer of blocks
-- at random. The allocator is a parameter, and so are the results of `rand` and `request`.
pub mod Balance
pub mod Arena
pub mod Ownership
pub mod Client
pub mod Taken
mod Examples
use id.Base.{ℕ, zero, suc, ◌+◌, ◌%◌, Bool, true, false, List, [], ◌∷◌, ◌==◌, if◌then◌else◌}
use id.Links.{at}

-- What the benchmark uses of an allocator with the state `S`: `malloc` and `free`, or `dalloc` and
-- `dfree`, and the write of an `int` through a pointer, `*memory = 123`.
pub record Allocator (S : Type 0) : Type 0 where
  pub malloc : ℕ → S → ℕ × S
  pub free : ℕ → S → S
  pub write : ℕ → S → S

-- BUFFER.
abbrev pub buffer_size : ℕ
buffer_size = 100

pub data Call : Type 0 where
  allocated : (memory : ℕ) → Call
  released : (memory : ℕ) → Call

-- The buffer, the state of the allocator, the successful calls, the latest first, and whether
-- a `malloc` has failed.
pub record Run (S : Type 0) : Type 0 where
  pub buffer : ℕ → ℕ
  pub heap : S
  pub calls : List Call
  pub failed : Bool

module _ {S : Type 0} (a : Allocator S) where
  -- The two branches of the inner loop. After a failed call the one program returns 1, and the other
  -- writes through NULL.
  abbrev pub release : ℕ → Run S → Run S
  release index r = record r {
    buffer = at r.buffer index 0;
    heap = a.free (r.buffer index) r.heap;
    calls = Call.released (r.buffer index) ∷ r.calls;
  }

  abbrev pub obtain : ℕ → ℕ → Run S → Run S
  obtain index bytes r =
      let (memory, h) = a.malloc bytes r.heap in
      if memory == 0 then record r { heap = h; failed = true } else record r {
        buffer = at r.buffer index memory;
        heap = a.write memory h;
        calls = Call.allocated memory ∷ r.calls;
      }

  -- One round, for a result of `rand` and one of `request`.
  unfoldable pub round : ℕ → ℕ → Run S → Run S
  round rnd bytes r =
      let index = rnd % buffer_size in
      if r.failed then r else if r.buffer index == 0 then obtain index bytes r else release index r

  unfoldable pub bench : List (ℕ × ℕ) → Run S → Run S
  unfolding round
  bench [] r = r
  bench ((rnd, bytes) ∷ ops) r = bench ops (round rnd bytes r)

-- The buffer is emptied before it is used.
abbrev pub empty : {S : Type 0} → S → Run S
empty h = record { buffer = λ _. 0; heap = h; calls = []; failed = false }
