-- ===== src/Mhysa.antt =====
-- mylloc-assignment/mhysa.c: `malloc` and `free` with a free list that is searched for the first chunk
-- that is large enough, and mylloc.c, which never reuses memory.
-- A pointer is its address, and NULL is 0; what sbrk returns is an argument.
pub mod FirstFit
pub mod Malloc
mod Examples
use id.Base.{
  ℕ, zero, suc, ◌+◌, ◌-◌, ◌%◌, ◌^◌, Bool, true, false, Option, none, some, ◌==◌, ltb, leb,
  if◌then◌else◌,
}
use id.Links.{at}

-- `flist`, and the members of every `struct chunk`; `size` is the bit pattern of an `int`.
pub record Heap : Type 0 where
  pub flist : ℕ
  pub size : ℕ → ℕ
  pub next : ℕ → ℕ

-- `sizeof(struct chunk)`, and `(void*)-1`.
abbrev pub chunk_size : ℕ
chunk_size = 16

abbrev pub sbrk_failed : ℕ
sbrk_failed = 2 ^ 64 - 1

-- The `int` as a `size_t`, as the comparison of `next->size` with `size` reads it.
abbrev pub size_t_of : ℕ → ℕ
size_t_of n = if ltb n (2 ^ 31) then n else n + 2 ^ 64 - 2 ^ 32

unfoldable pub unlink : ℕ → ℕ → Heap → Heap
unlink prev cur h =
    if prev == 0
    then record h { flist = h.next cur }
    else record h { next = at h.next prev (h.next cur) }

-- The loop of `malloc` on fuel: the chunk that it takes, or 0; `none` if the fuel runs out.
unfoldable pub search : ℕ → ℕ → ℕ → ℕ → Heap → Option (ℕ × Heap)
unfolding unlink
search zero cur prev bytes h = none
search (suc k) cur prev bytes h =
    let rest = search k (h.next cur) cur bytes h in
    if cur == 0
    then some (0, h)
    else if leb bytes (size_t_of (h.size cur))
    then some (cur, unlink prev cur h)
    else rest

-- The part of `malloc` behind the loop.
unfoldable pub grow : ℕ → ℕ → Heap → ℕ × Heap
grow bytes memory h =
    if memory == sbrk_failed
    then (0, h)
    else (memory + chunk_size, record h { size = at h.size memory (bytes % 2 ^ 32) })

-- `memory` is what sbrk returns if it is called.
unfoldable pub malloc : ℕ → ℕ → ℕ → Heap → Option (ℕ × Heap)
unfolding search grow
malloc fuel bytes memory h =
    if bytes == 0 then some (0, h) else elim (search fuel h.flist 0 bytes h) [
      | none ↦ none
      | some (cnk, h') ↦ some (if cnk == 0 then grow bytes memory h' else (cnk + chunk_size, h'))
    ]

unfoldable pub free : ℕ → Heap → Heap
free memory h =
    if memory == 0
    then h
    else let cnk = memory - chunk_size in record h { next = at h.next cnk h.flist; flist = cnk }

-- `malloc` of mylloc.c; its `free` does nothing.
unfoldable pub mylloc : ℕ → ℕ → ℕ
mylloc bytes memory = if bytes == 0 then 0 else if memory == sbrk_failed then 0 else memory
