-- ===== src/Dlmalloc.antt =====
-- seminar2/dlmalloc.c: an allocator over one arena of 64 KB, with boundary tags and a doubly linked
-- free list, compiled with TAKENSTRUCT (a header of 8 bytes; the links lie in the payload).
-- Memory is an array of bytes, so a link that does not fit in a payload runs over the next header.
-- A pointer is its address, and NULL is 0.
pub mod Memory
pub mod Sizes
pub mod Blocks
pub mod FreeList
pub mod Detach
pub mod Insert
mod Fields
pub mod State
pub mod Free
mod Writes
pub mod Cut
pub mod Allocate
pub mod Init
pub mod Request
pub mod Overrun
pub mod Views
pub mod Inspect
pub mod Payload
mod Examples
use id.Base.{
  ℕ, zero, suc, ◌+◌, ◌-◌, ◌*◌, ◌%◌, ◌^◌, Bool, true, false, Option, none, some, List, [], ◌∷◌, ◌==◌,
  ltb, leb, ◌&&◌, not, if◌then◌else◌,
}
use Memory.{Mem, load, store}

-- The members of `struct head`; `struct taken` has the first four.
pub data Field : Type 0 where
  bfree bsize free size next prev : Field

abbrev pub offset : Field → ℕ
offset bfree = 0
offset bsize = 2
offset free = 4
offset size = 6
offset next = 8
offset prev = 16

abbrev pub width : Field → ℕ
width next = 8
width prev = 8
width _ = 2

-- `block->field`, and `block->field = v`.
unfoldable pub get : Field → ℕ → Mem → ℕ
get f b m = load (width f) (b + offset f) m

unfoldable pub set : Field → ℕ → ℕ → Mem → Mem
set f b v m = store (width f) (b + offset f) v m

-- `sizeof(struct taken)`, ALIGN, ARENA and MAP_FAILED.
abbrev pub head_size : ℕ
head_size = 8

abbrev pub align : ℕ
align = 8

abbrev pub arena_size : ℕ
arena_size = 64 * 1024

abbrev pub map_failed : ℕ
map_failed = 2 ^ 64 - 1

-- MIN, for a `size_t`.
abbrev pub min_size : ℕ → ℕ
min_size n = if ltb 16 n then n else 16

-- LIMIT, for a `size_t`.
abbrev pub limit : ℕ → ℕ
limit n = (min_size 0 + head_size + n) % 2 ^ 64

-- An `int` is its bit pattern: conversion from `size_t`, and to `size_t`.
abbrev pub int_of : ℕ → ℕ
int_of n = n % 2 ^ 32

abbrev pub size_t_of : ℕ → ℕ
size_t_of n = if ltb n (2 ^ 31) then n else n + 2 ^ 64 - 2 ^ 32

-- `n % 8` of an `int`, which has the sign of `n`.
abbrev pub int_rem : ℕ → ℕ
int_rem n = if ltb n (2 ^ 31) then n % align else (2 ^ 32 - (2 ^ 32 - n) % align) % 2 ^ 32

-- The globals, and the memory.
pub record Heap : Type 0 where
  pub mem : Mem
  pub arena : ℕ
  pub flist : ℕ

unfoldable pub after : ℕ → Mem → ℕ
after block m = block + get size block m + head_size

unfoldable pub before : ℕ → Mem → ℕ
before block m = block - get bsize block m - head_size

-- `n` is an `int`; the remaining size is computed as a `size_t` and kept as an `int`.
unfoldable pub split : ℕ → ℕ → Mem → ℕ × Mem
split block n m =
    let rsize = int_of (get size block m + 2 ^ 64 - size_t_of n + 2 ^ 64 - head_size) in
    let m1 = set size block rsize m in
    let splt = after block m1 in
    let m2 = set bfree splt (get free block m1) m1 in
    let m3 = set bsize splt (get size block m2) m2 in
    let m4 = set free splt 0 m3 in
    let m5 = set size splt n m4 in (splt, set bsize (after splt m5) (get size splt m5) m5)

-- `mapped` is what mmap returns.
unfoldable pub new : ℕ → Heap → ℕ × Heap
new mapped h =
    if not (h.arena == 0)
    then (0, h)
    else if mapped == map_failed
    then (0, h)
    else let n : ℕ = arena_size - 2 * head_size in
      let m1 =
        set size mapped n (set free mapped 1 (set bsize mapped 0 (set bfree mapped 0 h.mem))) in
      let sentinel = after mapped m1 in
      let m2 = set bfree sentinel (get free mapped m1) m1 in
      (
        mapped,
        record h {
          mem = set size sentinel 0 (set free sentinel 0 (set bsize sentinel n m2));
          arena = mapped;
        },
      )

unfoldable pub detach : ℕ → Heap → Heap
detach block h =
    let n = get next block h.mem in
    let m = if n == 0 then h.mem else set prev n (get prev block h.mem) h.mem in
    let p = get prev block m in
    if p == 0
    then record h { mem = m; flist = get next block m }
    else record h { mem = set next p (get next block m) m }

unfoldable pub insert : ℕ → Heap → Heap
insert block h =
    let m = set prev block 0 (set next block h.flist h.mem) in
    record h { mem = if h.flist == 0 then m else set prev h.flist block m; flist = block }

-- From a `size_t` to an `int`.
unfoldable pub adjust : ℕ → ℕ
adjust n =
    let minsize = int_of (min_size n) in
    if int_rem minsize == 0 then int_of n else int_of (minsize + align + 2 ^ 32 - int_rem minsize)

-- What `find` does with a detached block that is split, and with one that is taken whole.
unfoldable pub carve : ℕ → ℕ → Heap → ℕ × Heap
carve temp n h =
    let (block, m) = split temp (int_of n) h.mem in
    let h' = insert temp (record h { mem = m }) in
    (block, record h' { mem = set free block 0 (set bfree (after block h'.mem) 0 h'.mem) })

unfoldable pub claim : ℕ → Heap → ℕ × Heap
claim temp h =
    let m = set free temp 0 h.mem in (temp, record h { mem = set bfree (after temp m) 0 m })

-- What `find` does with a block that is large enough.
unfoldable pub take : ℕ → ℕ → Heap → ℕ × Heap
take temp n h =
    let d = detach temp h in
    if leb (limit n) (get size temp d.mem) then carve temp n d else claim temp d

-- The loop of `find` on fuel; `none` if that runs out before the list ends.
unfoldable pub find_from : ℕ → ℕ → ℕ → Heap → Option (ℕ × Heap)
find_from zero temp n h = none
find_from (suc k) temp n h =
    let rest = find_from k (get next temp h.mem) n h in
    if temp == 0
    then some (0, h)
    else if leb n (get size temp h.mem)
    then some (take temp n h)
    else rest

unfoldable pub find : ℕ → ℕ → Heap → Option (ℕ × Heap)
unfolding find_from
find fuel n h = find_from fuel h.flist n h

-- The two parts of `merge`: `aft` is the block behind the one that is freed.
unfoldable pub merge_before : ℕ → ℕ → Heap → ℕ × Heap
merge_before block aft h =
    let bef = before block h.mem in
    let d = detach bef h in
    let m = set size bef (get size bef d.mem + get size block d.mem + head_size) d.mem in
    (bef, record d { mem = set bsize aft (get size bef m) m })

unfoldable pub merge_after : ℕ → ℕ → Heap → ℕ × Heap
merge_after block aft h =
    let d = detach aft h in
    let m = set size block (get size block d.mem + get size aft d.mem + head_size) d.mem in
    (block, record d { mem = set bsize (after block m) (get size block m) m })

unfoldable pub merge : ℕ → Heap → ℕ × Heap
merge block h =
    let aft = after block h.mem in
    let (b, h') = if get bfree block h.mem == 1 then merge_before block aft h else (block, h) in
    if get free aft h'.mem == 1 then merge_after b aft h' else (b, h')

-- `none` if the traversal of the free list does not end within the fuel.
unfoldable pub dalloc : ℕ → ℕ → Heap → Option (ℕ × Heap)
dalloc fuel requested h =
    if requested == 0 then some (0, h) else elim (find fuel (size_t_of (adjust requested)) h) [
      | none ↦ none
      | some (taken, h') ↦ some (if taken == 0 then 0 else taken + head_size, h')
    ]

unfoldable pub dfree : ℕ → Heap → Heap
dfree memory h =
    if memory == 0
    then h
    else let block = memory - head_size in
      let aft = after block h.mem in
      let m = set free block 1 h.mem in
      insert block (record h { mem = set bfree aft (get free block m) m })

unfoldable pub init : ℕ → Heap → Heap
init mapped h = let (first, h') = new mapped h in insert first h'
