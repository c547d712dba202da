-- ===== src/Dlmalloc/Views.antt =====
-- The functions of seminar2/dlmalloc.c that inspect the arena and the free list.
use id.Base.{ℕ, zero, suc, ◌+◌, ◌%◌, Option, none, some, List, [], ◌∷◌, ◌==◌, not, if◌then◌else◌}
use id.Dlmalloc.{get, bfree, bsize, free, size, next, prev, align, after, Heap}
use id.Dlmalloc.Memory.{Mem}

-- The loops below run on fuel; `none` if that runs out.
pub record Line : Type 0 where
  pub address : ℕ
  pub line_free : ℕ
  pub line_size : ℕ
  pub line_bfree : ℕ
  pub line_bsize : ℕ

abbrev line : ℕ → Mem → Line
line b m = record {
  address = b;
  line_free = get free b m;
  line_size = get size b m;
  line_bfree = get bfree b m;
  line_bsize = get bsize b m;
}

cons_line {ℓ} : {A : Type ℓ} → A → Option (List A) → Option (List A)
cons_line a none = none
cons_line a (some l) = some (a ∷ l)

-- The lines that `traverseblocks` prints.
unfoldable pub traverse_from : ℕ → ℕ → Mem → Option (List Line)
unfolding cons_line
traverse_from zero temp m = none
traverse_from (suc k) temp m =
    let rest = traverse_from k (after temp m) m in
    if get size temp m == 0 then some [] else cons_line (line temp m) rest

unfoldable pub traverseblocks : ℕ → Heap → Option (List Line)
unfolding traverse_from
traverseblocks fuel h = traverse_from fuel h.arena h.mem

-- How `sanity` ends: by its last message, by one of the calls of `exit`, or by the first read
-- through `flist` if that is NULL.
pub data Verdict : Type 0 where
  complete not_free not_aligned incorrect_prev null_read : Verdict

unfoldable pub sanity_from : ℕ → ℕ → ℕ → Mem → Option Verdict
sanity_from zero block back m = none
sanity_from (suc k) block back m =
    let rest = sanity_from k (get next block m) block m in
    if (block == 0)
    then some complete
    else if get size block m == 0
    then some complete
    else if not (get free block m == 1)
    then some not_free
    else if not (get size block m % align == 0)
    then some not_aligned
    else if not (get prev block m == back)
    then some incorrect_prev
    else rest

unfoldable pub sanity : ℕ → Heap → Option Verdict
unfolding sanity_from
sanity fuel h =
    if h.flist == 0 then some null_read else sanity_from fuel h.flist (get prev h.flist h.mem) h.mem

unfoldable pub length_from : ℕ → ℕ → ℕ → Mem → Option ℕ
length_from zero temp i m = none
length_from (suc k) temp i m =
    let rest = length_from k (get next temp m) (i + 1) m in if temp == 0 then some i else rest

unfoldable pub freelistlength : ℕ → Heap → Option ℕ
unfolding length_from
freelistlength fuel h = length_from fuel h.flist 0 h.mem

-- What `sizes` writes to its buffer: at most `max` entries, so that `max` rounds are enough.
unfoldable pub sizes_from : ℕ → ℕ → Mem → List ℕ
sizes_from zero block m = []
sizes_from (suc k) block m =
    let rest = sizes_from k (get next block m) m in
    if block == 0 then [] else get size block m ∷ rest

unfoldable pub sizes : ℕ → Heap → List ℕ
unfolding sizes_from
sizes max h = sizes_from max h.flist h.mem
