-- ===== src/Dlmalloc/Examples.antt =====
-- The theorems on seminar2/dlmalloc.c at an arena that mmap put at 4096, and runs of the code there.
use mathlib.Core.Option
use id.Base.{ℕ, ◌+◌, ◌%◌, ◌≤◌, ◌<◌, ◌≡◌, ◌⊎◌, inl, inr, refl, some, List, [], ◌∷◌, arith}
use id.Dlmalloc.{
  size, get, set, Heap, head_size, align, after, adjust, init, new, detach, insert, split, carve,
  claim, take, find, dalloc, dfree,
}
use id.Dlmalloc.Views.{traverseblocks, sanity, complete}
use id.Dlmalloc.Memory.{load, store}
use id.Dlmalloc.Sizes.{adjust_rounds_up}
use id.Dlmalloc.Blocks.{Block, mark}
use id.Dlmalloc.FreeList.{IsFreeList, erase}
use id.Dlmalloc.Detach.{detach-erase}
use id.Dlmalloc.Insert.{insert-cons}
use id.Dlmalloc.State.{IsValid}
use id.Dlmalloc.Free.{dfree-IsValid}
use id.Dlmalloc.Cut.{cut}
use id.Dlmalloc.Allocate.Find.{size_at, first_fit, serve, allocate, Serves, find-Serves}
use id.Dlmalloc.Init.{init-IsValid}
use id.Dlmalloc.Request.{Returns, dalloc-Returns, Fresh, Holds, IsApart, dalloc-Fresh}
use id.Dlmalloc.Overrun.{dfree_overrun}
use id.Dlmalloc.Inspect.{lines, traverseblocks-lines, sanity-complete}

abbrev blank : Heap
blank = record { mem = λ _. 0; arena = 0; flist = 0 }

abbrev fresh : Heap
fresh = init 4096 blank

abbrev one_block : List Block
one_block = record { payload = 65520; is_free = 1 } ∷ []

fresh-IsValid : IsValid fresh 4096 one_block (4096 ∷ [])
fresh-IsValid = init-IsValid 4096 blank refl refl (omega arith) (omega arith)

init-IsValid_example : IsValid (init 4096 blank) 4096 one_block (4096 ∷ [])
init-IsValid_example = init-IsValid 4096 blank refl refl (omega arith) (omega arith)

find-Serves_example :
    (r : ℕ × Heap) × (find 2 104 fresh ≡ some r)
    × Serves fresh 4096 (allocate 104 4096 one_block (4096 ∷ [])) r
find-Serves_example =
    find-Serves fresh 4096 104 2 one_block (4096 ∷ []) fresh-IsValid (omega arith) (omega arith)

first_find :
    (r : ℕ × Heap) × (find 2 104 fresh ≡ some r)
    × Serves fresh 4096 (allocate 104 4096 one_block (4096 ∷ [])) r
first_find =
    find-Serves fresh 4096 104 2 one_block (4096 ∷ []) fresh-IsValid (omega arith) (omega arith)

-- The state after a request for 104 bytes.
abbrev used : Heap
used = first_find.0.1

abbrev taken : Block
taken = record { payload = 104; is_free = 0 }

abbrev two_blocks : List Block
two_blocks = record { payload = 65408; is_free = 1 } ∷ taken ∷ []

abbrev free_blocks : List ℕ
free_blocks = 4096 ∷ []

used-IsValid : IsValid used 4096 two_blocks (4096 ∷ [])
unfolding serve first_fit size_at cut erase
used-IsValid = first_find.2.1

dfree-IsValid_example :
    IsValid (dfree (69512 + head_size) used) 4096 (mark 69512 1 4096 two_blocks) (69512 ∷ 4096 ∷ [])
dfree-IsValid_example =
    dfree-IsValid used 4096 69512 taken two_blocks (4096 ∷ []) used-IsValid (inr (inl (refl, refl)))
      refl

dalloc-Returns_example :
    (r : ℕ × Heap) × (dalloc 2 100 used ≡ some r)
    × Returns used 4096 (allocate (adjust 100) 4096 two_blocks (4096 ∷ [])) r
dalloc-Returns_example =
    dalloc-Returns used 4096 100 2 two_blocks (4096 ∷ []) used-IsValid (omega arith) (omega arith)
      (omega arith)

dalloc-Fresh_example :
    (r : ℕ × Heap) × (dalloc 2 100 used ≡ some r)
    × (((r.0 ≡ 0) × (r.1 ≡ used)) ⊎ Fresh 4096 100 ((69512, taken) ∷ []) r)
unfolding Holds IsApart
dalloc-Fresh_example =
    dalloc-Fresh used 4096 100 2 two_blocks (4096 ∷ []) ((69512, taken) ∷ []) used-IsValid
      (omega arith) (omega arith) (omega arith) (inr (inl (refl, refl)), refl, tt, tt)

insert-cons_example : IsFreeList (insert 8192 fresh) (8192 ∷ 4096 ∷ [])
insert-cons_example =
    insert-cons fresh 8192 (4096 ∷ []) (omega arith) (omega arith) fresh-IsValid.list
      ((inr (omega arith), tt), (tt, tt))

detach-erase_example : IsFreeList (detach 4096 fresh) (erase 4096 (4096 ∷ []))
detach-erase_example =
    detach-erase fresh 4096 (4096 ∷ []) fresh-IsValid.list fresh-IsValid.spread refl

adjust_rounds_up_example : (adjust 31 % align ≡ 0) × (31 ≤ adjust 31) × (adjust 31 < 31 + align)
adjust_rounds_up_example = adjust_rounds_up 31 (omega arith) (omega arith)

-- A block of 8 bytes at 256, and an empty free list.
abbrev small_block : Heap
small_block = record { mem = store 2 262 8 (λ _. 0); arena = 0; flist = 0 }

dfree_overrun_example :
    get size (after 256 small_block.mem) (dfree (256 + head_size) small_block).mem ≡ 0
unfolding get load store
dfree_overrun_example =
    dfree_overrun small_block 256 size (omega arith) refl (inl refl) (omega arith)

first_request : Option.map (λ (r : ℕ × Heap). r.0) (dalloc 2 100 fresh) ≡ some 69520
unfolding dalloc find take detach carve claim split insert after adjust init new get set load store
first_request = refl

traverseblocks-lines_example : traverseblocks 2 fresh ≡ some (lines 4096 0 0 one_block)
unfolding init new insert
traverseblocks-lines_example =
    traverseblocks-lines fresh 4096 2 one_block (4096 ∷ []) fresh-IsValid refl (omega arith)

sanity-complete_example : sanity 2 used ≡ some complete
sanity-complete_example =
    sanity-complete used 4096 2 4096 two_blocks [] used-IsValid (omega arith) (omega arith)
