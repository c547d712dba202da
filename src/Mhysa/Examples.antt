-- ===== src/Mhysa/Examples.antt =====
-- The theorems on mylloc-assignment/mhysa.c at a concrete heap.
use id.Base.{◌≡◌, some, [], ◌∷◌, arith, refl}
use id.Links.{at, Queue, Absent, Distinct}
use id.Mhysa.{Heap, malloc, free}
use id.Mhysa.Malloc.{Allocates, malloc_first_fit, malloc-free}

-- Chunks of 8, 64 and 32 bytes at 100, 200 and 300.
abbrev three : Heap
three = record {
  flist = 100;
  size = at (at (at (λ _. 0) 100 8) 200 64) 300 32;
  next = at (at (λ _. 0) 100 200) 200 300;
}

malloc_first_fit_example : Allocates 4 20 5000 200 (100 ∷ 300 ∷ []) three
unfolding Queue Absent Distinct
malloc_first_fit_example =
    malloc_first_fit 4 20 5000 (100 ∷ 200 ∷ 300 ∷ []) three (omega arith) (omega arith)
      ((omega arith, (omega arith, tt)), ((omega arith, tt), (tt, tt)))
      (refl, omega arith, (refl, omega arith, (refl, omega arith, refl)))

-- A chunk of 128 bytes at 400 that is in use.
abbrev chunks : Heap
chunks = record three { size = at three.size 400 128 }

malloc-free_example :
    (h' : Heap) × (malloc 1 20 5000 (free 416 chunks) ≡ some (416, h'))
    × Queue (100 ∷ 200 ∷ 300 ∷ []) h'.flist h'.next
    × (h'.size ≡ chunks.size)
unfolding Queue Absent
malloc-free_example =
    malloc-free 1 20 5000 416 (100 ∷ 200 ∷ 300 ∷ []) chunks (omega arith) (omega arith)
      (omega arith) (refl, omega arith, (refl, omega arith, (refl, omega arith, refl)))
      (omega arith, (omega arith, (omega arith, tt))) (omega arith)
