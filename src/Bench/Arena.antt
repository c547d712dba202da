-- ===== src/Bench/Arena.antt =====
-- `bench` of seminar2/bench.c: the benchmark on the allocator of seminar2/dlmalloc.c, with a report on
-- the free list after every round.
use id.Base.{ℕ, Option, none, some, List, [], ◌∷◌, take}
use id.Dlmalloc.{Heap, init, dalloc, dfree}
use id.Dlmalloc.Views.{sizes, freelistlength}
use id.Dlmalloc.Memory.{store}
use id.Bench.{Allocator, Run, round, empty}

-- The fuel is that of the search of the free list; without a heap it has run out.
abbrev pub dl_allocator : ℕ → Allocator (Option Heap)
dl_allocator fuel = record {
  malloc = λ bytes heap. elim heap [
    | none ↦ (0, none)
    | some h ↦ elim (dalloc fuel bytes h) [
      | none ↦ (0, none)
      | some (memory, h') ↦ (memory, some h')
    ]
  ];
  free = λ memory heap. elim heap [ none ↦ none | some h ↦ some (dfree memory h) ];
  write = λ memory heap. elim heap [
    | none ↦ none
    | some h ↦ some (record h { mem = store 4 memory 123 h.mem })
  ];
}

-- SIZES.
abbrev pub frequency_size : ℕ
frequency_size = 1000

-- The lines written to the file, for at most SIZES free blocks; `sort` is what qsort does.
abbrev pub report : (List ℕ → List ℕ) → ℕ → Option Heap → Option (List ℕ)
report sort fuel none = none
report sort fuel (some h) = elim (freelistlength fuel h) [
  | none ↦ none
  | some n ↦ some (sort (take n (sizes frequency_size h)))
]

-- The reports of all rounds, in order.
unfoldable pub rounds :
    (List ℕ → List ℕ) → ℕ → List (ℕ × ℕ) → Run (Option Heap) → List (Option (List ℕ))
rounds sort fuel [] r = []
rounds sort fuel ((rnd, bytes) ∷ ops) r =
    let r' = round (dl_allocator fuel) rnd bytes r in
    report sort fuel r'.heap ∷ rounds sort fuel ops r'

unfoldable pub arena_bench :
    (List ℕ → List ℕ) → ℕ → ℕ → List (ℕ × ℕ) → Heap → List (Option (List ℕ))
unfolding rounds
arena_bench sort fuel mapped ops h = rounds sort fuel ops (empty (some (init mapped h)))
