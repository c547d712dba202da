-- ===== src/Paging.antt =====
-- swapping-assignment/bench.c and random.c: a simulation of a memory of `frms` frames under random
-- replacement, and the sequence of page references that it is run on.
pub mod Frames
pub mod Sequence
mod Examples
use id.Base.{
  ℕ, zero, suc, ◌+◌, ◌-◌, ◌*◌, ◌%◌, Bool, true, false, Option, none, some, List, [], ◌∷◌, ◌==◌, ltb,
  leb, if◌then◌else◌,
}

-- The page table: the member `present` of every entry.
abbrev pub set_present : ℕ → ℕ → (ℕ → ℕ) → ℕ → ℕ
set_present page v tbl k = if k == page then v else tbl k

unfoldable pub clear_page_table : ℕ → (ℕ → ℕ) → ℕ → ℕ
clear_page_table zero tbl = tbl
clear_page_table (suc i) tbl = set_present i 0 (clear_page_table i tbl)

-- The locals of `simulate`, and the table.
pub record Memory : Type 0 where
  pub hits : ℕ
  pub allocated : ℕ
  pub tbl : ℕ → ℕ

-- One round of the loop of `simulate`. The pointer `evict` is not initialised in the source, and the
-- loop that should select it does not write it: it is the parameter `evict`, an index. If the test
-- of that loop fails once it never ends, which is `none`.
unfoldable pub refer : ℕ → ℕ → ℕ → Memory → Option Memory
refer evict frms next m =
    if m.tbl next == 1
    then some (record m { hits = m.hits + 1 })
    else if ltb m.allocated frms
    then some (record m { allocated = m.allocated + 1; tbl = set_present next 1 m.tbl })
    else if m.tbl evict == 1
    then some (record m { tbl = set_present next 1 (set_present evict 0 m.tbl) })
    else none

unfoldable pub simulate_from : ℕ → ℕ → List ℕ → Memory → Option Memory
unfolding refer
simulate_from evict frms [] m = some m
simulate_from evict frms (next ∷ seq) m = elim (refer evict frms next m) [
  | none ↦ none
  | some m' ↦ simulate_from evict frms seq m'
]

-- `refs` is the length of the sequence; the result is `hits`, with the table.
unfoldable pub simulate : ℕ → ℕ → List ℕ → (ℕ → ℕ) → Option Memory
unfolding simulate_from
simulate evict frms seq tbl =
    simulate_from evict frms seq (record { hits = 0; allocated = 0; tbl = tbl })

-- `main` of bench.c on fuel, for the names that it does not declare: the frames and the hits of each
-- row, from `frames` on. A `simulate` that does not end is the last row.
unfoldable pub experiment : ℕ → ℕ → List ℕ → ℕ → ℕ → ℕ → (ℕ → ℕ) → List (ℕ × Option ℕ)
unfolding simulate clear_page_table
experiment zero evict seq pages incr frames tbl = []
experiment (suc k) evict seq pages incr frames tbl =
    elim (simulate evict frames seq (clear_page_table pages tbl)) [
      | none ↦ if leb frames pages then (frames, none) ∷ [] else []
      | some m ↦
          let rest = experiment k evict seq pages incr (frames + incr) m.tbl in
          if leb frames pages then (frames, some m.hits) ∷ rest else []
    ]

-- `init` of random.c: `rand` gives the results of the calls of rand(), two for each reference, and
-- `high` is the number of frequent pages, which the source computes with floats.
abbrev pub freq : ℕ
freq = 80

unfoldable pub reference : ℕ → ℕ → ℕ → ℕ → ℕ
reference r1 r2 high pages = if ltb (r1 % 100) freq then r2 % high else high + r2 % (pages - high)

unfoldable pub init_from : (ℕ → ℕ) → ℕ → ℕ → ℕ → ℕ → List ℕ
unfolding reference
init_from rand high pages i zero = []
init_from rand high pages i (suc refs) =
    reference (rand (2 * i)) (rand (2 * i + 1)) high pages ∷ init_from rand high pages (i + 1) refs

unfoldable pub init : (ℕ → ℕ) → ℕ → ℕ → ℕ → List ℕ
unfolding init_from
init rand high refs pages = init_from rand high pages 0 refs

-- `main` of random.c: what it prints of the sequence, which is all but the first reference.
abbrev pub shown : List ℕ → List ℕ
shown [] = []
shown (_ ∷ seq) = seq

unfoldable pub print_sequence : (ℕ → ℕ) → ℕ → List ℕ
unfolding init
print_sequence rand high = shown (init rand high 10 100)
