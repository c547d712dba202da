-- ===== src/Tlb.antt =====
-- tlb-assignment/tlb.c: the loops that `main` times, and the table that it prints.
pub mod Sum
mod Examples
use id.Base.{ℕ, zero, suc, ◌+◌, ◌-◌, ◌*◌, ◌/◌, List, [], ◌∷◌, leb, if◌then◌else◌}

-- PAGES, REFS and PAGESIZE.
abbrev pub pages_max : ℕ
pages_max = 16384

abbrev pub refs : ℕ
refs = 1024 * 1024

abbrev pub page_size : ℕ
page_size = 64 * 64

-- The loop over `p` that forces the pages to be allocated, with `k` rounds left: the offsets in
-- `memory` that it writes.
unfoldable pub touched : ℕ → ℕ → List ℕ
touched zero p = []
touched (suc k) p = p * page_size ∷ touched k (p + 1)

-- The loop over `p`, which counts in `sum`, and the loop over `l`.
unfoldable pub inner : ℕ → ℕ → ℕ
inner zero sum = sum
inner (suc p) sum = inner p (sum + 1)

unfoldable pub outer : ℕ → ℕ → ℕ → ℕ
unfolding inner
outer zero pages sum = sum
outer (suc l) pages sum = outer l pages (inner pages sum)

-- The `sum` of one row.
unfoldable pub row : ℕ → ℕ
unfolding outer
row pages = outer (refs / pages) pages 0

-- The rows, `pages` and `sum`, on fuel; the program starts with 4 pages.
unfoldable pub rows : ℕ → ℕ → List (ℕ × ℕ)
unfolding row
rows zero pages = []
rows (suc k) pages =
    let rest = rows k (pages * 2) in if leb pages pages_max then (pages, row pages) ∷ rest else []
