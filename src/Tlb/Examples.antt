-- ===== src/Tlb/Examples.antt =====
-- The theorems on tlb-assignment/tlb.c at concrete inputs.
use id.Base.{◌+◌, ◌*◌, ◌/◌, ◌≤◌, ◌<◌, ◌≡◌, arith}
use id.Tlb.{refs, row}
use id.Tlb.Sum.{row_lem}

row_lem_example : (row 100 ≡ refs / 100 * 100) × (row 100 ≤ refs) × (refs < row 100 + 100)
row_lem_example = row_lem 100 (omega arith)
