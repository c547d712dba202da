-- ===== src/Signals/Examples.antt =====
-- The run of signals-assignment/test1.c in its printout: one byte is skipped.
use id.Base.{◌+◌, ◌≡◌, refl, some, ◌==◌, arith}
use id.Signals.{execute}
use id.Signals.Skip.{lines, execute-lines}

execute-lines_example :
    execute 2 (λ pc. pc == 665) (λ _. 7) 665 ≡ some (lines 1 665 (λ _. 7), 665 + 1)
execute-lines_example =
    execute-lines 1 2 (λ pc. pc == 665) (λ _. 7) 665 (λ k lt. ground (arith, lt)) refl (omega arith)
