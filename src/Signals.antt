-- ===== src/Signals.antt =====
-- signals-assignment/test1.c: a handler of SIGSEGV that skips bytes of the program until it runs again.
-- At which addresses the processor faults, and the words there, are arguments.
pub mod Skip
mod Examples
use id.Base.{ℕ, zero, suc, ◌+◌, Bool, Option, none, some, List, [], ◌∷◌, if◌then◌else◌}

-- `handler`: the line that it prints for the faulting `pc`, and where the context then continues.
unfoldable pub handler : (ℕ → ℕ) → ℕ → (ℕ × ℕ) × ℕ
handler value pc = ((pc, value pc), pc + 1)

-- `main` from the word that is no instruction on, for some number of signals: the lines printed, and the
-- address at which the program goes on. A signal comes at each address that `faults`.
unfoldable pub execute : ℕ → (ℕ → Bool) → (ℕ → ℕ) → ℕ → Option (List (ℕ × ℕ) × ℕ)
unfolding handler
execute zero faults value pc = none
execute (suc k) faults value pc =
    let (line, next) = handler value pc in
    let rest = execute k faults value next in
    if faults pc
    then elim rest [ none ↦ none | some (lines, end) ↦ some (line ∷ lines, end) ]
    else some ([], pc)
