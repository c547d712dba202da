-- ===== src/Signals/Skip.antt =====
-- Where the program of signals-assignment/test1.c goes on.
use id.Base.{
  ℕ, zero, suc, ◌+◌, ◌<◌, ◌≡◌, ap, ◌∙◌, Bool, true, false, Option, none, some, List, [], ◌∷◌,
  if◌then◌else◌, arith,
}
use id.Signals.{execute}

-- `n` addresses from `from` on, with the words there.
abbrev pub lines : ℕ → ℕ → (ℕ → ℕ) → List (ℕ × ℕ)
lines zero from value = []
lines (suc n) from value = (from, value from) ∷ lines n (from + 1) value

-- Whatever the processor does: the program goes on at the first address from `pc` on at which it does not
-- fault, after one line for each address before, in order, with the word there
pub execute-lines :
    (n fuel : ℕ) (faults : ℕ → Bool) (value : ℕ → ℕ) (pc : ℕ)
    → ((k : ℕ) → k < n → faults (pc + k) ≡ true)
    → faults (pc + n) ≡ false
    → n < fuel
    → execute fuel faults value pc ≡ some (lines n pc value, pc + n)
unfolding execute
execute-lines n zero faults value pc bad good le = absurd (omega (arith, le))
execute-lines zero (suc k) faults value pc bad good le =
    let here : pc + 0 ≡ pc = omega arith in
    let runs : faults pc ≡ false = ap faults (omega arith) ∙ good in ground (arith, runs, here)
execute-lines (suc n) (suc k) faults value pc bad good le =
    let stops : faults pc ≡ true = ap faults (omega arith) ∙ bad 0 (omega arith) in
    let next : pc + 1 + n ≡ pc + suc n = omega arith in
    let rest : execute k faults value (pc + 1) ≡ some (lines n (pc + 1) value, pc + 1 + n) =
      execute-lines n k faults value (pc + 1)
        (λ i lt. ap faults (omega arith) ∙ bad (suc i) (omega (arith, lt))) (ap faults next ∙ good)
        (omega (arith, le)) in
    let print : Option (List (ℕ × ℕ) × ℕ) → Option (List (ℕ × ℕ) × ℕ) =
      λ o. elim o [ none ↦ none | some (l, end) ↦ some ((pc, value pc) ∷ l, end) ] in
    ap (λ b. if b then print (execute k faults value (pc + 1)) else some ([], pc)) stops
    ∙ ap print rest
    ∙ ap (λ e. some (lines (suc n) pc value, e)) next
