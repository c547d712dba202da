-- ===== src/ContextSwitch/Ending.antt =====
-- How contexts-assignment/switch.c ends.
use id.Base.{ℕ, zero, suc, ◌≡◌, refl, [], ◌∷◌}
use id.ContextSwitch.{Line, Control, State, run, step, start}

abbrev ended : State
ended = record {
  current = Control.over;
  done = 1;
  one = Control.behind_get;
  two = Control.behind_swap;
  out = Line.ending ∷ Line.hello ∷ Line.performing ∷ Line.hello ∷ [];
}

run-ended : (k : ℕ) → run k ended ≡ ended
unfolding run step
run-ended zero = refl
run-ended (suc k) = run-ended k

-- After six steps the program has ended for good: it has switched once, printed `hello` twice,
-- and never the line behind `swapcontext`, since nothing switches to the context saved there.
run_settles : (k : ℕ) → run (suc (suc (suc (suc (suc (suc k)))))) start ≡ ended
unfolding run step
run_settles k = run-ended k
