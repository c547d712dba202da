-- ===== src/ContextSwitch.antt =====
-- contexts-assignment/switch.c: `main` saves its context and switches back to it once.
mod Ending
use id.Base.{ℕ, zero, suc, List, [], ◌∷◌, ◌==◌, if◌then◌else◌}

-- The lines that the program prints.
pub data Line : Type 0 where
  hello performing complete ending : Line

-- Where a context continues: at the start, behind `getcontext`, at the test of `done`, behind
-- `swapcontext`, at the last `printf`, and after the end.
pub data Control : Type 0 where
  at_start behind_get at_test behind_swap at_end over : Control

-- `done` lies in the frame of `main`, which both contexts share; the lines, the latest first.
pub record State : Type 0 where
  pub current : Control
  pub done : ℕ
  pub one : Control
  pub two : Control
  pub out : List Line

-- One step of the current context.
unfoldable pub step : Control → State → State
step Control.at_start s = record s { one = Control.behind_get; current = Control.behind_get }
step Control.behind_get s = record s { out = Line.hello ∷ s.out; current = Control.at_test }
step Control.at_test s =
    if s.done == 0
    then record s {
      done = 1;
      out = Line.performing ∷ s.out;
      two = Control.behind_swap;
      current = s.one;
    }
    else record s { current = Control.at_end }
step Control.behind_swap s = record s { out = Line.complete ∷ s.out; current = Control.at_end }
step Control.at_end s = record s { out = Line.ending ∷ s.out; current = Control.over }
step Control.over s = s

unfoldable pub run : ℕ → State → State
unfolding step
run zero s = s
run (suc k) s = run k (step s.current s)

abbrev pub start : State
start = record {
  current = Control.at_start;
  done = 0;
  one = Control.over;
  two = Control.over;
  out = [];
}
