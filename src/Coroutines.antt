-- ===== src/Coroutines.antt =====
-- contexts-assignment/yield.c: two coroutines that recurse to depth MAX, yield to each other there,
-- and return; a third context runs when one of them ends. MAX is a parameter.
pub mod Trace
mod Examples
use id.Base.{ℕ, zero, suc, ◌+◌, ◌-◌, List, [], ◌∷◌, ◌==◌, ltb, if◌then◌else◌}

-- The lines that the program prints.
pub data Line : Type 0 where
  go folks yielding one_two two_one all_done : Line
  pushed popped topped : (p i : ℕ) → Line
  terminating : (p : ℕ) → Line

-- Where a context continues.
pub data Control : Type 0 where
  push : (p i : ℕ) → Control  -- at the start of `push(p, i)`
  return : (p i : ℕ) → Control  -- behind the call of `push(p, i + 1)` in `push(p, i)`; 0 is the end
  done : Control  -- at the test of the loop of `done`
  end : Control  -- in `main`, behind its `swapcontext`
  over : Control  -- `main` has returned

-- The globals, the current context, and the output, the latest line first. `cntx_main` is saved
-- once and is always `end`.
pub record State : Type 0 where
  pub running : ℕ
  pub done1 : ℕ
  pub done2 : ℕ
  pub current : Control
  pub cntx_one : Control
  pub cntx_two : Control
  pub cntx_done : Control
  pub out : List Line

-- `yield`, called where the current context goes on with `rest`.
unfoldable pub yield : Control → State → State
yield rest s =
    if s.running == 1
    then record s {
      out = Line.one_two ∷ Line.yielding ∷ s.out;
      running = 2;
      cntx_one = rest;
      current = s.cntx_two;
    }
    else record s {
      out = Line.two_one ∷ Line.yielding ∷ s.out;
      running = 1;
      cntx_two = rest;
      current = s.cntx_one;
    }

-- One round of the loop of `done`; after its last one the context ends and links to `cntx_main`.
unfoldable pub finish : State → State
finish s =
    if s.running == 1
    then if s.done2 == 0
      then record s {
        out = Line.terminating 1 ∷ s.out;
        done1 = 1;
        running = 2;
        cntx_done = Control.done;
        current = s.cntx_two;
      }
      else record s {
        out = Line.all_done ∷ Line.terminating 1 ∷ s.out;
        done1 = 1;
        current = Control.end;
      }
    else if s.done1 == 0
    then record s {
      out = Line.terminating 2 ∷ s.out;
      done2 = 1;
      running = 1;
      cntx_done = Control.done;
      current = s.cntx_one;
    }
    else record s {
      out = Line.all_done ∷ Line.terminating 2 ∷ s.out;
      done2 = 1;
      current = Control.end;
    }

-- One step of the current context.
unfoldable pub act : ℕ → Control → State → State
unfolding yield finish
act max (Control.push p i) s =
    if ltb i max
    then record s { out = Line.pushed p i ∷ s.out; current = Control.push p (i + 1) }
    else yield (Control.return p (i - 1)) (record s { out = Line.topped p i ∷ s.out })
act max (Control.return p zero) s = record s { current = s.cntx_done }
act max (Control.return p (suc i)) s = record s {
  out = Line.popped p (suc i) ∷ s.out;
  current = Control.return p i;
}
act max Control.done s = finish s
act max Control.end s = record s { out = Line.folks ∷ s.out; current = Control.over }
act max Control.over s = s

unfoldable pub run : ℕ → ℕ → State → State
unfolding act
run max zero s = s
run max (suc n) s = run max n (act max s.current s)

-- `main`, up to its `swapcontext`.
abbrev pub start : State
start = record {
  running = 1;
  done1 = 0;
  done2 = 0;
  current = Control.push 1 1;
  cntx_one = Control.push 1 1;
  cntx_two = Control.push 2 1;
  cntx_done = Control.done;
  out = Line.go ∷ [];
}
