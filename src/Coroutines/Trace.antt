-- ===== src/Coroutines/Trace.antt =====
-- What contexts-assignment/yield.c prints.
use mathlib.Core.Path.{subst}
use id.Base.{ℕ, zero, suc, ◌+◌, ◌-◌, ◌*◌, ◌≤◌, ◌<◌, ◌≡◌, refl, sym, ap, ◌∙◌, List, [], ◌∷◌, arith}
use id.Coroutines.{Line, Control, State, yield, finish, act, run, start}

run_then :
    (max m n k : ℕ) (s s1 s2 : State)
    → m + n ≡ k
    → run max m s ≡ s1
    → run max n s1 ≡ s2
    → run max k s ≡ s2
unfolding run
run_then max zero n k s s1 s2 e r1 r2 =
    let e' : k ≡ n = omega (arith, e) in
    subst (λ j. run max j s ≡ s2) (sym e') (ap (run max n) r1 ∙ r2)
run_then max (suc m) n k s s1 s2 e r1 r2 =
    let e' : k ≡ suc (m + n) = omega (arith, e) in
    subst (λ j. run max j s ≡ s2) (sym e')
      (run_then max m n (m + n) (act max s.current s) s1 s2 refl r1 r2)

-- The lines of `k` calls of `push` from depth `i` on, and of the returns from depth `i`, the latest
-- line first.
abbrev pub down : ℕ → ℕ → ℕ → List Line → List Line
down p i zero ls = ls
down p i (suc k) ls = down p (i + 1) k (Line.pushed p i ∷ ls)

abbrev pub up : ℕ → ℕ → List Line → List Line
up p zero ls = ls
up p (suc i) ls = up p i (Line.popped p (suc i) ∷ ls)

act_push :
    (max p i : ℕ) (s : State)
    → i < max
    → act max (Control.push p i) s
      ≡ record s { out = Line.pushed p i ∷ s.out; current = Control.push p (i + 1) }
unfolding act
act_push max p i s lt = ground (arith, lt)

act_top :
    (max p i : ℕ) (s : State)
    → max ≤ i
    → act max (Control.push p i) s
      ≡ yield (Control.return p (i - 1)) (record s { out = Line.topped p i ∷ s.out })
unfolding act
act_top max p i s le = ground (arith, le)

run-down :
    (max p i k : ℕ) (s : State)
    → i + k ≤ max
    → run max k (record s { current = Control.push p i })
      ≡ record s { current = Control.push p (i + k); out = down p i k s.out }
unfolding run
run-down max p i zero s le = ap (λ j. record s { current = Control.push p j }) (ground arith)
run-down max p i (suc k) s le =
    ap (run max k) (act_push max p i (record s { current = Control.push p i }) (omega (arith, le)))
    ∙ run-down max p (i + 1) k (record s { out = Line.pushed p i ∷ s.out }) (omega (arith, le))
    ∙ ap
        (λ j. record s {
          current = Control.push p j;
          out = down p (i + 1) k (Line.pushed p i ∷ s.out);
        })
        (ground arith)

run-up :
    (max p i : ℕ) (s : State)
    → run max (suc i) (record s { current = Control.return p i })
      ≡ record s { current = s.cntx_done; out = up p i s.out }
unfolding run act
run-up max p zero s = refl
run-up max p (suc i) s = run-up max p i (record s { out = Line.popped p (suc i) ∷ s.out })

-- The two switches at the top of the recursion.
top_one :
    (max p d : ℕ) (s : State)
    → max ≤ 1 + d
    → run max 1 (record s { running = 1; current = Control.push p (1 + d) }) ≡ record s {
      running = 2;
      cntx_one = Control.return p d;
      current = s.cntx_two;
      out = Line.one_two ∷ Line.yielding ∷ Line.topped p (1 + d) ∷ s.out;
    }
unfolding run yield
top_one max p d s le =
    let e : 1 + d - 1 ≡ d = omega arith in
    act_top max p (1 + d) (record s { running = 1; current = Control.push p (1 + d) }) le
    ∙ ap
        (λ j. record s {
          running = 2;
          cntx_one = Control.return p j;
          current = s.cntx_two;
          out = Line.one_two ∷ Line.yielding ∷ Line.topped p (1 + d) ∷ s.out;
        })
        e

top_two :
    (max p d : ℕ) (s : State)
    → max ≤ 1 + d
    → run max 1 (record s { running = 2; current = Control.push p (1 + d) }) ≡ record s {
      running = 1;
      cntx_two = Control.return p d;
      current = s.cntx_one;
      out = Line.two_one ∷ Line.yielding ∷ Line.topped p (1 + d) ∷ s.out;
    }
unfolding run yield
top_two max p d s le =
    let e : 1 + d - 1 ≡ d = omega arith in
    act_top max p (1 + d) (record s { running = 2; current = Control.push p (1 + d) }) le
    ∙ ap
        (λ j. record s {
          running = 1;
          cntx_two = Control.return p j;
          current = s.cntx_one;
          out = Line.two_one ∷ Line.yielding ∷ Line.topped p (1 + d) ∷ s.out;
        })
        e

-- The output up to the second switch, for a depth of `1 + d`, and all of it; the latest line first.
abbrev pub halfway : ℕ → List Line
halfway d =
    Line.two_one
    ∷ Line.yielding
    ∷ Line.topped 2 (1 + d)
    ∷ down 2 1 d (Line.one_two ∷ Line.yielding ∷ Line.topped 1 (1 + d) ∷ down 1 1 d (Line.go ∷ []))

abbrev pub printed : ℕ → List Line
printed d =
    Line.folks
    ∷ Line.all_done
    ∷ Line.terminating 2
    ∷ up 2 d (Line.terminating 1 ∷ up 1 d (halfway d))

-- The state at the second switch, where the first coroutine goes on.
abbrev pub switched : ℕ → State
switched d = record {
  running = 1;
  done1 = 0;
  done2 = 0;
  current = Control.return 1 d;
  cntx_one = Control.return 1 d;
  cntx_two = Control.return 2 d;
  cntx_done = Control.done;
  out = halfway d;
}

abbrev pub ended : ℕ → State
ended d = record (switched d) {
  running = 2;
  done1 = 1;
  done2 = 1;
  current = Control.over;
  out = printed d;
}

first_half : (d : ℕ) → run (1 + d) (d + (1 + (d + 1))) start ≡ switched d
first_half d =
    let low = Line.one_two ∷ Line.yielding ∷ Line.topped 1 (1 + d) ∷ down 1 1 d (Line.go ∷ []) in
    let second : State = record start {
      running = 2;
      cntx_one = Control.return 1 d;
      current = Control.push 2 1;
      out = low;
    } in
    run_then (1 + d) d (1 + (d + 1)) (d + (1 + (d + 1))) start
      (record start { current = Control.push 1 (1 + d); out = down 1 1 d (Line.go ∷ []) })
      (switched d) refl (run-down (1 + d) 1 1 d start (omega arith))
      (run_then (1 + d) 1 (d + 1) (1 + (d + 1))
        (record start { current = Control.push 1 (1 + d); out = down 1 1 d (Line.go ∷ []) }) second
        (switched d) refl
        (top_one (1 + d) 1 d (record start { out = down 1 1 d (Line.go ∷ []) }) (omega arith))
        (run_then (1 + d) d 1 (d + 1) second
          (record second { current = Control.push 2 (1 + d); out = down 2 1 d low }) (switched d)
          refl (run-down (1 + d) 2 1 d second (omega arith))
          (top_two (1 + d) 2 d (record second { out = down 2 1 d low }) (omega arith))))

second_half : (d : ℕ) → run (1 + d) (suc d + (1 + (suc d + 2))) (switched d) ≡ ended d
unfolding run act finish
second_half d =
    let back : State = record (switched d) { current = Control.done; out = up 1 d (halfway d) } in
    let other : State = record (switched d) {
      running = 2;
      done1 = 1;
      current = Control.return 2 d;
      out = Line.terminating 1 ∷ up 1 d (halfway d);
    } in
    let last : State = record other {
      current = Control.done;
      out = up 2 d (Line.terminating 1 ∷ up 1 d (halfway d));
    } in
    run_then (1 + d) (suc d) (1 + (suc d + 2)) (suc d + (1 + (suc d + 2))) (switched d) back
      (ended d) refl (run-up (1 + d) 1 d (switched d))
      (run_then (1 + d) 1 (suc d + 2) (1 + (suc d + 2)) back other (ended d) refl refl (
        run_then (1 + d) (suc d) 2 (suc d + 2) other last (ended d) refl (run-up (1 + d) 2 d other)
          refl))

-- For every positive MAX `1 + d` the program ends after `4 * d + 7` steps, with both coroutines
-- terminated, and prints this: the first one goes down to MAX and switches to the second, which does
-- the same and switches back; each then returns through all its depths in reverse, the first before
-- the second, and the end of each is reported by `done`.
pub run_ends : (d : ℕ) → run (1 + d) (4 * d + 7) start ≡ ended d
run_ends d =
    run_then (1 + d) (d + (1 + (d + 1))) (suc d + (1 + (suc d + 2))) (4 * d + 7) start (switched d)
      (ended d) (omega arith) (first_half d) (second_half d)
