-- ===== src/Green/Yield.antt =====
-- `green_yield` of seminar3/green.c: the running thread and the ready ones take turns in a ring.
use mathlib.Core.Path.{subst}
use id.Base.{
  ℕ, zero, suc, ◌+◌, ◌≤◌, ◌≡◌, ◌≢◌, refl, sym, ap, ◌∙◌, false, List, [], ◌∷◌, ◌++◌, arith, length,
  length-append,
}
use id.Links.{at, Queue, Absent, Distinct}
use id.Green.{
  State, Place, Result, ok, null_access, Context, dequeue, enqueue, dispatch, green_yield,
  same_place, block, and_then, in_yield,
}
use id.Green.Queue.{Enqueues, enqueue_lem, Dequeues, dequeue_lem}

-- What `dispatch` does if `thread` is the first ready one.
unfoldable pub Dispatches : Result State → Context → ℕ → List ℕ → State → Type 0
unfolding dispatch Queue
Dispatches fault c thread xs s =
    (s' : State) × (dispatch fault c s ≡ ok s')
    × (s' ≡ record s {
      running = thread;
      head = s'.head;
      next = s'.next;
      context = at s.context s.running c;
    })
    × Queue xs (s'.head Place.ready) s'.next
    × (s'.next thread ≡ 0)
    × ((q : Place) (ys : List ℕ)
        → same_place q Place.ready ≡ false
        → Absent thread ys
        → Queue ys (s.head q) s.next
        → Queue ys (s'.head q) s'.next)

pub dispatch_cons :
    (fault : Result State) (c : Context) (s s1 : State) (n : ℕ)
    → dequeue Place.ready s ≡ (n, s1)
    → n ≢ 0
    → dispatch fault c s ≡ ok (record s1 { running = n; context = at s1.context s.running c })
unfolding dispatch
dispatch_cons fault c s s1 n e n≢0 = ground (arith, e, n≢0)

pub dispatch_lem :
    (fault : Result State) (c : Context) (thread : ℕ) (xs : List ℕ) (s : State)
    → Distinct (thread ∷ xs)
    → Queue (thread ∷ xs) (s.head Place.ready) s.next
    → Dispatches fault c thread xs s
unfolding Dispatches Dequeues Queue
dispatch_lem fault c thread xs s d q =
    let (s1, run, same, queue, cleared, other, frame) = dequeue_lem Place.ready thread xs s d q in
    let (e, t≢0, _) = q in
    (
      record s1 { running = thread; context = at s1.context s.running c },
      dispatch_cons fault c s s1 thread run t≢0,
      ap (λ (r : State). record r { running = thread; context = at r.context s.running c }) same,
      queue,
      cleared,
      other,
    )

-- The running thread, then the ready ones in their order.
unfoldable pub IsRing : List ℕ → State → Type 0
unfolding Queue Distinct
IsRing [] s = ⊥
IsRing (r ∷ xs) s =
    (s.running ≡ r)
    × (r ≢ 0)
    × (s.next r ≡ 0)
    × Queue xs (s.head Place.ready) s.next
    × Distinct (r ∷ xs)

pub Absent-append : (k t : ℕ) (xs : List ℕ) → Absent k xs → k ≢ t → Absent k (xs ++ (t ∷ []))
unfolding Absent
Absent-append k t [] a ne = (ne, tt)
Absent-append k t (x ∷ xs) (k≢x, a) ne = (k≢x, Absent-append k t xs a ne)

pub Distinct-append : (t : ℕ) (xs : List ℕ) → Distinct (t ∷ xs) → Distinct (xs ++ (t ∷ []))
unfolding Distinct Absent
Distinct-append t [] (a, d) = (tt, tt)
Distinct-append t (x ∷ xs) ((t≢x, a), (ax, d)) =
    (Absent-append x t xs ax (λ e. t≢x (sym e)), Distinct-append t xs (a, d))

-- Switching to the first of the ready threads makes a ring of them.
Starts : Result State → Context → List ℕ → State → Type 0
unfolding IsRing dispatch
Starts fault c rs s = (s' : State) × (dispatch fault c s ≡ ok s') × IsRing rs s'

dispatch-IsRing :
    (fault : Result State) (c : Context) (thread : ℕ) (xs : List ℕ) (s : State)
    → Distinct (thread ∷ xs)
    → Queue (thread ∷ xs) (s.head Place.ready) s.next
    → Starts fault c (thread ∷ xs) s
unfolding Starts IsRing Dispatches Queue
dispatch-IsRing fault c thread xs s d q =
    let (s', run, same, queue, cleared, frame) = dispatch_lem fault c thread xs s d q in
    let (e, t≢0, _) = q in (s', run, (ap (λ (r : State). r.running) same, t≢0, cleared, queue, d))

unfoldable pub Yields : ℕ → List ℕ → State → Type 0
unfolding IsRing green_yield
Yields fuel rs s = (s' : State) × (green_yield fuel s ≡ ok s') × IsRing rs s'

yield_run :
    (fuel : ℕ) (s s1 s2 : State)
    → enqueue fuel Place.ready s.running (block s) ≡ ok s1
    → dispatch null_access in_yield s1 ≡ ok s2
    → green_yield fuel s ≡ ok s2
unfolding green_yield
yield_run fuel s s1 s2 e1 e2 = ap (λ r. and_then r (λ x. dispatch null_access in_yield x)) e1 ∙ e2

yield_from :
    (fuel : ℕ) (xs : List ℕ) (s : State)
    → length xs ≤ fuel
    → IsRing (s.running ∷ xs) s
    → Yields fuel (xs ++ (s.running ∷ [])) s
unfolding Yields Enqueues Starts IsRing Distinct
yield_from fuel [] s le (_, r≢0, nt, q, (a, d)) =
    let (s1, run, same, queue, _, _) =
      enqueue_lem fuel Place.ready s.running (block s) [] le r≢0 nt a d q in
    let (s2, run2, ring) = dispatch-IsRing null_access in_yield s.running [] s1 (a, d) queue in
    (s2, yield_run fuel s s1 s2 run run2, ring)
yield_from fuel (x ∷ xs) s le (_, r≢0, nt, q, (a, d)) =
    let (s1, run, same, queue, _, _) =
      enqueue_lem fuel Place.ready s.running (block s) (x ∷ xs) le r≢0 nt a d q in
    let (s2, run2, ring) =
      dispatch-IsRing null_access in_yield x (xs ++ (s.running ∷ [])) s1
        (Distinct-append s.running (x ∷ xs) (a, d)) queue in
    (s2, yield_run fuel s s1 s2 run run2, ring)

-- In a ring of the running and the ready threads, with fuel for the ready ones, `green_yield`
-- succeeds: the next thread of the ring runs, and the one that yielded is the last of it.
pub yield-rotates :
    (fuel r : ℕ) (xs : List ℕ) (s : State)
    → length xs ≤ fuel
    → IsRing (r ∷ xs) s
    → Yields fuel (xs ++ (r ∷ [])) s
unfolding IsRing
yield-rotates fuel r xs s le ring =
    let (e, _, _, _, _) = ring in
    subst (λ k. Yields fuel (xs ++ (k ∷ [])) s) e
      (yield_from fuel xs s le (subst (λ k. IsRing (k ∷ xs) s) (sym e) ring))

-- `k` yields in a row, each by the thread that then runs.
abbrev pub yields : ℕ → ℕ → State → Result State
yields zero fuel s = ok s
yields (suc k) fuel s = and_then (green_yield fuel s) (λ s1. yields k fuel s1)

-- The state after `k` yields, whose ring is `rs`.
unfoldable pub Turns : ℕ → ℕ → List ℕ → State → Type 0
unfolding IsRing
Turns k fuel rs s = (s' : State) × (yields k fuel s ≡ ok s') × IsRing rs s'

append_cons :
    (xs ys : List ℕ) (y x : ℕ) → (xs ++ (y ∷ ys)) ++ (x ∷ []) ≡ xs ++ (y ∷ (ys ++ (x ∷ [])))
append_cons [] ys y x = refl
append_cons (z ∷ xs) ys y x = ap (λ l. z ∷ l) (append_cons xs ys y x)

append_nil : (xs : List ℕ) → xs ++ [] ≡ xs
append_nil [] = refl
append_nil (x ∷ xs) = ap (λ l. x ∷ l) (append_nil xs)

append_assoc : (xs ys zs : List ℕ) → (xs ++ ys) ++ zs ≡ xs ++ (ys ++ zs)
append_assoc [] ys zs = refl
append_assoc (x ∷ xs) ys zs = ap (λ l. x ∷ l) (append_assoc xs ys zs)

-- In a ring `xs`, `y`, `ys` of the running and the ready threads, with fuel for all of them, `y`
-- runs after as many yields as `xs` has threads: each ready thread gets its turn, in order.
pub every_thread_runs :
    (fuel y : ℕ) (xs ys : List ℕ) (s : State)
    → length xs + length ys ≤ fuel
    → IsRing (xs ++ (y ∷ ys)) s
    → Turns (length xs) fuel (y ∷ (ys ++ xs)) s
unfolding Turns Yields
every_thread_runs fuel y [] ys s le ring =
    (s, refl, subst (λ l. IsRing (y ∷ l) s) (sym (append_nil ys)) ring)
every_thread_runs fuel y (x ∷ xs) ys s le ring =
    let (s1, run, ring1) =
      yield-rotates fuel x (xs ++ (y ∷ ys)) s (omega (arith, le, length-append xs (y ∷ ys))) ring in
    let (s2, run2, ring2) =
      every_thread_runs fuel y xs (ys ++ (x ∷ [])) s1 (omega (arith, le, length-append ys (x ∷ [])))
        (subst (λ l. IsRing l s1) (append_cons xs ys y x) ring1) in
    (
      s2,
      ap (λ r. and_then r (λ t. yields (length xs) fuel t)) run ∙ run2,
      subst (λ l. IsRing (y ∷ l) s2) (append_assoc ys (x ∷ []) xs) ring2,
    )
