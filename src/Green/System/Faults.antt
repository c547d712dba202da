-- ===== src/Green/System/Faults.antt =====
-- When the functions of seminar3/green.c fault.
use mathlib.Core.Path.{subst}
use id.Base.{
  if_ind, ℕ, ◌≤◌, ◌≡◌, ◌≢◌, refl, sym, ap, ◌∙◌, ◌==◌, false, List, [], ◌∷◌, ◌++◌, arith,
  if◌then◌else◌,
}
use id.Links.{Queue}
use id.Green.{
  State, Place, ready, blocked_on, Result, ok, null_access, failed_assert, out_of_fuel, Context,
  entry, in_join, in_wait, released, is_released, deref, enqueue, dispatch, and_then, same_place,
}
use id.Green.Events.{Call}
use id.Green.Yield.{dispatch_cons}
use id.Green.System.{Home, is_idle, active, queued, put_queue_self, put_queue_ne, IsCore, IsSystem}
use id.Green.System.Moves.{EnqueuesCore, enqueue-IsCore, dequeue_nil}
use id.Green.System.Switch.{none_moved, next-IsSystem, dispatch_nil}

-- How an operation ends: `hangs` is the model's lack of fuel.
pub data Outcome : Type 0 where
  proceeds crashes aborts hangs : Outcome

unfoldable pub outcome : Result State → Outcome
outcome (ok s) = proceeds
outcome null_access = crashes
outcome failed_assert = aborts
outcome out_of_fuel = hangs

-- What happens to a thread that gives up the processor, when none is ready.
unfoldable pub needs_ready : Outcome → State → Outcome
needs_ready o s = if s.head ready == 0 then o else proceeds

unfoldable pub expected_retake : ℕ → State → Outcome
unfolding needs_ready
expected_retake mutex s =
    if mutex == 0 then proceeds else if s.taken mutex then needs_ready crashes s else proceeds

-- The context of `thread` is freed, once, and its result has to be stored.
unfoldable pub expected_collect : ℕ → ℕ → State → Outcome
expected_collect thread res s =
    if is_released (s.context thread)
    then crashes
    else if s.retval thread == 0
    then proceeds
    else if res == 0
    then crashes
    else proceeds

-- The running thread waits for a condition, and lets the first thread that waits for its mutex go on.
unfoldable pub expected_wait : ℕ → State → Outcome
unfolding needs_ready
expected_wait mutex s =
    if mutex == 0
    then needs_ready aborts s
    else if s.head (blocked_on mutex) == 0
    then needs_ready aborts s
    else proceeds

-- The outcome of a call that reads through the pointer `p`.
abbrev pub needs_pointer : ℕ → Outcome → Outcome
needs_pointer p o = if p == 0 then crashes else o

-- The outcome of an event, from the state before it.
unfoldable pub expected : Call → State → Outcome
unfolding needs_ready expected_retake expected_collect expected_wait
expected (Call.create new fun arg) s = proceeds
expected Call.yield s = proceeds
expected Call.interrupt s = proceeds
expected Call.continue s = elim (s.context s.running) [
  | entry ↦ if s.fun s.running == 0 then aborts else proceeds
  | Context.in_yield ↦ proceeds
  | in_join thread res ↦ expected_collect thread res s
  | in_wait mutex ↦ expected_retake mutex s
  | Context.in_lock ↦ proceeds
  | released ↦ crashes
]
expected (Call.join thread res) s =
    needs_pointer thread
      (if s.zombie thread then expected_collect thread res s else needs_ready crashes s)
expected (Call.exit res) s = if s.join s.running == 0 then needs_ready crashes s else proceeds
expected (Call.cond_init cond) s = needs_pointer cond proceeds
expected (Call.cond_signal cond) s = needs_pointer cond proceeds
expected (Call.mutex_init mutex) s = needs_pointer mutex proceeds
expected (Call.mutex_lock mutex) s =
    needs_pointer mutex (if s.taken mutex then needs_ready aborts s else proceeds)
expected (Call.mutex_unlock mutex) s = needs_pointer mutex proceeds
expected (Call.cond_wait cond mutex) s = needs_pointer cond (expected_wait mutex s)

pub outcome-deref :
    (p : ℕ) (r : Result State) (o : Outcome)
    → outcome r ≡ o
    → outcome (deref p r) ≡ needs_pointer p o
unfolding outcome
outcome-deref p r o e =
    if_ind (λ x. outcome x ≡ needs_pointer p o) (p == 0) null_access r (λ z. ground (arith, z))
      (λ z. e ∙ ground (arith, z))

pub head_null :
    {n : ℕ} {news : List ℕ} {q : Place → List ℕ} {home : ℕ → Home} {s : State} (p : Place)
    → IsCore n news q home s
    → q p ≡ []
    → s.head p ≡ 0
unfolding Queue
head_null {s = s} p c e = subst (λ l. Queue l (s.head p) s.next) e (c.queues p)

pub head_set :
    {n : ℕ} {news : List ℕ} {q : Place → List ℕ} {home : ℕ → Home} {s : State} (p : Place) (x : ℕ)
    (xs : List ℕ)
    → IsCore n news q home s
    → q p ≡ x ∷ xs
    → s.head p ≢ 0
unfolding Queue
head_set {s = s} p x xs c e =
    let (h, x≢0, r) = subst (λ l. Queue l (s.head p) s.next) e (c.queues p) in
    subst (λ h. h ≢ 0) (sym h) x≢0

pub needs_nil : (o : Outcome) (s : State) → s.head ready ≡ 0 → needs_ready o s ≡ o
unfolding needs_ready
needs_nil o s e = ground (arith, e)

pub needs_cons : (o : Outcome) (s : State) → s.head ready ≢ 0 → needs_ready o s ≡ proceeds
unfolding needs_ready
needs_cons o s ne = ground (arith, ne)

module _ {n : ℕ} {news : List ℕ} {q : Place → List ℕ} {home : ℕ → Home} {s : State}
    (c : IsCore n news q home s) (idle : (t : ℕ) → home t ≢ active) (fault : Result State)
    (cx : Context) where
  dispatch_from :
      (xs : List ℕ) → q ready ≡ xs → outcome (dispatch fault cx s) ≡ needs_ready (outcome fault) s
  unfolding outcome
  dispatch_from [] e =
      ap outcome (dispatch_nil fault cx s (dequeue_nil ready c e))
      ∙ sym (needs_nil (outcome fault) s (head_null ready c e))
  dispatch_from (x ∷ xs) e =
      let (s1, run, x≢0, y, same) = next-IsSystem c idle x xs e in
      ap outcome (dispatch_cons fault cx s s1 x run x≢0)
      ∙ sym (needs_cons (outcome fault) s (head_set ready x xs c e))

  -- A switch needs a thread that is ready.
  pub outcome-dispatch : outcome (dispatch fault cx s) ≡ needs_ready (outcome fault) s
  outcome-dispatch = dispatch_from (q ready) refl

-- The same ready queue.
needs_same :
    {n m : ℕ} {news : List ℕ} {q q' : Place → List ℕ} {home home' : ℕ → Home} {s s' : State}
    (o : Outcome) (xs : List ℕ)
    → IsCore n news q home s
    → IsCore m news q' home' s'
    → q ready ≡ xs
    → q' ready ≡ xs
    → needs_ready o s' ≡ needs_ready o s
needs_same {s = s} {s'} o [] c c' e e' =
    needs_nil o s' (head_null ready c' e') ∙ sym (needs_nil o s (head_null ready c e))
needs_same {s = s} {s'} o (x ∷ xs) c c' e e' =
    needs_cons o s' (head_set ready x xs c' e') ∙ sym (needs_cons o s (head_set ready x xs c e))

pub append_cons : (xs : List ℕ) (x : ℕ) → (y : ℕ) × (ys : List ℕ) × (xs ++ (x ∷ []) ≡ y ∷ ys)
append_cons [] x = (x, [], refl)
append_cons (y ∷ ys) x = (y, ys ++ (x ∷ []), refl)

module _ {n : ℕ} {news : List ℕ} {q : Place → List ℕ} {home : ℕ → Home} {s : State}
    (y : IsSystem n news q home s) (fuel : ℕ) (le : n ≤ fuel) where
  pub suspends : (p : Place) → EnqueuesCore fuel n news q home p s.running s
  suspends p =
      let y_runs = y.runs in
      enqueue-IsCore fuel p s.running y.core le (ap is_idle y_runs) (λ u z e. cc)

  -- The running thread goes to a queue other than the ready queue.
  pub switch_away :
      (p : Place) (fault : Result State) (cx : Context)
      → same_place ready p ≡ false
      → outcome (and_then (enqueue fuel p s.running s) (λ s1. dispatch fault cx s1))
        ≡ needs_ready (outcome fault) s
  unfolding EnqueuesCore
  switch_away p fault cx ne =
      let (s1, run, same, core) = suspends p in
      ap (λ r. outcome (and_then r (λ s2. dispatch fault cx s2))) run
      ∙ outcome-dispatch core (λ t a. none_moved home s.running t (queued p) (λ e. cc) y.only a)
          fault cx
      ∙ needs_same (outcome fault) (q ready) y.core core refl
          (put_queue_ne q p (q p ++ (s.running ∷ [])) ready ne)

  -- The running thread is itself ready.
  pub switch_ready :
      (fault : Result State) (cx : Context)
      → outcome (and_then (enqueue fuel ready s.running s) (λ s1. dispatch fault cx s1)) ≡ proceeds
  unfolding EnqueuesCore
  switch_ready fault cx =
      let (s1, run, same, core) = suspends ready in
      let (x, xs, e) = append_cons (q ready) s.running in
      ap (λ r. outcome (and_then r (λ s2. dispatch fault cx s2))) run
      ∙ outcome-dispatch core (λ t a. none_moved home s.running t (queued ready) (λ e. cc) y.only a)
          fault cx
      ∙ needs_cons (outcome fault) s1
          (head_set ready x xs core (put_queue_self q ready (q ready ++ (s.running ∷ [])) ∙ e))
