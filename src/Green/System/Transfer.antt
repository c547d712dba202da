-- ===== src/Green/System/Transfer.antt =====
-- How a thread moves from the queue of a condition or of a mutex to the ready queue, in seminar3/green.c.
use mathlib.Core.Path.{subst}
use id.Base.{
  ℕ, suc, ◌≤◌, ◌≡◌, ◌≢◌, inl, inr, refl, sym, ap, ◌∙◌, ◌==◌, false, Bool-cases, List, [], ◌∷◌, ◌++◌,
  arith,
}
use id.Links.{at, Queue, Among}
use id.Green.{
  State, Place, ready, waiting, blocked_on, ok, dequeue, enqueue, block, unblock, unlock_at,
  signal_at,
}
use id.Green.Scheduler.{put_queue}
use id.Green.System.{
  Home, is_idle, active, queued, put_queue_self, IsCore, IsSystem, at_home, at_home_self,
}
use id.Green.System.Moves.{EnqueuesCore, enqueue-IsCore, DequeuesCore, dequeue-IsCore, reset}

-- The queues after the first thread of `p` went to the ready queue, where `xs` is the rest of `p`.
abbrev pub woken : (Place → List ℕ) → Place → ℕ → List ℕ → Place → List ℕ
woken q p x xs =
    let q1 : Place → List ℕ = put_queue q p xs in put_queue q1 ready (q1 ready ++ (x ∷ []))

-- What moves the first thread of the queue `p` to the ready queue keeps: a core, and which threads
-- are active.
unfoldable pub Wakes : ℕ → ℕ → List ℕ → (ℕ → Home) → Place → ℕ → (Place → List ℕ) → State → Type 0
Wakes fuel n news home p x q' s =
    (s1 s2 : State) × (dequeue p s ≡ (x, s1))
    × (enqueue fuel ready x s1 ≡ ok s2)
    × (s2 ≡ record s { head = s2.head; next = s2.next })
    × (s.head p ≢ 0)
    × (s2.head ready ≢ 0)
    × (home' : ℕ → Home) × IsCore (suc n) news q' home' s2
    × ((t : ℕ) → home' t ≡ active → home t ≡ active)
    × ((t : ℕ) → home t ≡ active → home' t ≡ active)

-- The homes of a queued thread that goes to another queue: those of the others stay.
moved_twice :
    (home : ℕ → Home) (x t : ℕ) (p : Place)
    → at (at home x active) x (queued p) t ≡ active
    → home t ≡ active
moved_twice home x t p a = elim (Bool-cases (t == x)) [
  | inl e ↦
      let e' : t ≡ x = ground (arith, e) in
      let here : at (at home x active) x (queued p) t ≡ queued p =
        subst (λ v. at (at home x active) x (queued p) v ≡ queued p) (sym e')
          (at_home_self (at home x active) x (queued p)) in
      cc
  | inr e ↦
      let ne : t ≢ x = ground (arith, e) in
      sym (at_home (at home x active) x t (queued p) ne ∙ at_home home x t active ne) ∙ a
]

stayed :
    (home : ℕ → Home) (x t : ℕ) (p : Place)
    → t ≢ x
    → home t ≡ active
    → at (at home x active) x (queued p) t ≡ active
stayed home x t p ne a =
    at_home (at home x active) x t (queued p) ne ∙ at_home home x t active ne ∙ a

Queue-head :
    (x : ℕ) (xs : List ℕ) (head : Place → ℕ) (next : ℕ → ℕ) (p : Place)
    → Queue (x ∷ xs) (head p) next
    → head p ≢ 0
unfolding Queue
Queue-head x xs head next p (e, x≢0, q) = subst (λ h. h ≢ 0) (sym e) x≢0

pub queue_null :
    {n : ℕ} {news : List ℕ} {q : Place → List ℕ} {home : ℕ → Home} {s : State} (p : Place)
    → IsCore n news q home s
    → q p ≡ []
    → s.head p ≡ 0
unfolding Queue
queue_null {s = s} p c e = subst (λ l. Queue l (s.head p) s.next) e (c.queues p)

some_ready :
    {n : ℕ} {news : List ℕ} {q : Place → List ℕ} {home : ℕ → Home} {s : State} (xs : List ℕ) (x : ℕ)
    → IsCore n news q home s
    → q ready ≡ xs ++ (x ∷ [])
    → s.head ready ≢ 0
some_ready {s = s} [] x c e =
    Queue-head x [] s.head s.next ready
      (subst (λ l. Queue l (s.head ready) s.next) e (c.queues ready))
some_ready {s = s} (y ∷ ys) x c e =
    Queue-head y (ys ++ (x ∷ [])) s.head s.next ready
      (subst (λ l. Queue l (s.head ready) s.next) e (c.queues ready))

pub wake_lem :
    {n : ℕ} {news : List ℕ} {q : Place → List ℕ} {home : ℕ → Home} {s : State} (fuel : ℕ)
    (p : Place) (x : ℕ) (xs : List ℕ)
    → IsCore n news q home s
    → n ≤ fuel
    → q p ≡ x ∷ xs
    → Wakes fuel n news home p x (woken q p x xs) s
unfolding Wakes DequeuesCore EnqueuesCore Among
wake_lem {n} {news} {q} {home} {s} fuel p x xs c le e =
    let at_x : home x ≡ queued p = c.homes p x (subst (λ l. Among x l) (sym e) (inl refl)) in
    let self : at home x active x ≡ active = at_home_self home x active in
    let (s1, run1, same1, core1) = dequeue-IsCore p x xs active c e refl in
    let (s2, run2, same2, core2) =
      enqueue-IsCore fuel ready x core1 le (ap is_idle self) (λ u z f. cc) in
    let q1 : Place → List ℕ = put_queue q p xs in
    (
      s1,
      s2,
      run1,
      run2,
      same2 ∙ ap (λ (r : State). record r { head = s2.head; next = s2.next }) same1,
      Queue-head x xs s.head s.next p (subst (λ l. Queue l (s.head p) s.next) e (c.queues p)),
      some_ready (q1 ready) x core2 (put_queue_self q1 ready (q1 ready ++ (x ∷ []))),
      at (at home x active) x (queued ready),
      core2,
      (λ t a. moved_twice home x t ready a),
      λ t a.
          stayed home x t ready
            (λ f. let f' : home x ≡ active = subst (λ v. home v ≡ active) f a in cc) a,
    )

-- The same for a system.
pub wake-IsSystem :
    {n : ℕ} {news : List ℕ} {q : Place → List ℕ} {home : ℕ → Home} {s : State} (s2 : State)
    (q' : Place → List ℕ) (home' : ℕ → Home)
    → IsSystem n news q home s
    → IsCore (suc n) news q' home' s2
    → s2.running ≡ s.running
    → ((t : ℕ) → home' t ≡ active → home t ≡ active)
    → ((t : ℕ) → home t ≡ active → home' t ≡ active)
    → IsSystem (suc n) news q' home' s2
wake-IsSystem {home = home} {s = s} s2 q' home' y core er back forth = record {
  core = core;
  runs = ap home' er ∙ forth s.running y.runs;
  only = λ t a. y.only t (back t a) ∙ sym er;
}

pub signal_nil :
    (fuel c : ℕ) (s : State) → s.head (waiting c) ≡ 0 → signal_at fuel c s ≡ ok (block s)
unfolding signal_at
signal_nil fuel c s e = ground (arith, e)

pub signal_cons :
    (fuel c x : ℕ) (s s1 s2 : State)
    → s.head (waiting c) ≢ 0
    → dequeue (waiting c) (block s) ≡ (x, s1)
    → enqueue fuel ready x s1 ≡ ok s2
    → signal_at fuel c s ≡ ok (unblock s2)
unfolding signal_at
signal_cons fuel c x s s1 s2 h≢0 e1 e2 = ground (arith, h≢0, e1, e2)

pub unlock_nil :
    (fuel m : ℕ) (s : State)
    → s.head (blocked_on m) ≡ 0
    → unlock_at fuel m s
      ≡ ok (unblock (record (reset (blocked_on m) s) { taken = at s.taken m false }))
unfolding unlock_at
unlock_nil fuel m s e = ground (arith, e)
