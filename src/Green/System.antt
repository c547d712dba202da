-- ===== src/Green/System.antt =====
-- All the queues of seminar3/green.c at once: every thread has one place, and `enqueue` and `dequeue`
-- move one thread.
pub mod Moves
pub mod Sound
pub mod Switch
pub mod Transfer
pub mod Release
pub mod Signals
pub mod Spawn
pub mod Exit
pub mod Resume
pub mod Perform
pub mod Run
pub mod Refinement
pub mod Faults
pub mod Outcomes
pub mod Endings
pub mod History
pub mod Guarded
pub mod Waiters
mod Examples
use mathlib.Core.Path.{subst, subst₂, fun_ext}
use id.Base.{
  ℕ, zero, suc, ◌+◌, ◌≤◌, ◌<◌, ◌≡◌, ◌≢◌, ◌⊎◌, inl, inr, refl, sym, ap, ◌∙◌, ◌==◌, Bool, true, false,
  Bool-cases, List, [], ◌∷◌, ◌++◌, arith, length, length-append, if◌then◌else◌,
}
use id.Links.{at, Queue, Absent, Distinct, Disjoint, Among}
use id.Green.{
  State, Place, ready, waiting, blocked_on, Result, ok, dequeue, enqueue, last, at_place,
  same_place,
}
use id.Green.Scheduler.{put_queue}
use id.Green.Queue.{Enqueues, enqueue_lem, Dequeues, dequeue_lem, same_place_self}
use id.Green.Yield.{Distinct-append}

-- Where a thread is: not created, running (or on its way), waiting in `green_join` for `thread`, on
-- a queue, or terminated.
pub data Home : Type 0 where
  fresh active ended : Home
  joining : (thread : ℕ) → Home
  queued : (list : Place) → Home

-- The thread is on no queue, and its link is NULL.
abbrev pub is_idle : Home → Bool
is_idle active = true
is_idle (joining _) = true
is_idle _ = false

-- The queues hold the lists `q`, of at most `n` threads; `home` tells where every thread is, and the
-- threads `news` are not created yet. A thread that has not terminated is joined by none, or by one
-- that waits for it.
pub record IsCore (n : ℕ) (news : List ℕ) (q : Place → List ℕ) (home : ℕ → Home) (s : State)
    : Type 0 where
  pub queues : (p : Place) → Queue (q p) (s.head p) s.next
  pub distinct : (p : Place) → Distinct (q p)
  pub homes : (p : Place) (t : ℕ) → Among t (q p) → home t ≡ queued p
  pub short : (p : Place) → length (q p) ≤ n
  pub null : home 0 ≡ fresh
  pub clear : (t : ℕ) → is_idle (home t) ≡ true → s.next t ≡ 0
  pub joins : (t : ℕ) → s.zombie t ≡ false → (s.join t ≡ 0) ⊎ (home (s.join t) ≡ joining t)
  pub alive : (t : ℕ) → home t ≢ fresh → home t ≢ ended → s.zombie t ≡ false
  pub coming : (t : ℕ) → Among t news → home t ≡ fresh

pub same_place_eq : (p r : Place) → same_place p r ≡ true → p ≡ r
same_place_eq ready ready e = refl
same_place_eq (waiting c) (waiting d) e = ground (arith, e)
same_place_eq (blocked_on c) (blocked_on d) e = ground (arith, e)
same_place_eq ready (waiting d) e = cc
same_place_eq ready (blocked_on d) e = cc
same_place_eq (waiting c) ready e = cc
same_place_eq (waiting c) (blocked_on d) e = cc
same_place_eq (blocked_on c) ready e = cc
same_place_eq (blocked_on c) (waiting d) e = cc

Absent-of : (x : ℕ) (ys : List ℕ) → ((t : ℕ) → Among t ys → t ≢ x) → Absent x ys
unfolding Absent Among
Absent-of x [] h = tt
Absent-of x (y ∷ ys) h = ((λ e. h y (inl refl) (sym e)), Absent-of x ys (λ t a. h t (inr a)))

Disjoint-of : (xs ys : List ℕ) → ((t u : ℕ) → Among t xs → Among u ys → u ≢ t) → Disjoint xs ys
unfolding Disjoint Among
Disjoint-of [] ys h = tt
Disjoint-of (x ∷ xs) ys h =
    (Absent-of x ys (λ u a. h x u (inl refl) a), Disjoint-of xs ys (λ t u a b. h t u (inr a) b))

pub Among-append : (t x : ℕ) (xs : List ℕ) → Among t (xs ++ (x ∷ [])) → Among t xs ⊎ (t ≡ x)
unfolding Among
Among-append t x [] (inl e) = inr e
Among-append t x [] (inr a) = elim a [ ]
Among-append t x (y ∷ ys) (inl e) = inl (inl e)
Among-append t x (y ∷ ys) (inr a) = elim (Among-append t x ys a) [
  | inl b ↦ inl (inr b)
  | inr e ↦ inr e
]

-- A property of a queue after one of the queues was replaced.
module _ (q : Place → List ℕ) (p : Place) (xs : List ℕ) where
  pub put_queue_self : put_queue q p xs p ≡ xs
  put_queue_self = ap (λ b. if b then xs else q p) (same_place_self p)

  pub put_queue_ne : (r : Place) → same_place r p ≡ false → put_queue q p xs r ≡ q r
  put_queue_ne r e = ap (λ b. if b then xs else q r) e

  pub put_queue_ind :
      (P : Place → List ℕ → Type 0)
      → P p xs
      → ((r : Place) → same_place r p ≡ false → P r (q r))
      → (r : Place) → P r (put_queue q p xs r)
  put_queue_ind P here there r = elim (Bool-cases (same_place r p)) [
    | inl e ↦
        let e' : r ≡ p = same_place_eq r p e in
        subst (λ t. P t (put_queue q p xs t)) (sym e')
          (subst (λ l. P p l) (sym put_queue_self) here)
    | inr e ↦ subst (λ l. P r l) (sym (put_queue_ne r e)) (there r e)
  ]

-- A queue that is replaced by itself.
pub put_queue_same :
    (q : Place → List ℕ) (p : Place) (xs : List ℕ) → q p ≡ xs → put_queue q p xs ≡ q
put_queue_same q p xs e = fun_ext (put_queue_ind q p xs (λ r l. l ≡ q r) (sym e) (λ r ne. refl))

pub queued_ne : (p r : Place) → same_place p r ≡ false → queued p ≢ queued r
queued_ne p r e h =
    let h' : p ≡ r = cc in
    let e' : same_place r r ≡ false = subst (λ t. same_place t r ≡ false) h' e in
    let e'' : same_place r r ≡ true = same_place_self r in cc

module _ {n : ℕ} {news : List ℕ} {q : Place → List ℕ} {home : ℕ → Home} {s : State}
    (c : IsCore n news q home s) where
  -- Two queues share no thread.
  pub queues-Disjoint : (p r : Place) → same_place r p ≡ false → Disjoint (q p) (q r)
  queues-Disjoint p r ne =
      Disjoint-of (q p) (q r)
        (λ t u a b e. queued_ne r p ne (sym (c.homes r u b) ∙ ap home e ∙ c.homes p t a))

  -- A thread at home elsewhere is not on the queue.
  pub home-Absent : (t : ℕ) (p : Place) → home t ≢ queued p → Absent t (q p)
  home-Absent t p ne =
      Absent-of t (q p) (λ u a e. ne (subst (λ x. home x ≡ queued p) e (c.homes p u a)))

pub at_home : (home : ℕ → Home) (t u : ℕ) (h : Home) → u ≢ t → at home t h u ≡ home u
at_home home t u h ne = ground arith

pub at_home_self : (home : ℕ → Home) (t : ℕ) (h : Home) → at home t h t ≡ h
at_home_self home t h = ground arith

pub home_kept :
    (home : ℕ → Home) (t u : ℕ) (h k : Home) → home t ≢ k → home u ≡ k → at home t h u ≡ k
home_kept home t u h k ne e = at_home home t u h (λ e'. ne (sym (ap home e') ∙ e)) ∙ e

pub joins_kept :
    (home : ℕ → Home) (t u j : ℕ) (h : Home)
    → home t ≢ joining u
    → (j ≡ 0) ⊎ (home j ≡ joining u)
    → (j ≡ 0) ⊎ (at home t h j ≡ joining u)
joins_kept home t u j h ne (inl e) = inl e
joins_kept home t u j h ne (inr e) = inr (at_home home t j h (λ e'. ne (sym (ap home e') ∙ e)) ∙ e)

pub at_home_kept : (home : ℕ → Home) (t u : ℕ) (h : Home) → home u ≡ h → at home t h u ≡ h
at_home_kept home t u h e = ground (arith, e)

pub idle_known : (h : Home) → is_idle h ≡ true → h ≢ fresh
idle_known h i e = let f : is_idle fresh ≡ true = subst (λ x. is_idle x ≡ true) e i in cc

pub idle_unqueued : (h : Home) (p : Place) → is_idle h ≡ true → h ≢ queued p
idle_unqueued h p i e = let f : is_idle (queued p) ≡ true = subst (λ x. is_idle x ≡ true) e i in cc

-- A thread that is idle after `t` has moved to a home that is not idle was idle before.
pub idle_before :
    (home : ℕ → Home) (t u : ℕ) (h : Home)
    → is_idle h ≡ false
    → is_idle (at home t h u) ≡ true
    → (u ≢ t) × (is_idle (home u) ≡ true)
idle_before home t u h busy i =
    let ne : u ≢ t = λ e.
      let f : is_idle h ≡ true =
        subst (λ x. is_idle x ≡ true) (at_home_self home t h)
          (subst (λ v. is_idle (at home t h v) ≡ true) e i) in
      cc in
    (ne, subst (λ x. is_idle x ≡ true) (at_home home t u h ne) i)

-- What lives after `t` has moved lived before.
pub alive_kept :
    (home : ℕ → Home) (t : ℕ) (h : Home) (z : ℕ → Bool)
    → home t ≢ fresh
    → home t ≢ ended
    → ((u : ℕ) → home u ≢ fresh → home u ≢ ended → z u ≡ false)
    → (u : ℕ) → at home t h u ≢ fresh
    → at home t h u ≢ ended
    → z u ≡ false
alive_kept home t h z nf ne alive u nf' ne' =
    alive u (λ e. nf' (home_kept home t u h fresh nf e))
      (λ e. ne' (home_kept home t u h ended ne e))

pub idle_lives : (h : Home) → is_idle h ≡ true → h ≢ ended
idle_lives h i e = let f : is_idle ended ≡ true = subst (λ x. is_idle x ≡ true) e i in cc

-- A thread that is idle after `t` has moved is that one, or was idle before.
pub idle_cases :
    (home : ℕ → Home) (t u : ℕ) (h : Home)
    → is_idle (at home t h u) ≡ true
    → (u ≡ t) ⊎ ((u ≢ t) × (is_idle (home u) ≡ true))
idle_cases home t u h i = elim (Bool-cases (u == t)) [
  | inl e ↦ inl (ground (arith, e))
  | inr e ↦
      let ne : u ≢ t = ground (arith, e) in
      inr (ne, subst (λ x. is_idle x ≡ true) (at_home home t u h ne) i)
]

-- Of all threads exactly the running one is active.
pub record IsSystem (n : ℕ) (news : List ℕ) (q : Place → List ℕ) (home : ℕ → Home) (s : State)
    : Type 0 where
  pub core : IsCore n news q home s
  pub runs : home s.running ≡ active
  pub only : (t : ℕ) → home t ≡ active → t ≡ s.running
