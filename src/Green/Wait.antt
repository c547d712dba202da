-- ===== src/Green/Wait.antt =====
-- `green_cond_wait` of seminar3/green.c with a mutex that other threads wait for.
use mathlib.Core.Path.{subst}
use id.Base.{ℕ, ◌≤◌, ◌≡◌, ◌≢◌, refl, sym, ap, ◌∙◌, false, List, [], ◌∷◌, ◌++◌, arith, length}
use id.Links.{at, Queue, Absent, Distinct, Disjoint}
use id.Green.{
  State, Place, ok, failed_assert, dequeue, enqueue, dispatch, at_place, block, unblock, in_lock,
  in_wait, release, wait_at, resume, green_cond_wait,
}
use id.Green.Mutex.{AreApart, at_ne, resume_in_lock}
use id.Green.Queue.{Enqueues, enqueue_lem, Dequeues, dequeue_lem}
use id.Green.Yield.{Dispatches, dispatch_lem, Absent-append}

Disjoint-nil : (xs : List ℕ) → Disjoint xs []
unfolding Disjoint Absent
Disjoint-nil [] = tt
Disjoint-nil (x ∷ xs) = (tt, Disjoint-nil xs)

wait_cons :
    (fuel cond mutex : ℕ) (s s1 s2 s3 : State)
    → s.running ≢ 0
    → enqueue fuel (Place.waiting cond) s.running (block s) ≡ ok s1
    → release fuel mutex s1 ≡ ok s2
    → dispatch failed_assert (in_wait mutex) s2 ≡ ok s3
    → wait_at fuel cond mutex s ≡ ok s3
unfolding wait_at
wait_cons fuel cond mutex s s1 s2 s3 r≢0 e1 e2 e3 = ground (arith, r≢0, e1, e2, e3)

green_wait_cons :
    (fuel cond mutex : ℕ) (s : State)
    → s.running ≢ 0
    → cond ≢ 0
    → green_cond_wait fuel cond mutex s ≡ wait_at fuel cond mutex s
unfolding green_cond_wait
green_wait_cons fuel cond mutex s r≢0 c≢0 = ground (arith, r≢0, c≢0)

-- `thread`, whose context is that of `green_mutex_lock`, runs and returns from there, while the
-- mutex is free. Its queue and the ready queue are empty, and the queue of the condition holds `ws` and
-- the caller.
unfoldable pub Unlocks : ℕ → ℕ → ℕ → ℕ → List ℕ → State → Type 0
unfolding green_cond_wait resume Queue
Unlocks fuel cond mutex thread ws s =
    (s' : State) × (green_cond_wait fuel cond mutex s ≡ ok s')
    × (s'.running ≡ thread)
    × (resume fuel s' ≡ ok (unblock s'))
    × (s'.taken mutex ≡ false)
    × (s'.head (Place.blocked_on mutex) ≡ 0)
    × (s'.head Place.ready ≡ 0)
    × Queue (ws ++ (s.running ∷ [])) (s'.head (Place.waiting cond)) s'.next

-- Releases the mutex to nobody: the first thread that waits for it is made ready.
Releases : ℕ → ℕ → ℕ → State → Type 0
unfolding release Queue
Releases fuel mutex thread s =
    (s' : State) × (release fuel mutex s ≡ ok s')
    × (s' ≡ record s { head = s'.head; next = s'.next; taken = at s.taken mutex false })
    × Queue (thread ∷ []) (s'.head Place.ready) s'.next
    × (s'.head (Place.blocked_on mutex) ≡ 0)
    × ((c : ℕ) (ys : List ℕ)
        → Absent thread ys
        → Queue ys (s.head (Place.waiting c)) s.next
        → Queue ys (s'.head (Place.waiting c)) s'.next)

pub release_cons :
    (fuel mutex thread : ℕ) (s s1 s2 : State)
    → mutex ≢ 0
    → dequeue (Place.blocked_on mutex) (record s { taken = at s.taken mutex false }) ≡ (thread, s1)
    → enqueue fuel Place.ready thread s1 ≡ ok s2
    → release fuel mutex s ≡ ok (record s2 { head = at_place s2.head (Place.blocked_on mutex) 0 })
unfolding release
release_cons fuel mutex thread s s1 s2 m≢0 e1 e2 = ground (arith, m≢0, e1, e2)

release_lem :
    (fuel mutex thread : ℕ) (waiters : List ℕ) (s : State)
    → mutex ≢ 0
    → Distinct (thread ∷ waiters)
    → Queue (thread ∷ waiters) (s.head (Place.blocked_on mutex)) s.next
    → s.head Place.ready ≡ 0
    → Releases fuel mutex thread s
unfolding Releases Dequeues Enqueues Queue Absent Distinct
release_lem fuel mutex thread waiters s m≢0 d q none_ready =
    let (_, t≢0, _) = q in
    let (s1, run1, same1, queue1, clear1, other1, frame1) =
      dequeue_lem (Place.blocked_on mutex) thread waiters
        (record s { taken = at s.taken mutex false }) d q in
    let (s2, run2, same2, queue2, other2, frame2) =
      enqueue_lem fuel Place.ready thread s1 [] (ground arith) t≢0 clear1 tt tt
        (other1 Place.ready [] refl tt none_ready) in
    (
      record s2 { head = at_place s2.head (Place.blocked_on mutex) 0 },
      release_cons fuel mutex thread s s1 s2 m≢0 run1 run2,
      ap
            (λ (r : State). record r {
              head = at_place s2.head (Place.blocked_on mutex) 0;
              next = s2.next;
            })
            (same2)
          ∙ ap
              (λ (r : State). record r {
                head = at_place s2.head (Place.blocked_on mutex) 0;
                next = s2.next;
              })
              same1,
      queue2,
      ground arith,
      λ c ys ab qy. other2 (Place.waiting c) ys refl tt (other1 (Place.waiting c) ys refl ab qy),
    )

-- A thread that waits in `green_mutex_lock` returns from it without the lock if another one calls
-- `green_cond_wait` with that mutex: the mutex is marked as free, so that the next caller of
-- `green_mutex_lock` gets it too, and the other threads that wait for it are lost: the queue of the
-- mutex and the ready queue are empty, and the queue of the condition holds the threads that waited for
-- it and the caller. This is stated for a mutex and a condition other than NULL, a running thread on no
-- queue, threads `ws` that wait for the condition, fuel for them, no ready thread, and no thread on two
-- of the queues.
pub cond_wait-Unlocks :
    (fuel cond mutex thread : ℕ) (waiters ws : List ℕ) (s : State)
    → cond ≢ 0
    → mutex ≢ 0
    → length ws ≤ fuel
    → Queue ws (s.head (Place.waiting cond)) s.next
    → Queue (thread ∷ waiters) (s.head (Place.blocked_on mutex)) s.next
    → s.head Place.ready ≡ 0
    → AreApart (s.running ∷ ws) (thread ∷ waiters)
    → s.running ≢ 0
    → s.next s.running ≡ 0
    → s.context thread ≡ in_lock
    → Unlocks fuel cond mutex thread ws s
unfolding Unlocks Dispatches Enqueues AreApart Queue Absent Distinct Disjoint Releases
cond_wait-Unlocks fuel cond mutex thread waiters ws s c≢0 m≢0 le qc qm nr
      ((ar, dc), dm, (arm, dcm), (at_, dmc)) r≢0 nt lk =
    let (s1, run1, same1, queue1, other1, frame1) =
      enqueue_lem fuel (Place.waiting cond) s.running (block s) ws le r≢0 nt ar dc qc in
    let (s2, run2, same2, queue2, gone2, kept2) =
      release_lem fuel mutex thread waiters s1 m≢0 dm
        (other1 (Place.blocked_on mutex) (thread ∷ waiters) refl dcm qm)
        (other1 Place.ready [] refl (Disjoint-nil ws) nr) in
    let (s3, run3, same3, queue3, clear3, other3) =
      dispatch_lem failed_assert (in_wait mutex) thread [] s2 (tt, tt) queue2 in
    let (t≢r, aws) = at_ in
    let still : s2.running ≡ s.running =
      ap (λ (r : State). r.running) same2 ∙ ap (λ (r : State). r.running) same1 in
    let still_in_lock : s3.context thread ≡ in_lock =
      ap (λ (r : State). r.context thread) same3
      ∙ at_ne s2.context s2.running thread (in_wait mutex) (subst (λ r. thread ≢ r) (sym still) t≢r)
      ∙ ap (λ (r : State). r.context thread) same2
      ∙ ap (λ (r : State). r.context thread) same1
      ∙ lk in
    let runs : s3.running ≡ thread = ap (λ (r : State). r.running) same3 in
    (
      s3,
      green_wait_cons fuel cond mutex s r≢0 c≢0
          ∙ wait_cons fuel cond mutex s s1 s2 s3 r≢0 run1 run2 run3,
      runs,
      resume_in_lock fuel s3 (subst (λ t. s3.context t ≡ in_lock) (sym runs) still_in_lock),
      ap (λ (r : State). r.taken mutex) same3
          ∙ ap (λ (r : State). r.taken mutex) same2
          ∙ ground arith,
      other3 (Place.blocked_on mutex) [] refl tt gone2,
      queue3,
      (let ab = Absent-append thread s.running ws aws t≢r in
          other3 (Place.waiting cond) (ws ++ (s.running ∷ [])) refl ab
            (kept2 cond (ws ++ (s.running ∷ [])) ab queue1)),
    )
