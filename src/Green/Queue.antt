-- ===== src/Green/Queue.antt =====
-- `enqueue` and `dequeue` of seminar3/green.c: a chain of `next` pointers as a list of threads.
use mathlib.Core.Path.{subst}
use id.Base.{
  ℕ, zero, suc, ◌≤◌, ◌<◌, ◌≡◌, ◌≢◌, inl, inr, refl, sym, ap, ◌==◌, if◌then◌else◌, true, false, some,
  List, [], ◌∷◌, ◌++◌, arith, length,
}
use id.Links.{at, Queue, Absent, Distinct, Disjoint, Among, Queue-at, Absent-ne, Disjoint-Absent}
use id.Green.{State, Place, ok, dequeue, enqueue, last, at_place, same_place}

-- The loop of `enqueue` ends at a thread of the queue, and a link from there appends.
Last : ℕ → ℕ → List ℕ → (ℕ → ℕ) → Type 0
unfolding last Among Queue
Last fuel x xs next =
    (l : ℕ) × (last fuel x next ≡ some l)
    × Among l (x ∷ xs)
    × ((t : ℕ)
        → t ≢ 0
        → next t ≡ 0
        → Absent t (x ∷ xs)
        → Queue (x ∷ xs ++ (t ∷ [])) x (at next l t))

last_lem :
    (fuel x : ℕ) (xs : List ℕ) (next : ℕ → ℕ)
    → length xs < fuel
    → x ≢ 0
    → Queue xs (next x) next
    → Distinct (x ∷ xs)
    → Last fuel x xs next
unfolding Last last Among Queue Absent Distinct
last_lem zero x xs next lt x≢0 q d = elim lt [ ]
last_lem (suc k) x [] next lt x≢0 q d =
    (x, ground arith, inl refl, λ t t≢0 nt (t≢x, _). (refl, x≢0, (ground arith, t≢0, ground arith)))
last_lem (suc k) x (y ∷ ys) next lt x≢0 (e, y≢0, q) (ax, d) =
    let (l, el, il, f) = last_lem k y ys next (omega (arith, lt)) y≢0 q d in
    let x≢l : x ≢ l = Absent-ne x l (y ∷ ys) ax il in
    (
      l,
      subst (λ n. (if n == 0 then some x else last k n next) ≡ some l) (sym e)
          (ground (arith, el, y≢0)),
      inr il,
      λ t t≢0 nt (t≢x, at_). (
        refl,
        x≢0,
        subst (λ n. Queue (y ∷ ys ++ (t ∷ [])) n (at next l t)) (ground (arith, e, x≢l))
            (f t t≢0 nt at_),
      ),
    )

-- What `enqueue` does to the queue and to every other one, and that it changes nothing else.
unfoldable pub Enqueues : ℕ → Place → ℕ → State → List ℕ → Type 0
unfolding enqueue Queue Disjoint
Enqueues fuel list thread s xs =
    (s' : State) × (enqueue fuel list thread s ≡ ok s')
    × (s' ≡ record s { head = s'.head; next = s'.next })
    × Queue (xs ++ (thread ∷ [])) (s'.head list) s'.next
    × ((q : Place) (ys : List ℕ)
        → same_place q list ≡ false
        → Disjoint xs ys
        → Queue ys (s.head q) s.next
        → Queue ys (s'.head q) s'.next)
    × ((k : ℕ) → Absent k xs → s'.next k ≡ s.next k)

at_place_ne :
    (f : Place → ℕ) (p q : Place) (v : ℕ) → same_place q p ≡ false → at_place f p v q ≡ f q
at_place_ne f p q v ne = ap (λ b. if b then v else f q) ne

pub same_place_self : (p : Place) → same_place p p ≡ true
same_place_self Place.ready = refl
same_place_self (Place.waiting c) = ground arith
same_place_self (Place.blocked_on c) = ground arith

at_place_self : (f : Place → ℕ) (p : Place) (v : ℕ) → at_place f p v p ≡ v
at_place_self f p v = ap (λ b. if b then v else f p) (same_place_self p)

Absent-not : (k l : ℕ) (xs : List ℕ) → Absent k xs → Among l xs → l ≢ k
Absent-not k l xs a i e = Absent-ne k l xs a i (sym e)

enqueue_cons :
    (fuel : ℕ) (list : Place) (thread : ℕ) (s : State) (l : ℕ)
    → s.head list ≢ 0
    → last fuel (s.head list) s.next ≡ some l
    → enqueue fuel list thread s ≡ ok (record s { next = at s.next l thread })
unfolding enqueue
enqueue_cons fuel list thread s l h≢0 el = ground arith

pub enqueue_lem :
    (fuel : ℕ) (list : Place) (thread : ℕ) (s : State) (xs : List ℕ)
    → length xs ≤ fuel
    → thread ≢ 0
    → s.next thread ≡ 0
    → Absent thread xs
    → Distinct xs
    → Queue xs (s.head list) s.next
    → Enqueues fuel list thread s xs
unfolding Enqueues enqueue Queue Disjoint Last Among
enqueue_lem fuel list thread s [] le t≢0 nt a d q = (
  record s { head = at_place s.head list thread },
  ground (arith, q),
  refl,
  (at_place_self s.head list thread, t≢0, nt),
  λ p ys ne dj qy. subst (λ h. Queue ys h s.next) (sym (at_place_ne s.head list p thread ne)) qy,
  λ k ak. refl,
)
enqueue_lem fuel list thread s (x ∷ xs) le t≢0 nt a d (e, x≢0, q) =
    let (l, el, il, f) = last_lem fuel x xs s.next (omega (arith, le)) x≢0 q d in
    (
      record s { next = at s.next l thread },
      enqueue_cons fuel list thread s l (subst (λ h. h ≢ 0) (sym e) x≢0)
          (subst (λ h. last fuel h s.next ≡ some l) (sym e) el),
      refl,
      (let (e', x', q') = f thread t≢0 nt a in (e, x', q')),
      λ p ys ne dj qy.
          Queue-at ys (s.head p) l thread s.next qy (Disjoint-Absent l (x ∷ xs) ys il dj),
      λ k ak. ground (arith, Absent-not k l (x ∷ xs) ak il),
    )

-- What `dequeue` does to a queue that starts with `thread`, and that it changes nothing else.
unfoldable pub Dequeues : Place → ℕ → List ℕ → State → Type 0
unfolding dequeue Queue
Dequeues list thread xs s =
    (s' : State) × (dequeue list s ≡ (thread, s'))
    × (s' ≡ record s { head = s'.head; next = s'.next })
    × Queue xs (s'.head list) s'.next
    × (s'.next thread ≡ 0)
    × ((q : Place) (ys : List ℕ)
        → same_place q list ≡ false
        → Absent thread ys
        → Queue ys (s.head q) s.next
        → Queue ys (s'.head q) s'.next)
    × ((k : ℕ) → k ≢ thread → s'.next k ≡ s.next k)

dequeue_cons :
    (list : Place) (s : State)
    → s.head list ≢ 0
    → dequeue list s ≡ (
      s.head list,
      record s {
        head = at_place s.head list (s.next (s.head list));
        next = at s.next (s.head list) 0;
      },
    )
unfolding dequeue
dequeue_cons list s h≢0 = ground arith

pub dequeue_lem :
    (list : Place) (thread : ℕ) (xs : List ℕ) (s : State)
    → Distinct (thread ∷ xs)
    → Queue (thread ∷ xs) (s.head list) s.next
    → Dequeues list thread xs s
unfolding Dequeues Queue Distinct Absent
dequeue_lem list thread xs s (a, d) (e, t≢0, q) =
    let s1 : State = record s {
      head = at_place s.head list (s.next thread);
      next = at s.next thread 0;
    } in
    (
      s1,
      subst
          (λ h.
            dequeue list s
            ≡ (h, record s { head = at_place s.head list (s.next h); next = at s.next h 0 }))
          e (dequeue_cons list s (subst (λ h. h ≢ 0) (sym e) t≢0)),
      refl,
      subst (λ h. Queue xs h s1.next) (sym (at_place_self s.head list (s.next thread)))
          (Queue-at xs (s.next thread) thread 0 s.next q a),
      ground arith,
      λ p ys ne ay qy.
          subst (λ h. Queue ys h s1.next) (sym (at_place_ne s.head list p (s.next thread) ne))
            (Queue-at ys (s.head p) thread 0 s.next qy ay),
      λ k ne. ground (arith, ne),
    )

-- `thread` is appended to the queue, and another queue stays as it is.
unfoldable pub Appends : ℕ → Place → ℕ → State → List ℕ → Place → List ℕ → Type 0
unfolding enqueue Queue
Appends fuel list thread s xs q ys =
    (s' : State) × (enqueue fuel list thread s ≡ ok s')
    × Queue (xs ++ (thread ∷ [])) (s'.head list) s'.next
    × Queue ys (s'.head q) s'.next

-- With fuel for the threads of a queue, `enqueue` ends and appends a thread that is on no queue to
-- it, whether the queue is empty or not; any other queue that shares no thread with it is as before.
pub enqueue-Appends :
    (fuel : ℕ) (list : Place) (thread : ℕ) (s : State) (xs : List ℕ) (q : Place) (ys : List ℕ)
    → length xs ≤ fuel
    → thread ≢ 0
    → s.next thread ≡ 0
    → Absent thread xs
    → Distinct xs
    → Queue xs (s.head list) s.next
    → same_place q list ≡ false
    → Disjoint xs ys
    → Queue ys (s.head q) s.next
    → Appends fuel list thread s xs q ys
unfolding Appends Enqueues
enqueue-Appends fuel list thread s xs q ys le t≢0 nt a d qx ne dj qy =
    let (s', run, same, queue, other, frame) = enqueue_lem fuel list thread s xs le t≢0 nt a d qx in
    (s', run, queue, other q ys ne dj qy)

-- `thread` is taken off the queue with its link cleared, and another queue stays as it is.
unfoldable pub Removes : Place → ℕ → List ℕ → State → Place → List ℕ → Type 0
unfolding dequeue Queue
Removes list thread xs s q ys =
    (s' : State) × (dequeue list s ≡ (thread, s'))
    × Queue xs (s'.head list) s'.next
    × (s'.next thread ≡ 0)
    × Queue ys (s'.head q) s'.next

-- `dequeue` returns the first thread of a queue that is not empty, with a link of NULL, and leaves
-- the others in their order; any other queue that does not hold that thread is as before.
pub dequeue-Removes :
    (list : Place) (thread : ℕ) (xs : List ℕ) (s : State) (q : Place) (ys : List ℕ)
    → Distinct (thread ∷ xs)
    → Queue (thread ∷ xs) (s.head list) s.next
    → same_place q list ≡ false
    → Absent thread ys
    → Queue ys (s.head q) s.next
    → Removes list thread xs s q ys
unfolding Removes Dequeues
dequeue-Removes list thread xs s q ys d qx ne a qy =
    let (s', run, same, queue, cleared, other, frame) = dequeue_lem list thread xs s d qx in
    (s', run, queue, cleared, other q ys ne a qy)
