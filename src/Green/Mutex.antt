-- ===== src/Green/Mutex.antt =====
-- The mutexes and the condition variables of seminar3/green.c.
use mathlib.Core.Path.{subst}
use id.Base.{ℕ, ◌≤◌, ◌≡◌, ◌≢◌, refl, sym, ap, ◌∙◌, true, false, List, [], ◌∷◌, ◌++◌, arith, length}
use id.Links.{at, Queue, Absent, Distinct, Disjoint}
use id.Green.{
  State, Place, ok, failed_assert, Context, dequeue, enqueue, dispatch, block, unblock, in_lock,
  lock_at, unlock_at, green_mutex_lock, green_mutex_unlock, deref, Result, resume,
}
use id.Green.Queue.{Enqueues, enqueue_lem, Dequeues, dequeue_lem}
use id.Green.Yield.{Dispatches, dispatch_lem, Absent-append}

-- Two queues, and what the lists of their threads have to satisfy.
unfoldable pub AreApart : List ℕ → List ℕ → Type 0
unfolding Distinct Disjoint
AreApart xs ys = Distinct xs × Distinct ys × Disjoint xs ys × Disjoint ys xs

Disjoint-tail : (t : ℕ) (ys xs : List ℕ) → Disjoint xs (t ∷ ys) → Disjoint xs ys
unfolding Disjoint Absent
Disjoint-tail t ys [] d = tt
Disjoint-tail t ys (x ∷ xs) ((_, a), d) = (a, Disjoint-tail t ys xs d)

-- The lock is passed on to `thread`: it is still taken, that thread is the last of the ready ones,
-- and the others still wait.
unfoldable pub Hands : ℕ → ℕ → ℕ → List ℕ → List ℕ → State → Type 0
unfolding green_mutex_unlock Queue
Hands fuel mutex thread waiters xs s =
    (s' : State) × (green_mutex_unlock fuel mutex s ≡ ok s')
    × (s'.taken mutex ≡ s.taken mutex)
    × Queue (xs ++ (thread ∷ [])) (s'.head Place.ready) s'.next
    × Queue waiters (s'.head (Place.blocked_on mutex)) s'.next
    × (s'.masked ≡ false)

pub unlock_cons :
    (fuel mutex thread : ℕ) (s s1 s2 : State)
    → s.head (Place.blocked_on mutex) ≢ 0
    → dequeue (Place.blocked_on mutex) (block s) ≡ (thread, s1)
    → enqueue fuel Place.ready thread s1 ≡ ok s2
    → unlock_at fuel mutex s ≡ ok (unblock s2)
unfolding unlock_at
unlock_cons fuel mutex thread s s1 s2 h≢0 e1 e2 = ground (arith, h≢0, e1, e2)

pub deref_ne : {A : Type 0} (p : ℕ) (r : Result A) → p ≢ 0 → deref p r ≡ r
deref_ne p r ne = ground (arith, ne)

-- With a mutex other than NULL, threads that wait for it, fuel for the ready threads, and no thread twice
-- on these two queues, `green_mutex_unlock` makes the first waiting thread ready, behind the others, and
-- leaves the mutex as taken as it was: the lock goes to that thread. The other threads still wait, in
-- their order, and the signal is unblocked.
pub unlock-Hands :
    (fuel mutex thread : ℕ) (waiters xs : List ℕ) (s : State)
    → mutex ≢ 0
    → length xs ≤ fuel
    → Queue (thread ∷ waiters) (s.head (Place.blocked_on mutex)) s.next
    → Queue xs (s.head Place.ready) s.next
    → AreApart (thread ∷ waiters) xs
    → Hands fuel mutex thread waiters xs s
unfolding green_mutex_unlock Hands Dequeues Enqueues AreApart Queue Absent Distinct Disjoint
unlock-Hands fuel mutex thread waiters xs s m≢0 le qw qr (dw, dr, (a, dwr), drw) =
    let (e, t≢0, _) = qw in
    let (s1, run1, same1, queue1, clear1, other1, frame1) =
      dequeue_lem (Place.blocked_on mutex) thread waiters (block s) dw qw in
    let (s2, run2, same2, queue2, other2, frame2) =
      enqueue_lem fuel Place.ready thread s1 xs le t≢0 clear1 a dr
        (other1 Place.ready xs refl a qr) in
    (
      unblock s2,
      deref_ne mutex (unlock_at fuel mutex s) m≢0
          ∙ unlock_cons fuel mutex thread s s1 s2 (subst (λ h. h ≢ 0) (sym e) t≢0) run1 run2,
      ap (λ (r : State). r.taken mutex) (same2) ∙ ap (λ (r : State). r.taken mutex) same1,
      queue2,
      other2 (Place.blocked_on mutex) waiters refl (Disjoint-tail thread waiters xs drw) queue1,
      refl,
    )

pub at_self : (f : ℕ → Context) (k i : ℕ) (v : Context) → i ≡ k → at f k v i ≡ v
at_self f k i v e = ground arith

pub at_ne : (f : ℕ → Context) (k i : ℕ) (v : Context) → i ≢ k → at f k v i ≡ f i
at_ne f k i v ne = ground arith

pub resume_in_lock :
    (fuel : ℕ) (s : State) → s.context s.running ≡ in_lock → resume fuel s ≡ ok (unblock s)
unfolding resume
resume_in_lock fuel s e = ground (arith, e)

-- The state in which `thread` runs again, in its context in `s`, when all else is as in `t`.
abbrev pub again : ℕ → State → State → State
again thread s t = record t { running = thread; context = at t.context thread (s.context thread) }

-- Whatever else has happened, when `thread` runs again in the context that it has in `s`, it returns from
-- `green_mutex_lock` at once: only the signal is unblocked.
abbrev pub Returns : ℕ → ℕ → State → Type 0
Returns fuel thread s =
    (t : State) → resume fuel (again thread s t) ≡ ok (unblock (again thread s t))

returns_lem : (fuel thread : ℕ) (s : State) → s.context thread ≡ in_lock → Returns fuel thread s
returns_lem fuel thread s lk t =
    resume_in_lock fuel (again thread s t)
      (at_self t.context thread thread (s.context thread) refl ∙ lk)

-- The running thread waits behind `waiters`, and `thread` runs with `xs` ready. When the thread runs
-- again, it returns from `green_mutex_lock`.
unfoldable pub Waits : ℕ → ℕ → ℕ → List ℕ → List ℕ → State → Type 0
unfolding green_mutex_lock resume Queue
Waits fuel mutex thread waiters xs s =
    (s' : State) × (green_mutex_lock fuel mutex s ≡ ok s')
    × (s'.running ≡ thread)
    × (s'.taken mutex ≡ s.taken mutex)
    × Returns fuel s.running s'
    × Queue xs (s'.head Place.ready) s'.next
    × Queue (waiters ++ (s.running ∷ [])) (s'.head (Place.blocked_on mutex)) s'.next

lock_cons :
    (fuel mutex : ℕ) (s s1 s2 : State)
    → s.taken mutex ≡ true
    → enqueue fuel (Place.blocked_on mutex) s.running (block s) ≡ ok s1
    → dispatch failed_assert in_lock s1 ≡ ok s2
    → lock_at fuel mutex s ≡ ok s2
unfolding lock_at
lock_cons fuel mutex s s1 s2 tk e1 e2 = ground (arith, tk, e1, e2)

-- If the mutex is not NULL and is taken, there is fuel for the threads that wait for it, some thread is
-- ready, and the running thread, the waiting and the ready ones are all different, `green_mutex_lock`
-- puts the running thread behind the ones that wait, and the first ready thread runs, with the rest of
-- them still ready in their order. The mutex stays taken, and whenever the suspended thread runs again
-- in the context that is saved for it here, it returns from `green_mutex_lock`.
pub lock-Waits :
    (fuel mutex thread : ℕ) (waiters xs : List ℕ) (s : State)
    → mutex ≢ 0
    → s.taken mutex ≡ true
    → length waiters ≤ fuel
    → Queue waiters (s.head (Place.blocked_on mutex)) s.next
    → Queue (thread ∷ xs) (s.head Place.ready) s.next
    → AreApart (s.running ∷ waiters) (thread ∷ xs)
    → s.running ≢ 0
    → s.next s.running ≡ 0
    → Waits fuel mutex thread waiters xs s
unfolding green_mutex_lock Waits Dispatches Enqueues AreApart Queue Absent Distinct Disjoint
lock-Waits fuel mutex thread waiters xs s m≢0 tk le qw qr ((ar, dw), dr, (art, dwr), (at_, drw)) r≢0
      nt =
    let (s1, run1, same1, queue1, other1, frame1) =
      enqueue_lem fuel (Place.blocked_on mutex) s.running (block s) waiters le r≢0 nt ar dw qw in
    let (s2, run2, same2, queue2, clear2, other2) =
      dispatch_lem failed_assert in_lock thread xs s1 dr
        (other1 Place.ready (thread ∷ xs) refl dwr qr) in
    (
      s2,
      deref_ne mutex (lock_at fuel mutex s) m≢0 ∙ lock_cons fuel mutex s s1 s2 tk run1 run2,
      ap (λ (r : State). r.running) same2,
      ap (λ (r : State). r.taken mutex) same2 ∙ ap (λ (r : State). r.taken mutex) same1,
      returns_lem fuel s.running s2 (
          ap (λ (r : State). r.context s.running) same2
          ∙ at_self s1.context s1.running s.running in_lock
              (sym (ap (λ (r : State). r.running) same1))),
      queue2,
      other2 (Place.blocked_on mutex) (waiters ++ (s.running ∷ [])) refl
          (let (ne, aw) = at_ in Absent-append thread s.running waiters aw ne) queue1,
    )
