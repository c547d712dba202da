-- ===== src/Green/System/Moves.antt =====
-- `enqueue` and `dequeue` of seminar3/green.c on all the queues at once.
use mathlib.Core.Path.{subst}
use id.Base.{
  fun_ext, some, ℕ, zero, suc, ◌≤◌, ◌<◌, ◌≡◌, ◌≢◌, ◌⊎◌, inl, inr, refl, sym, ap, ◌∙◌, ◌==◌, true,
  false, Bool-cases, List, [], ◌∷◌, ◌++◌, arith, length, length-append, if◌then◌else◌,
}
use id.Links.{at, Absent-ne, Queue, Distinct, Among}
use id.Green.{State, Place, ok, dequeue, enqueue, last, at_place, same_place}
use id.Green.Queue.{Enqueues, enqueue_lem, Dequeues, dequeue_lem, same_place_self}
use id.Green.Yield.{Distinct-append}
use id.Green.Scheduler.{put_queue}
use id.Green.System.{
  Home, fresh, joining, queued, is_idle, IsCore, same_place_eq, Among-append, put_queue_ind,
  queued_ne, queues-Disjoint, home-Absent, at_home, at_home_self, home_kept, alive_kept, idle_lives,
  joins_kept, at_home_kept, idle_known, idle_unqueued, idle_before, idle_cases,
}

-- `enqueue` of an idle thread.
unfoldable pub EnqueuesCore :
    ℕ → ℕ → List ℕ → (Place → List ℕ) → (ℕ → Home) → Place → ℕ → State → Type 0
EnqueuesCore fuel n news q home p t s =
    (s' : State) × (enqueue fuel p t s ≡ ok s')
    × (s' ≡ record s { head = s'.head; next = s'.next })
    × IsCore (suc n) news (put_queue q p (q p ++ (t ∷ []))) (at home t (queued p)) s'

pub enqueue-IsCore :
    {n : ℕ} {news : List ℕ} {q : Place → List ℕ} {home : ℕ → Home} {s : State} (fuel : ℕ)
    (p : Place) (t : ℕ)
    → IsCore n news q home s
    → n ≤ fuel
    → is_idle (home t) ≡ true
    → ((u : ℕ) → s.zombie u ≡ false → home t ≢ joining u)
    → EnqueuesCore fuel n news q home p t s
unfolding EnqueuesCore Enqueues Distinct
enqueue-IsCore {n} {news} {q} {home} {s} fuel p t c le idle free =
    let known : home t ≢ fresh = idle_known (home t) idle in
    let t≢0 : t ≢ 0 = λ e. known (ap home e ∙ c.null) in
    let away : (r : Place) → home t ≢ queued r = λ r. idle_unqueued (home t) r idle in
    let (s1, run, same, queue, other, frame) =
      enqueue_lem fuel p t s (q p) (omega (arith, c.short p, le)) t≢0 (c.clear t idle)
        (home-Absent c t p (away p)) (c.distinct p) (c.queues p) in
    let zombies : s1.zombie ≡ s.zombie = ap (λ (r : State). r.zombie) same in
    let joiners : s1.join ≡ s.join = ap (λ (r : State). r.join) same in
    let xs : List ℕ = q p ++ (t ∷ []) in
    let home' : ℕ → Home = at home t (queued p) in
    (
      s1,
      run,
      same,
      record {
        queues =
            put_queue_ind q p xs (λ r l. Queue l (s1.head r) s1.next) queue
              (λ r ne. other r (q r) ne (queues-Disjoint c p r ne) (c.queues r));
        distinct =
            put_queue_ind q p xs (λ r l. Distinct l)
              (Distinct-append t (q p) (home-Absent c t p (away p), c.distinct p))
              (λ r ne. c.distinct r);
        homes =
            put_queue_ind q p xs (λ r l. (u : ℕ) → Among u l → home' u ≡ queued r)
              (λ u a. elim (Among-append u t (q p) a) [
                | inl b ↦ at_home_kept home t u (queued p) (c.homes p u b)
                | inr e ↦ subst (λ v. home' v ≡ queued p) (sym e) (at_home_self home t (queued p))
              ])
              (λ r ne u a.
                at_home home t u (queued p) (λ e. away r (sym (ap home e) ∙ c.homes r u a))
                ∙ c.homes r u a);
        short =
            put_queue_ind q p xs (λ r l. length l ≤ suc n)
              (omega (arith, length-append (q p) (t ∷ []), c.short p))
              (λ r ne. omega (arith, c.short r));
        null = home_kept home t 0 (queued p) fresh known c.null;
        clear = λ u i.
            let (ne, before) = idle_before home t u (queued p) refl i in
            frame u (home-Absent c u p (idle_unqueued (home u) p before)) ∙ c.clear u before;
        joins = λ u z.
            let z' : s.zombie u ≡ false = sym (ap (λ f. f u) zombies) ∙ z in
            subst (λ j. (j ≡ 0) ⊎ (home' j ≡ joining u)) (sym (ap (λ f. f u) joiners))
              (joins_kept home t u (s.join u) (queued p) (free u z') (c.joins u z'));
        alive = λ u nf ne.
            ap (λ f. f u) zombies
            ∙ alive_kept home t (queued p) s.zombie known (idle_lives (home t) idle) c.alive u nf
                ne;
        coming = λ u a. home_kept home t u (queued p) fresh known (c.coming u a);
      },
    )

-- `dequeue` of the first thread of a queue, for a new home.
unfoldable pub DequeuesCore :
    ℕ → List ℕ → (Place → List ℕ) → (ℕ → Home) → Place → ℕ → List ℕ → Home → State → Type 0
DequeuesCore n news q home p t xs h s =
    (s' : State) × (dequeue p s ≡ (t, s'))
    × (s' ≡ record s { head = s'.head; next = s'.next })
    × IsCore n news (put_queue q p xs) (at home t h) s'

pub dequeue-IsCore :
    {n : ℕ} {news : List ℕ} {q : Place → List ℕ} {home : ℕ → Home} {s : State} (p : Place) (t : ℕ)
    (xs : List ℕ) (h : Home)
    → IsCore n news q home s
    → q p ≡ t ∷ xs
    → is_idle h ≡ true
    → DequeuesCore n news q home p t xs h s
unfolding DequeuesCore Dequeues Distinct Among
dequeue-IsCore {n} {news} {q} {home} {s} p t xs h c e idle =
    let at_p : home t ≡ queued p = c.homes p t (subst (λ l. Among t l) (sym e) (inl refl)) in
    let known : home t ≢ fresh = λ f. cc in
    let dp : Distinct (t ∷ xs) = subst (λ l. Distinct l) e (c.distinct p) in
    let (s1, run, same, queue, cleared, other, frame) =
      dequeue_lem p t xs s dp (subst (λ l. Queue l (s.head p) s.next) e (c.queues p)) in
    let home' : ℕ → Home = at home t h in
    let (t_off, dxs) = dp in
    (
      s1,
      run,
      same,
      record {
        queues =
            put_queue_ind q p xs (λ r l. Queue l (s1.head r) s1.next) queue
              (λ r ne.
                other r (q r) ne (home-Absent c t r (λ f. queued_ne r p ne (sym f ∙ at_p)))
                  (c.queues r));
        distinct = put_queue_ind q p xs (λ r l. Distinct l) dxs (λ r ne. c.distinct r);
        homes =
            put_queue_ind q p xs (λ r l. (u : ℕ) → Among u l → home' u ≡ queued r)
              (λ u a.
                at_home home t u h (λ f. Absent-ne t u xs t_off a (sym f))
                ∙ c.homes p u (subst (λ l. Among u l) (sym e) (inr a)))
              (λ r ne u a.
                at_home home t u h (λ f. queued_ne r p ne (sym (c.homes r u a) ∙ ap home f ∙ at_p))
                ∙ c.homes r u a);
        short =
            put_queue_ind q p xs (λ r l. length l ≤ n) (omega (arith, c.short p, ap length e))
              (λ r ne. c.short r);
        null = home_kept home t 0 h fresh known c.null;
        clear = λ u i. elim (idle_cases home t u h i) [
          | inl f ↦ subst (λ v. s1.next v ≡ 0) (sym f) cleared
          | inr (ne, before) ↦ frame u ne ∙ c.clear u before
        ];
        joins = λ u z.
            let z' : s.zombie u ≡ false = sym (ap (λ (r : State). r.zombie u) same) ∙ z in
            subst (λ j. (j ≡ 0) ⊎ (home' j ≡ joining u)) (sym (ap (λ (r : State). r.join u) same))
              (joins_kept home t u (s.join u) h (λ f. cc) (c.joins u z'));
        alive = λ u nf ne.
            ap (λ (r : State). r.zombie u) same
            ∙ alive_kept home t h s.zombie known (λ f. cc) c.alive u nf ne;
        coming = λ u a. home_kept home t u h fresh known (c.coming u a);
      },
    )

pub dequeue_nil :
    {n : ℕ} {news : List ℕ} {q : Place → List ℕ} {home : ℕ → Home} {s : State} (p : Place)
    → IsCore n news q home s
    → q p ≡ []
    → dequeue p s ≡ (0, s)
unfolding dequeue Queue
dequeue_nil {s = s} p c e =
    let none : s.head p ≡ 0 = subst (λ l. Queue l (s.head p) s.next) e (c.queues p) in
    ground (arith, none)

-- `list = NULL`.
abbrev pub reset : Place → State → State
reset p s = record s { head = at_place s.head p 0 }

pub reset-IsCore :
    {n : ℕ} {news : List ℕ} {q : Place → List ℕ} {home : ℕ → Home} {s : State} (p : Place)
    → IsCore n news q home s
    → IsCore n news (put_queue q p []) home (reset p s)
unfolding Queue Distinct Among
reset-IsCore {n} {news} {q} {home} {s} p c = record {
  queues =
      put_queue_ind q p [] (λ r l. Queue l (at_place s.head p 0 r) s.next)
        (ap (λ b. if b then 0 else s.head p) (same_place_self p))
        (λ r ne.
          subst (λ h. Queue (q r) h s.next) (sym (ap (λ b. if b then 0 else s.head r) ne))
            (c.queues r));
  distinct = put_queue_ind q p [] (λ r l. Distinct l) tt (λ r ne. c.distinct r);
  homes =
      put_queue_ind q p [] (λ r l. (u : ℕ) → Among u l → home u ≡ queued r) (λ u a. elim a [ ])
        (λ r ne. c.homes r);
  short = put_queue_ind q p [] (λ r l. length l ≤ n) (omega arith) (λ r ne. c.short r);
  null = c.null;
  clear = c.clear;
  joins = c.joins;
  alive = c.alive;
  coming = c.coming;
}

-- The loop of `enqueue` ends at a thread whose link is NULL.
last_null :
    (fuel x : ℕ) (xs : List ℕ) (next : ℕ → ℕ)
    → length xs < fuel
    → Queue xs (next x) next
    → (l : ℕ) × (last fuel x next ≡ some l) × (next l ≡ 0)
unfolding last Queue
last_null zero x xs next lt q = elim lt [ ]
last_null (suc k) x [] next lt q = (x, ground (arith, q), q)
last_null (suc k) x (y ∷ ys) next lt (e, y≢0, q) =
    let (l, el, nl) = last_null k y ys next (omega (arith, lt)) q in
    (
      l,
      subst (λ n. (if n == 0 then some x else last k n next) ≡ some l) (sym e)
          (ground (arith, el, y≢0)),
      nl,
    )

at_same : (f : ℕ → ℕ) (k v : ℕ) → f k ≡ v → at f k v ≡ f
at_same f k v e = fun_ext (λ i. ground (arith, e, ap f))

at_place_same : (f : Place → ℕ) (p : Place) → f p ≡ 0 → at_place f p 0 ≡ f
at_place_same f p e = fun_ext (λ r. elim (Bool-cases (same_place r p)) [
  | inl h ↦ ap (λ b. if b then 0 else f r) h ∙ sym (ap f (same_place_eq r p h) ∙ e)
  | inr h ↦ ap (λ b. if b then 0 else f r) h
])

enqueue_empty :
    (fuel : ℕ) (p : Place) (s : State)
    → s.head p ≡ 0
    → enqueue fuel p 0 s ≡ ok (record s { head = at_place s.head p 0 })
unfolding enqueue
enqueue_empty fuel p s e = ground (arith, e)

enqueue-last :
    (fuel l : ℕ) (p : Place) (s : State)
    → s.head p ≢ 0
    → last fuel (s.head p) s.next ≡ some l
    → enqueue fuel p 0 s ≡ ok (record s { next = at s.next l 0 })
unfolding enqueue
enqueue-last fuel l p s ne e = ground (arith, ne, e)

enqueue_null_of :
    (fuel : ℕ) (p : Place) (xs : List ℕ) (s : State)
    → Queue xs (s.head p) s.next
    → length xs ≤ fuel
    → enqueue fuel p 0 s ≡ ok s
unfolding Queue
enqueue_null_of fuel p [] s e le =
    enqueue_empty fuel p s e ∙ ap (λ f. ok (record s { head = f })) (at_place_same s.head p e)
enqueue_null_of fuel p (x ∷ xs) s (e, x≢0, q) le =
    let (l, el, nl) = last_null fuel x xs s.next (omega (arith, le)) q in
    enqueue-last fuel l p s (subst (λ h. h ≢ 0) (sym e) x≢0)
      (subst (λ h. last fuel h s.next ≡ some l) (sym e) el)
    ∙ ap (λ f. ok (record s { next = f })) (at_same s.next l 0 nl)

-- `enqueue` of NULL changes nothing.
pub enqueue_null :
    {n : ℕ} {news : List ℕ} {q : Place → List ℕ} {home : ℕ → Home} {s : State} (fuel : ℕ)
    (p : Place)
    → IsCore n news q home s
    → n ≤ fuel
    → enqueue fuel p 0 s ≡ ok s
enqueue_null {q = q} {s = s} fuel p c le =
    enqueue_null_of fuel p (q p) s (c.queues p) (omega (arith, c.short p, le))
