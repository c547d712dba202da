-- ===== src/Green/System/Switch.antt =====
-- What the switches of seminar3/green.c keep: `dispatch`, `green_yield`, `green_mutex_lock`, and the
-- second half of `green_cond_wait`.
use mathlib.Core.Path.{subst}
use id.Base.{
  if◌then◌else◌, ℕ, suc, ◌≤◌, ◌≡◌, ◌≢◌, inl, inr, refl, sym, ap, ◌∙◌, ◌==◌, true, false, Bool-cases,
  List, [], ◌∷◌, ◌++◌, arith,
}
use id.Links.{at, Among}
use id.Green.{
  State, Place, ready, blocked_on, Result, ok, null_access, failed_assert, Context, in_yield,
  in_lock, dequeue, enqueue, dispatch, block, unblock, and_then, green_yield, lock_at, retake,
  timer_handler,
}
use id.Green.Yield.{dispatch_cons}
use id.Green.Scheduler.{put_queue}
use id.Green.System.{Home, is_idle, active, queued, IsCore, IsSystem, at_home, at_home_self}
use id.Green.Scheduler.{Schedule, append, switch_to, rotate, tick, contend, view}
use id.Green.Scheduler.Heads.{switch_nil, switch_cons}
use id.Green.System.Sound.{Sound, Sound-if, Sound-subst, IsCore-same, IsSystem-same, ok-Sound}
use id.Green.System.Moves.{EnqueuesCore, enqueue-IsCore, DequeuesCore, dequeue-IsCore, dequeue_nil}

only_moved :
    (home : ℕ → Home) (x t : ℕ) → ((u : ℕ) → home u ≢ active) → at home x active t ≡ active → t ≡ x
only_moved home x t idle a = elim (Bool-cases (t == x)) [
  | inl e ↦ ground (arith, e)
  | inr e ↦ absurd (idle t (sym (at_home home x t active (ground (arith, e))) ∙ a))
]

pub none_moved :
    (home : ℕ → Home) (r t : ℕ) (h : Home)
    → h ≢ active
    → ((u : ℕ) → home u ≡ active → u ≡ r)
    → at home r h t ≢ active
none_moved home r t h off only a = elim (Bool-cases (t == r)) [
  | inl e ↦
      let e' : t ≡ r = ground (arith, e) in
      absurd (off (sym (subst (λ v. at home r h v ≡ h) (sym e') (at_home_self home r h)) ∙ a))
  | inr e ↦
      let ne : t ≢ r = ground (arith, e) in absurd (ne (only t (sym (at_home home r t h ne) ∙ a)))
]

pub dispatch_nil :
    (fault : Result State) (c : Context) (s : State)
    → dequeue ready s ≡ (0, s)
    → dispatch fault c s ≡ fault
unfolding dispatch
dispatch_nil fault c s e = ground (arith, e)

module _ {n : ℕ} {news : List ℕ} {q : Place → List ℕ} {home : ℕ → Home} {s : State}
    (c : IsCore n news q home s) (idle : (t : ℕ) → home t ≢ active) where
  -- The thread that is taken off the ready queue runs.
  pub next-IsSystem :
      (x : ℕ) (xs : List ℕ)
      → q ready ≡ x ∷ xs
      → (s1 : State) × (dequeue ready s ≡ (x, s1))
        × (x ≢ 0)
        × ((f : ℕ → Context)
            → IsSystem n news
                (put_queue q ready xs)
                (at home x active)
                (record s1 { running = x; context = f }))
        × (s1 ≡ record s { head = s1.head; next = s1.next })
  unfolding DequeuesCore Among
  next-IsSystem x xs e =
      let at_x : home x ≡ queued ready =
        c.homes ready x (subst (λ l. Among x l) (sym e) (inl refl)) in
      let (s1, run, same, core) = dequeue-IsCore ready x xs active c e refl in
      (
        s1,
        run,
        (λ z.
            let z' : home 0 ≡ queued ready = subst (λ t. home t ≡ queued ready) z at_x in
            let z'' = c.null in cc),
        (λ f. record {
          core =
              IsCore-same (record s1 { running = x; context = f }) core (omega arith) refl refl refl
                refl;
          runs = at_home_self home x active;
          only = λ t a. only_moved home x t idle a;
        }),
        same,
      )

  dispatch_from :
      (f : Result Schedule) (fault : Result State) (cx : Context) (xs : List ℕ)
      → Sound n news f fault
      → q ready ≡ xs
      → Sound n news (switch_to f cx (view q s)) (dispatch fault cx s)
  unfolding Sound
  dispatch_from f fault cx [] bad e =
      Sound-subst n news (switch_to f cx (view q s)) f (dispatch fault cx s) fault
        (switch_nil f cx (view q s) e) (dispatch_nil fault cx s (dequeue_nil ready c e)) bad
  dispatch_from f fault cx (x ∷ xs) bad e =
      let (s1, run, x≢0, y, same) = next-IsSystem x xs e in
      let q1 : Place → List ℕ = put_queue q ready xs in
      let to = λ (r : State). record r { running = x; context = at r.context s.running cx } in
      subst (λ r. Sound n news (switch_to f cx (view q s)) r)
        (sym (dispatch_cons fault cx s s1 x run x≢0))
        (
          q1,
          at home x active,
          y (at s1.context s.running cx),
          switch_cons f cx (view q s) x xs e ∙ ap (λ r. ok (view q1 (to r))) (sym same),
        )

  pub dispatch-Sound :
      (f : Result Schedule) (fault : Result State) (cx : Context)
      → Sound n news f fault
      → Sound n news (switch_to f cx (view q s)) (dispatch fault cx s)
  dispatch-Sound f fault cx bad = dispatch_from f fault cx (q ready) bad refl

-- What `enqueue` of the running thread leaves: a core in which no thread is active.
unfoldable pub Suspends : ℕ → ℕ → List ℕ → (Place → List ℕ) → Place → State → Type 0
Suspends fuel n news q p s =
    (s1 : State) × (enqueue fuel p s.running s ≡ ok s1)
    × (s1 ≡ record s { head = s1.head; next = s1.next })
    × (home : ℕ → Home) × IsCore (suc n) news (put_queue q p (q p ++ (s.running ∷ []))) home s1
    × ((t : ℕ) → home t ≢ active)

pub suspend_lem :
    {n : ℕ} {news : List ℕ} {q : Place → List ℕ} {home : ℕ → Home} {s : State} (fuel : ℕ)
    (p : Place)
    → IsSystem n news q home s
    → n ≤ fuel
    → Suspends fuel n news q p s
unfolding Suspends EnqueuesCore
suspend_lem {n} {news} {q} {home} {s} fuel p y le =
    let y_runs = y.runs in
    let (s1, run, same, core) =
      enqueue-IsCore fuel p s.running y.core le (ap is_idle y_runs) (λ u z e. cc) in
    (
      s1,
      run,
      same,
      at home s.running (queued p),
      core,
      λ t a. none_moved home s.running t (queued p) (λ e. cc) y.only a,
    )

module _ {n : ℕ} {news : List ℕ} {q : Place → List ℕ} {home : ℕ → Home} {s : State}
    (y : IsSystem n news q home s) (fuel : ℕ) (le : n ≤ fuel) where
  -- The running thread goes to the end of a queue, and the next one runs.
  switch-Sound :
      (p : Place) (f : Result Schedule) (fault : Result State) (cx : Context)
      → Sound (suc n) news f fault
      → Sound
          (suc n)
          news
          (switch_to f cx (append p s.running (view q s)))
          (and_then (enqueue fuel p s.running s) (λ s1. dispatch fault cx s1))
  unfolding Suspends
  switch-Sound p f fault cx bad =
      let (s1, run, same, home', core, none) = suspend_lem fuel p y le in
      let q1 : Place → List ℕ = put_queue q p (q p ++ (s.running ∷ [])) in
      Sound-subst (suc n) news _ _ _ _ (ap (λ r. switch_to f cx (view q1 r)) (sym same))
        (ap (λ r. and_then r (λ s2. dispatch fault cx s2)) run)
        (dispatch-Sound core none f fault cx bad)

module _ {n : ℕ} {news : List ℕ} {q : Place → List ℕ} {home : ℕ → Home} {s : State}
    (y : IsSystem n news q home s) (fuel : ℕ) (le : n ≤ fuel) where
  blocked : IsSystem n news q home (block s)
  blocked = IsSystem-same (block s) y (omega arith) refl refl refl refl refl

  pub yield-Sound : Sound (suc n) news (rotate (view q s)) (green_yield fuel s)
  unfolding green_yield rotate Sound
  yield-Sound = switch-Sound blocked fuel le ready null_access null_access in_yield refl

  pub timer-Sound : Sound (suc n) news (tick (view q s)) (timer_handler fuel s)
  unfolding timer_handler tick
  timer-Sound =
      Sound-if (suc n) news s.masked _ _ (ok s) (green_yield fuel s)
        (λ e. ok-Sound s y refl refl refl refl refl) (λ e. yield-Sound)

  -- The thread takes the mutex, or waits for it.
  contend_from :
      (f : Result Schedule) (fault : Result State) (m : ℕ)
      → Sound (suc n) news f fault
      → Sound (suc n) news (contend f m (view q s)) (
          if s.taken m
          then and_then (enqueue fuel (blocked_on m) s.running s) (λ s1. dispatch fault in_lock s1)
          else ok (unblock (record s { taken = at s.taken m true })))
  unfolding contend
  contend_from f fault m bad =
      Sound-if (suc n) news (s.taken m) _ _ _ _
        (λ e. switch-Sound y fuel le (blocked_on m) f fault in_lock bad)
        (λ e.
          ok-Sound (record s { masked = false; taken = at s.taken m true }) y refl refl refl refl
            refl)

module _ {n : ℕ} {news : List ℕ} {q : Place → List ℕ} {home : ℕ → Home} {s : State}
    (y : IsSystem n news q home s) (fuel : ℕ) (le : n ≤ fuel) where
  pub lock-Sound :
      (m : ℕ)
      → Sound
          (suc n)
          news
          (contend failed_assert m (record (view q s) { masked = true }))
          (lock_at fuel m s)
  unfolding lock_at Sound
  lock-Sound m = contend_from (blocked y fuel le) fuel le failed_assert failed_assert m refl

  pub retake-Sound :
      (m : ℕ)
      → Sound
          (suc n)
          news
          (if m == 0
            then ok (record (view q s) { masked = false })
            else contend null_access m (view q s))
          (retake fuel m s)
  unfolding retake Sound
  retake-Sound m =
      Sound-if (suc n) news (m == 0) _ _ _ _ (λ e. ok-Sound (unblock s) y refl refl refl refl refl)
        (λ e. contend_from y fuel le null_access null_access m refl)
