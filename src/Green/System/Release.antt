-- ===== src/Green/System/Release.antt =====
-- What `green_cond_wait` of seminar3/green.c does with its mutex.
use id.Base.{
  ℕ, suc, ◌≤◌, ◌≡◌, ◌≢◌, inl, inr, refl, sym, ap, ◌∙◌, ◌==◌, false, Bool-cases, List, [], ◌∷◌,
  arith, true, if◌then◌else◌,
}
use id.Links.{at}
use id.Green.{State, Place, ready, blocked_on, ok, dequeue, enqueue, release}
use id.Green.Wait.{release_cons}
use id.Green.Scheduler.{Schedule, put_queue, clear, wake, let_go, view}
use id.Green.Scheduler.Heads.{wake_nil, wake_cons}
use id.Green.System.{Home, active, IsCore}
use id.Green.System.Moves.{dequeue_nil, enqueue_null, reset, reset-IsCore}
use id.Green.System.Sound.{IsCore-same}
use id.Green.System.Transfer.{woken, Wakes, wake_lem}

pub release_none : (fuel m : ℕ) (s : State) → m ≡ 0 → release fuel m s ≡ ok s
unfolding release
release_none fuel m s e = ground (arith, e)

pub release_nil :
    (fuel m : ℕ) (s s1 : State)
    → m ≢ 0
    → dequeue (blocked_on m) (record s { taken = at s.taken m false })
      ≡ (0, record s { taken = at s.taken m false })
    → enqueue fuel ready 0 (record s { taken = at s.taken m false }) ≡ ok s1
    → release fuel m s ≡ ok (reset (blocked_on m) s1)
unfolding release
release_nil fuel m s s1 m≢0 e1 e2 = ground (arith, m≢0, e1, e2)

-- What `release` keeps.
unfoldable pub Released : ℕ → ℕ → List ℕ → (Place → List ℕ) → (ℕ → Home) → ℕ → State → Type 0
Released fuel n news q home m s =
    (s2 : State) × (release fuel m s ≡ ok s2)
    × (q' : Place → List ℕ) × (home' : ℕ → Home) × IsCore (suc n) news q' home' s2
    × ((t : ℕ) → home' t ≡ active → home t ≡ active)
    × (let_go m (view q s) ≡ view q' s2)

let_go_none : (m : ℕ) (a : Schedule) → m ≡ 0 → let_go m a ≡ a
unfolding let_go
let_go_none m a e =
    let is_null : (m == 0) ≡ true = ground (arith, e) in
    ap
      (λ b.
        if b
        then a
        else clear (blocked_on m) (wake (blocked_on m) (record a { taken = at a.taken m false })))
      is_null

let_go_some :
    (m : ℕ) (a : Schedule)
    → m ≢ 0
    → let_go m a
      ≡ clear (blocked_on m) (wake (blocked_on m) (record a { taken = at a.taken m false }))
unfolding let_go
let_go_some m a ne =
    let is_set : (m == 0) ≡ false = ground (arith, ne) in
    ap
      (λ b.
        if b
        then a
        else clear (blocked_on m) (wake (blocked_on m) (record a { taken = at a.taken m false })))
      is_set

Released-from :
    {n : ℕ} {news : List ℕ} {q : Place → List ℕ} {home : ℕ → Home} {s : State} (fuel m : ℕ)
    (xs : List ℕ)
    → IsCore n news q home s
    → n ≤ fuel
    → m ≢ 0
    → q (blocked_on m) ≡ xs
    → Released fuel n news q home m s
unfolding Released Wakes
Released-from {n} {news} {q} {home} {s} fuel m [] c le m≢0 e =
    let s0 : State = record s { taken = at s.taken m false } in
    let c0 : IsCore n news q home s0 = IsCore-same s0 c (omega arith) refl refl refl refl in
    let core = reset-IsCore (blocked_on m) c0 in
    (
      reset (blocked_on m) s0,
      release_nil fuel m s s0 m≢0 (dequeue_nil (blocked_on m) c0 e) (enqueue_null fuel ready c0 le),
      put_queue q (blocked_on m) [],
      home,
      IsCore-same (reset (blocked_on m) s0) core (omega arith) refl refl refl refl,
      (λ t a. a),
      let_go_some m (view q s) m≢0
          ∙ ap (λ a. clear (blocked_on m) a) (wake_nil (view q s0) (blocked_on m) e),
    )
Released-from {n} {news} {q} {home} {s} fuel m (x ∷ xs) c le m≢0 e =
    let p : Place = blocked_on m in
    let s0 : State = record s { taken = at s.taken m false } in
    let c0 : IsCore n news q home s0 = IsCore-same s0 c (omega arith) refl refl refl refl in
    let (s1, s2, run1, run2, same, head, more, home', core, back, forth) =
      wake_lem fuel p x xs c0 le e in
    let q1 : Place → List ℕ = woken q p x xs in
    (
      reset p s2,
      release_cons fuel m x s s1 s2 m≢0 run1 run2,
      put_queue q1 p [],
      home',
      reset-IsCore p core,
      back,
      let_go_some m (view q s) m≢0
          ∙ ap (λ a. clear p a) (wake_cons (view q s0) p x xs e)
          ∙ ap (λ r. view (put_queue q1 p []) r) (sym same),
    )

pub released_lem :
    {n : ℕ} {news : List ℕ} {q : Place → List ℕ} {home : ℕ → Home} {s : State} (fuel m : ℕ)
    → IsCore n news q home s
    → n ≤ fuel
    → Released fuel n news q home m s
unfolding Released
released_lem {n} {news} {q} {home} {s} fuel m c le = elim (Bool-cases (m == 0)) [
  | inl e ↦ (
    s,
    release_none fuel m s (ground (arith, e)),
    q,
    home,
    IsCore-same s c (omega arith) refl refl refl refl,
    (λ t a. a),
    let_go_none m (view q s) (ground (arith, e)),
  )
  | inr e ↦ Released-from fuel m (q (blocked_on m)) c le (ground (arith, e)) refl
]
