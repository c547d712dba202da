-- ===== src/Green/System/Spawn.antt =====
-- Threads that come and go: `green_create`, `green_join` and the end of `green_thread` of seminar3/green.c.
use mathlib.Core.Path.{subst}
use id.Base.{
  ℕ, suc, ◌≤◌, ◌≡◌, ◌≢◌, ◌⊎◌, inl, inr, refl, sym, ap, ◌∙◌, ◌==◌, Bool, true, false, Bool-cases,
  List, [], ◌∷◌, ◌++◌, arith,
}
use id.Links.{at, Among}
use id.Green.{
  State, Place, ready, ok, null_access, block, unblock, in_join, green_create, join_at, collect,
  released, is_released,
}
use id.Green.Scheduler.{put_queue}
use id.Green.System.{
  Home, is_idle, fresh, active, joining, queued, IsCore, IsSystem, at_home, at_home_self,
}
use id.Green.System.Moves.{EnqueuesCore, enqueue-IsCore}
use id.Green.Scheduler.{spawn, deliver, await, view}
use id.Green.System.Sound.{Sound, Sound-if, IsCore-same, IsSystem-same, Sound-le, ok-Sound}
use id.Green.System.Switch.{none_moved, dispatch-Sound}
use id.Links.{Queue-at, Absent, Absent-ne}
use id.Green.System.{home-Absent, home_kept, alive_kept, idle_cases, joins_kept}
use id.Green.Lifecycle.{prepared, create_cons}

at_self : (f : ℕ → ℕ) (k v : ℕ) → at f k v k ≡ v
at_self f k v = ground arith

at_ne : (f : ℕ → ℕ) (k i v : ℕ) → i ≢ k → at f k v i ≡ f i
at_ne f k i v ne = ground arith

pub flag_self : (f : ℕ → Bool) (k : ℕ) (v : Bool) → at f k v k ≡ v
flag_self f k v = ground arith

pub flag_ne : (f : ℕ → Bool) (k i : ℕ) (v : Bool) → i ≢ k → at f k v i ≡ f i
flag_ne f k i v ne = ground arith

-- A thread that is not created yet, once its members are set.
pub prepared-IsCore :
    {n : ℕ} {news : List ℕ} {q : Place → List ℕ} {home : ℕ → Home} {s : State} (new f a : ℕ)
    → IsCore n (new ∷ news) q home s
    → new ≢ 0
    → Absent new news
    → IsCore n news q (at home new active) (prepared new f a s)
unfolding prepared Among
prepared-IsCore {n} {news} {q} {home} {s} new f a c n≢0 once =
    let is_fresh : home new ≡ fresh = c.coming new (inl refl) in
    let home' : ℕ → Home = at home new active in
    record {
      queues =
          λ p. Queue-at (q p) (s.head p) new 0 s.next (c.queues p) (home-Absent c new p (λ e. cc));
      distinct = c.distinct;
      homes = λ p t b.
          at_home home new t active (λ e.
            let g : home t ≡ fresh = subst (λ v. home v ≡ fresh) (sym e) is_fresh in
            let k = c.homes p t b in cc)
          ∙ c.homes p t b;
      short = c.short;
      null = at_home home new 0 active (λ e. n≢0 (sym e)) ∙ c.null;
      clear = λ t i. elim (idle_cases home new t active i) [
        | inl e ↦ subst (λ v. at s.next new 0 v ≡ 0) (sym e) (at_self s.next new 0)
        | inr (ne, before) ↦ at_ne s.next new t 0 ne ∙ c.clear t before
      ];
      joins = λ t z. elim (Bool-cases (t == new)) [
        | inl e ↦
            inl
              (subst (λ v. at s.join new 0 v ≡ 0) (sym (ground (arith, e))) (at_self s.join new 0))
        | inr e ↦
            let ne : t ≢ new = ground (arith, e) in
            subst (λ j. (j ≡ 0) ⊎ (home' j ≡ joining t)) (sym (at_ne s.join new t 0 ne))
              (joins_kept home new t (s.join t) active (λ h. cc)
                (c.joins t (sym (flag_ne s.zombie new t false ne) ∙ z)))
      ];
      alive = λ t nf live. elim (Bool-cases (t == new)) [
        | inl e ↦
            subst (λ v. at s.zombie new false v ≡ false) (sym (ground (arith, e)))
              (flag_self s.zombie new false)
        | inr e ↦
            let ne : t ≢ new = ground (arith, e) in
            let same : home' t ≡ home t = at_home home new t active ne in
            flag_ne s.zombie new t false ne ∙ c.alive t (λ h. nf (same ∙ h)) (λ h. live (same ∙ h))
      ];
      coming = λ t b.
          at_home home new t active (λ e. Absent-ne new t news once b (sym e)) ∙ c.coming t (inr b);
    }

-- The home of another thread after `new` was moved twice.
moved_on : (home : ℕ → Home) (x t : ℕ) (g h : Home) → t ≢ x → at (at home x g) x h t ≡ home t
moved_on home x t g h ne = at_home (at home x g) x t h ne ∙ at_home home x t g ne

pub create-Sound :
    {n : ℕ} {news : List ℕ} {q : Place → List ℕ} {home : ℕ → Home} {s : State} (fuel new f a : ℕ)
    → IsSystem n (new ∷ news) q home s
    → n ≤ fuel
    → new ≢ 0
    → Absent new news
    → Sound (suc n) news (ok (spawn new f a (view q s))) (green_create fuel new f a s)
unfolding spawn Sound EnqueuesCore prepared Among
create-Sound {n} {news} {q} {home} {s} fuel new f a y le n≢0 once =
    let y_runs = y.runs in
    let is_fresh : home new ≡ fresh = y.core.coming new (inl refl) in
    let c0 = prepared-IsCore new f a y.core n≢0 once in
    let self : at home new active new ≡ active = at_home_self home new active in
    let (s1, run, same, core) =
      enqueue-IsCore fuel ready new c0 le (ap is_idle self) (λ u z e. cc) in
    let home' : ℕ → Home = at (at home new active) new (queued ready) in
    let ne : s.running ≢ new =
      λ e. let g : home s.running ≡ fresh = subst (λ v. home v ≡ fresh) (sym e) is_fresh in cc in
    let runs_same : s1.running ≡ s.running = ap (λ (r : State). r.running) same in
    let q' : Place → List ℕ = put_queue q ready (q ready ++ (new ∷ [])) in
    subst (λ r. Sound (suc n) news (ok (spawn new f a (view q s))) r)
      (sym (create_cons fuel new f a s s1 run))
      (
        q',
        home',
        record {
          core = IsCore-same (unblock s1) core (omega arith) refl refl refl refl;
          runs = ap home' runs_same ∙ moved_on home new s.running active (queued ready) ne ∙ y_runs;
          only = λ t b. elim (Bool-cases (t == new)) [
            | inl e ↦
                let e' : t ≡ new = ground (arith, e) in
                let here : home' t ≡ queued ready =
                  subst (λ v. home' v ≡ queued ready) (sym e')
                    (at_home_self (at home new active) new (queued ready)) in
                cc
            | inr e ↦
                y.only t (sym (moved_on home new t active (queued ready) (ground (arith, e))) ∙ b)
                ∙ sym runs_same
          ];
        },
        ap (λ r. ok (view q' (unblock r))) (sym same),
      )

-- The running thread waits for `thread`.
unfoldable pub join_wait : State → ℕ → State
join_wait s thread = record s { masked = true; join = at s.join thread s.running }

pub join-IsCore :
    {n : ℕ} {news : List ℕ} {q : Place → List ℕ} {home : ℕ → Home} {s : State} (thread : ℕ)
    → IsSystem n news q home s
    → IsCore n news q (at home s.running (joining thread)) (join_wait s thread)
unfolding join_wait
join-IsCore {n} {news} {q} {home} {s} thread y =
    let c = y.core in
    let y_runs = y.runs in
    let r : ℕ = s.running in
    let home' : ℕ → Home = at home r (joining thread) in
    let known : home r ≢ fresh = λ e. cc in
    record {
      queues = c.queues;
      distinct = c.distinct;
      homes = λ p t b.
          let k = c.homes p t b in home_kept home r t (joining thread) (queued p) (λ e. cc) k;
      short = c.short;
      null = home_kept home r 0 (joining thread) fresh known c.null;
      clear = λ t i. elim (idle_cases home r t (joining thread) i) [
        | inl e ↦ subst (λ v. s.next v ≡ 0) (sym e) (c.clear r (ap is_idle y_runs))
        | inr (ne, before) ↦ c.clear t before
      ];
      joins = λ t z. elim (Bool-cases (t == thread)) [
        | inl e ↦
            let e' : t ≡ thread = ground (arith, e) in
            inr (
              subst (λ v. home' (at s.join thread r v) ≡ joining v) (sym e')
                (ap home' (at_self s.join thread r) ∙ at_home_self home r (joining thread)))
        | inr e ↦
            subst (λ j. (j ≡ 0) ⊎ (home' j ≡ joining t))
              (sym (at_ne s.join thread t r (ground (arith, e))))
              (joins_kept home r t (s.join t) (joining thread) (λ h. cc) (c.joins t z))
      ];
      alive = alive_kept home r (joining thread) s.zombie known (λ e. cc) c.alive;
      coming = λ t b. home_kept home r t (joining thread) fresh known (c.coming t b);
    }

pub collect-Sound :
    {n : ℕ} {news : List ℕ} {q : Place → List ℕ} {home : ℕ → Home} {s : State} (thread res : ℕ)
    → IsSystem n news q home s
    → Sound (suc n) news (deliver thread res (view q s)) (collect thread res s)
unfolding collect deliver Sound
collect-Sound {n} {news} {s = s} thread res y =
    let freed : State = record s { context = at s.context thread released; masked = false } in
    Sound-if (suc n) news (is_released (s.context thread)) null_access _ null_access _ (λ e. refl)
      (λ e.
        Sound-if (suc n) news (s.retval thread == 0) _ _ (ok freed) _
          (λ e. ok-Sound freed y refl refl refl refl refl)
          (λ e.
            Sound-if (suc n) news (res == 0) null_access _ null_access _ (λ e. refl)
              (λ e.
                ok-Sound (record freed { result = at s.result res (s.retval thread) }) y refl refl
                  refl refl refl)))

pub join-Sound :
    {n : ℕ} {news : List ℕ} {q : Place → List ℕ} {home : ℕ → Home} {s : State} (thread res : ℕ)
    → IsSystem n news q home s
    → Sound (suc n) news (await thread res (view q s)) (join_at thread res s)
unfolding join_at await join_wait Sound
join-Sound {n} {news} {q} {home} {s} thread res y =
    Sound-if (suc n) news (s.zombie thread) _ _ _ _
      (λ e.
        collect-Sound thread res (IsSystem-same (block s) y (omega arith) refl refl refl refl refl))
      (λ e. Sound-le n (suc n) news _ _ (omega arith) (
        dispatch-Sound (join-IsCore thread y)
          (λ t a. none_moved home s.running t (joining thread) (λ e. cc) y.only a) null_access
          null_access (in_join thread res) refl))
