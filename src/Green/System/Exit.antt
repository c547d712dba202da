-- ===== src/Green/System/Exit.antt =====
-- The end of a thread of seminar3/green.c, and what a thread does when it runs again.
use mathlib.Core.Path.{subst}
use id.Base.{
  ℕ, suc, ◌≤◌, ◌≡◌, ◌≢◌, inl, inr, refl, sym, ap, ◌∙◌, ◌==◌, Bool, true, false, Bool-cases, List,
  [], ◌∷◌, ◌++◌, arith, if◌then◌else◌,
}
use id.Links.{at}
use id.Green.{
  State, Place, ready, Result, ok, null_access, failed_assert, out_of_fuel, dequeue, enqueue,
  and_then, green_exit,
}
use id.Green.Scheduler.{put_queue}
use id.Green.System.{
  Home, is_idle, ended, fresh, active, joining, queued, IsCore, IsSystem, at_home, at_home_self,
}
use id.Green.System.Moves.{EnqueuesCore, enqueue-IsCore, dequeue_nil}
use id.Green.Scheduler.{append, succeed, terminate, view}
use id.Green.Scheduler.Heads.{succeed_nil, succeed_cons}
use id.Green.System.Sound.{Sound, Sound-subst, Sound-le, IsSystem-same}
use id.Green.System.Switch.{none_moved, next-IsSystem}
use id.Green.System.{home_kept, idle_cases, joins_kept}
use id.Green.System.Spawn.{flag_self, flag_ne}
use id.Green.Lifecycle.{terminated}

-- The end of `green_exit`: the next thread runs.
unfoldable pub run_next : State → Result State
unfolding dequeue
run_next s =
    let (n, s3) = dequeue ready s in
    if n == 0 then null_access else ok (record s3 { running = n; masked = true })

-- The thread that waits for the running one is made ready, if there is one.
unfoldable pub wake_joiner : ℕ → State → Result State
wake_joiner fuel s = if s.join s.running == 0 then ok s else enqueue fuel ready (s.join s.running) s

and_then_assoc :
    (r : Result State) (f : State → State) (g : State → Result State)
    → and_then r (λ s. g (f s)) ≡ and_then (and_then r (λ s. ok (f s))) g
and_then_assoc (ok s) f g = refl
and_then_assoc null_access f g = refl
and_then_assoc failed_assert f g = refl
and_then_assoc out_of_fuel f g = refl

-- `enqueue` does not read what is written about a terminated thread.
enqueue-terminated :
    (fuel : ℕ) (p : Place) (t this res : ℕ) (s : State)
    → and_then (enqueue fuel p t s) (λ x. ok (terminated this res x))
      ≡ enqueue fuel p t (terminated this res s)
unfolding enqueue terminated
enqueue-terminated fuel p t this res s = ground arith

either :
    (b : Bool) (x y : Result State) (f : State → Result State)
    → and_then (if b then x else y) f ≡ (if b then and_then x f else and_then y f)
either true x y f = refl
either false x y f = refl

-- The thread may be marked as terminated before the joiner is made ready.
pub exit_as :
    (fuel res : ℕ) (s : State)
    → green_exit fuel res s ≡ and_then (wake_joiner fuel (terminated s.running res s)) run_next
unfolding green_exit wake_joiner run_next terminated
exit_as fuel res s =
    let b : Bool = s.join s.running == 0 in
    let y : Result State = enqueue fuel ready (s.join s.running) s in
    let t = λ (x : State). terminated s.running res x in
    and_then_assoc (if b then ok s else y) t run_next
    ∙ ap (λ r. and_then r run_next)
        (either b (ok s) y (λ x. ok (t x))
          ∙ ap (λ r. if b then ok (t s) else r)
              (enqueue-terminated fuel ready (s.join s.running) s.running res s))

ended_ne : (z : ℕ → Bool) (r t : ℕ) → at z r true t ≡ false → t ≢ r
ended_ne z r t e h =
    let f : at z r true t ≡ true = subst (λ v. at z r true v ≡ true) (sym h) (flag_self z r true) in
    cc

-- The thread that ends.
pub exit-IsCore :
    {n : ℕ} {news : List ℕ} {q : Place → List ℕ} {home : ℕ → Home} {s : State} (res : ℕ)
    → IsSystem n news q home s
    → IsCore n news q (at home s.running ended) (terminated s.running res s)
unfolding terminated
exit-IsCore {n} {news} {q} {home} {s} res y =
    let c = y.core in
    let y_runs = y.runs in
    let r : ℕ = s.running in
    let home' : ℕ → Home = at home r ended in
    let known : home r ≢ fresh = λ e. cc in
    record {
      queues = c.queues;
      distinct = c.distinct;
      homes = λ p t b. let k = c.homes p t b in home_kept home r t ended (queued p) (λ e. cc) k;
      short = c.short;
      null = home_kept home r 0 ended fresh known c.null;
      clear = λ t i. elim (idle_cases home r t ended i) [
        | inl e ↦ subst (λ v. s.next v ≡ 0) (sym e) (c.clear r (ap is_idle y_runs))
        | inr (ne, before) ↦ c.clear t before
      ];
      joins = λ t z.
          let ne : t ≢ r = ended_ne s.zombie r t z in
          joins_kept home r t (s.join t) ended (λ h. cc)
            (c.joins t (sym (flag_ne s.zombie r t true ne) ∙ z));
      alive = λ t nf live.
          let ne : t ≢ r =
            λ e. live (subst (λ v. home' v ≡ ended) (sym e) (at_home_self home r ended)) in
          let same : home' t ≡ home t = at_home home r t ended ne in
          flag_ne s.zombie r t true ne ∙ c.alive t (λ h. nf (same ∙ h)) (λ h. live (same ∙ h));
      coming = λ t b. home_kept home r t ended fresh known (c.coming t b);
    }

pub run_next_nil : (s : State) → dequeue ready s ≡ (0, s) → run_next s ≡ null_access
unfolding run_next
run_next_nil s e = ground (arith, e)

pub run_next_cons :
    (s s1 : State) (x : ℕ)
    → dequeue ready s ≡ (x, s1)
    → x ≢ 0
    → run_next s ≡ ok (record s1 { running = x; masked = true })
unfolding run_next
run_next_cons s s1 x e x≢0 = ground (arith, e, x≢0)

module _ {n : ℕ} {news : List ℕ} {q : Place → List ℕ} {home : ℕ → Home} {s : State}
    (c : IsCore n news q home s) (idle : (t : ℕ) → home t ≢ active) where
  run_next_from : (xs : List ℕ) → q ready ≡ xs → Sound n news (succeed (view q s)) (run_next s)
  unfolding Sound
  run_next_from [] e =
      Sound-subst n news _ _ _ _ (succeed_nil (view q s) e) (run_next_nil s (dequeue_nil ready c e))
        refl
  run_next_from (x ∷ xs) e =
      let (s1, run, x≢0, y, same) = next-IsSystem c idle x xs e in
      let q1 : Place → List ℕ = put_queue q ready xs in
      subst (λ r. Sound n news (succeed (view q s)) r) (sym (run_next_cons s s1 x run x≢0))
        (
          q1,
          at home x active,
          IsSystem-same (record s1 { running = x; masked = true }) (y s1.context) (omega arith) refl
              refl refl refl refl,
          succeed_cons (view q s) x xs e
              ∙ ap (λ (r : State). ok (view q1 (record r { running = x; masked = true })))
                  (sym same),
        )

  run_next-Sound : Sound n news (succeed (view q s)) (run_next s)
  run_next-Sound = run_next_from (q ready) refl

pub wake_none : (fuel : ℕ) (s : State) → (s.join s.running == 0) ≡ true → wake_joiner fuel s ≡ ok s
unfolding wake_joiner
wake_none fuel s e = ap (λ b. if b then ok s else enqueue fuel ready (s.join s.running) s) e

pub wake_some :
    (fuel : ℕ) (s : State)
    → (s.join s.running == 0) ≡ false
    → wake_joiner fuel s ≡ enqueue fuel ready (s.join s.running) s
unfolding wake_joiner
wake_some fuel s e = ap (λ b. if b then ok s else enqueue fuel ready (s.join s.running) s) e

-- The joiner of the running thread is idle, and joins no thread that is alive still.
pub joiner_waits :
    {n : ℕ} {news : List ℕ} {q : Place → List ℕ} {home : ℕ → Home} {s : State} (res : ℕ)
    → IsSystem n news q home s
    → s.join s.running ≢ 0
    → (is_idle (at home s.running ended (s.join s.running)) ≡ true)
      × ((u : ℕ)
          → at s.zombie s.running true u ≡ false
          → at home s.running ended (s.join s.running) ≢ joining u)
joiner_waits {home = home} {s = s} res y j≢0 =
    let y_runs = y.runs in
    let r : ℕ = s.running in
    let j : ℕ = s.join r in
    let waits : home j ≡ joining r = elim (y.core.joins r (y.core.alive r (λ h. cc) (λ h. cc))) [
      | inl z ↦ absurd (j≢0 z)
      | inr w ↦ w
    ] in
    let there : at home r ended j ≡ joining r =
      home_kept home r j ended (joining r) (λ h. cc) waits in
    (ap is_idle there, λ u z h. ended_ne s.zombie r u z (cc))

pub exit-Sound :
    {n : ℕ} {news : List ℕ} {q : Place → List ℕ} {home : ℕ → Home} {s : State} (fuel res : ℕ)
    → IsSystem n news q home s
    → n ≤ fuel
    → Sound (suc n) news (terminate res (view q s)) (green_exit fuel res s)
unfolding EnqueuesCore terminated terminate
exit-Sound {n} {news} {q} {home} {s} fuel res y le =
    let y_runs = y.runs in
    let r : ℕ = s.running in
    let j : ℕ = s.join r in
    let t : State = terminated r res s in
    let c = exit-IsCore res y in
    let none = λ (u : ℕ). none_moved home r u ended (λ e. cc) y.only in
    let choose = λ (b : Bool). succeed (if b then view q t else append ready j (view q t)) in
    elim (Bool-cases (j == 0)) [
      | inl e ↦
          Sound-subst (suc n) news _ _ _ _ (ap choose e)
            (exit_as fuel res s ∙ ap (λ o. and_then o run_next) (wake_none fuel t e))
            (Sound-le n (suc n) news _ _ (omega arith) (run_next-Sound c none))
      | inr e ↦
          let j≢0 : j ≢ 0 = ground (arith, e) in
          let (there, free) = joiner_waits res y j≢0 in
          let (s1, run, same, core) = enqueue-IsCore fuel ready j c le there free in
          let q1 : Place → List ℕ = put_queue q ready (q ready ++ (j ∷ [])) in
          Sound-subst (suc n) news _ _ _ _ (ap choose e ∙ ap (λ u. succeed (view q1 u)) (sym same))
            (exit_as fuel res s ∙ ap (λ o. and_then o run_next) (wake_some fuel t e ∙ run))
            (run_next-Sound core (λ u a.
              none_moved (at home r ended) j u (queued ready) (λ h. cc) (λ v b. absurd (none v b))
                a))
    ]
