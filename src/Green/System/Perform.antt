-- ===== src/Green/System/Perform.antt =====
-- What every event of a history of the green threads of seminar3/green.c keeps.
use mathlib.Core.Path.{subst}
use id.Base.{
  ℕ, suc, ◌+◌, ◌*◌, ◌≤◌, ◌≡◌, inl, inr, refl, sym, ap, Bool-cases, if◌then◌else◌, ◌==◌, List, [],
  ◌∷◌, arith, length,
}
use id.Links.{Absent, Distinct, Among, Queue, Absent-ne}
use id.Green.{
  State, Place, waiting, blocked_on, Result, ok, null_access, failed_assert, out_of_fuel, init,
  main_green, and_then, clear_cond, clear_mutex, green_join, green_cond_init, green_mutex_init,
  green_mutex_lock, green_mutex_unlock, green_cond_signal,
}
use id.Green.Events.{Call, perform, run}
use id.Green.Scheduler.{Schedule, react, follow, view}
use id.Green.System.{Home, fresh, active, IsSystem}
use id.Green.System.Sound.{Sound, IsSystem-same, Sound-le, deref-Sound}
use id.Green.System.Switch.{yield-Sound, timer-Sound, lock-Sound}
use id.Green.System.Signals.{signal-Sound, unlock-Sound, cond_wait-Sound, reset-Sound}
use id.Green.System.Spawn.{create-Sound, join-Sound}
use id.Green.System.Exit.{exit-Sound}
use id.Green.System.Resume.{resume-Sound}

-- The threads that a history creates.
unfoldable pub created : List Call → List ℕ
created [] = []
created (Call.create new f a ∷ cs) = new ∷ created cs
created (_ ∷ cs) = created cs

module _ {n : ℕ} {q : Place → List ℕ} {home : ℕ → Home} {s : State} (fuel : ℕ)
    (le : suc n ≤ fuel) where
  -- One event of a history.
  pub perform-Sound :
      (c : Call) (cs : List Call)
      → IsSystem n (created (c ∷ cs)) q home s
      → Distinct (created (c ∷ cs))
      → Absent 0 (created (c ∷ cs))
      → Sound (suc (suc n)) (created cs) (react c (view q s)) (perform fuel c s)
  unfolding perform react created Distinct Absent clear_cond clear_mutex green_join green_cond_init
      green_mutex_init green_mutex_lock green_mutex_unlock green_cond_signal
  perform-Sound (Call.create new f a) cs y (once, d) (n≢0, z) =
      Sound-le (suc n) (suc (suc n)) (created cs) _ _ (omega arith)
        (create-Sound fuel new f a y (omega (arith, le)) (λ e. n≢0 (sym e)) once)
  perform-Sound Call.yield cs y d z =
      Sound-le (suc n) (suc (suc n)) (created cs) _ _ (omega arith)
        (yield-Sound y fuel (omega (arith, le)))
  perform-Sound Call.interrupt cs y d z =
      Sound-le (suc n) (suc (suc n)) (created cs) _ _ (omega arith)
        (timer-Sound y fuel (omega (arith, le)))
  perform-Sound Call.continue cs y d z =
      Sound-le (suc n) (suc (suc n)) (created cs) _ _ (omega arith)
        (resume-Sound fuel y (omega (arith, le)))
  perform-Sound (Call.join thread res) cs y d z =
      Sound-le (suc n) (suc (suc n)) (created cs) _ _ (omega arith)
        (deref-Sound (suc n) (created cs) thread _ _ (join-Sound thread res y))
  perform-Sound (Call.exit res) cs y d z =
      Sound-le (suc n) (suc (suc n)) (created cs) _ _ (omega arith)
        (exit-Sound fuel res y (omega (arith, le)))
  perform-Sound (Call.cond_init c) cs y d z =
      Sound-le (suc n) (suc (suc n)) (created cs) _ _ (omega arith) (
        deref-Sound (suc n) (created cs) c _ _ (
          reset-Sound y fuel (omega (arith, le)) (waiting c) (clear_cond c s) refl refl refl refl
            refl))
  perform-Sound (Call.cond_signal c) cs y d z =
      Sound-le (suc n) (suc (suc n)) (created cs) _ _ (omega arith)
        (deref-Sound (suc n) (created cs) c _ _ (signal-Sound y fuel (omega (arith, le)) c))
  perform-Sound (Call.mutex_init m) cs y d z =
      Sound-le (suc n) (suc (suc n)) (created cs) _ _ (omega arith) (
        deref-Sound (suc n) (created cs) m _ _ (
          reset-Sound y fuel (omega (arith, le)) (blocked_on m) (clear_mutex m s) refl refl refl
            refl refl))
  perform-Sound (Call.mutex_lock m) cs y d z =
      Sound-le (suc n) (suc (suc n)) (created cs) _ _ (omega arith)
        (deref-Sound (suc n) (created cs) m _ _ (lock-Sound y fuel (omega (arith, le)) m))
  perform-Sound (Call.mutex_unlock m) cs y d z =
      Sound-le (suc n) (suc (suc n)) (created cs) _ _ (omega arith)
        (deref-Sound (suc n) (created cs) m _ _ (unlock-Sound y fuel (omega (arith, le)) m))
  perform-Sound (Call.cond_wait c m) cs y d z = cond_wait-Sound y fuel (omega (arith, le)) c m le

pub created_rest :
    (c : Call) (cs : List Call)
    → Distinct (created (c ∷ cs))
    → Absent 0 (created (c ∷ cs))
    → Distinct (created cs) × Absent 0 (created cs)
unfolding created Distinct Absent
created_rest (Call.create new f a) cs (once, d) (n≢0, z) = (d, z)
created_rest Call.yield cs d z = (d, z)
created_rest Call.interrupt cs d z = (d, z)
created_rest Call.continue cs d z = (d, z)
created_rest (Call.join thread res) cs d z = (d, z)
created_rest (Call.exit res) cs d z = (d, z)
created_rest (Call.cond_init c) cs d z = (d, z)
created_rest (Call.cond_signal c) cs d z = (d, z)
created_rest (Call.mutex_init m) cs d z = (d, z)
created_rest (Call.mutex_lock m) cs d z = (d, z)
created_rest (Call.mutex_unlock m) cs d z = (d, z)
created_rest (Call.cond_wait c m) cs d z = (d, z)

-- What follows an operation.
bind-Sound :
    {n : ℕ} {news : List ℕ} (m : ℕ) (a : Result Schedule) (r : Result State)
    (g : Schedule → Result Schedule) (k : State → Result State)
    → Sound n news a r
    → ((q : Place → List ℕ) (home : ℕ → Home) (s : State)
        → IsSystem n news q home s
        → Sound m [] (g (view q s)) (k s))
    → Sound m [] (and_then a g) (and_then r k)
unfolding Sound
bind-Sound m a (ok s) g k (q, home, y, e) f =
    subst (λ o. Sound m [] (and_then o g) (k s)) (sym e) (f q home s y)
bind-Sound m a null_access g k x f = ap (λ o. and_then o g) x
bind-Sound m a failed_assert g k x f = ap (λ o. and_then o g) x
bind-Sound m a out_of_fuel g k x f = x

pub run-Sound :
    {n : ℕ} {q : Place → List ℕ} {home : ℕ → Home} {s : State} (fuel : ℕ) (cs : List Call)
    → IsSystem n (created cs) q home s
    → Distinct (created cs)
    → Absent 0 (created cs)
    → n + 2 * length cs ≤ fuel
    → Sound (n + 2 * length cs) [] (follow cs (view q s)) (run fuel cs s)
unfolding run follow Sound created
run-Sound {n} {q} {home} {s} fuel [] y d z le =
    (q, home, IsSystem-same s y (omega arith) refl refl refl refl refl, refl)
run-Sound {n} {s = s} fuel (c ∷ cs) y d z le =
    let (d', z') = created_rest c cs d z in
    Sound-le (suc (suc n) + 2 * length cs) (n + 2 * length (c ∷ cs)) [] _ _ (omega arith) (
      bind-Sound (suc (suc n) + 2 * length cs) _ (perform fuel c s) (λ a'. follow cs a')
        (λ s'. run fuel cs s') (perform-Sound fuel (omega (arith, le)) c cs y d z)
        (λ q' home' s' y'. run-Sound fuel cs y' d' z' (omega (arith, le))))

-- Where the threads are before the history.
abbrev pub initial : ℕ → Home
initial t = if t == main_green then active else fresh

pub init-IsSystem :
    (news : List ℕ) → Absent main_green news → IsSystem 0 news (λ p. []) initial init
unfolding Queue Distinct Among
init-IsSystem news a = record {
  core = record {
    queues = λ p. refl;
    distinct = λ p. tt;
    homes = λ p t b. elim b [ ];
    short = λ p. omega arith;
    null = refl;
    clear = λ t i. refl;
    joins = λ t z. inl refl;
    alive = λ t nf ne. refl;
    coming = λ t b. ground (arith, Absent-ne main_green t news a b);
  };
  runs = refl;
  only = λ t b. elim (Bool-cases (t == main_green)) [
    | inl e ↦ ground (arith, e)
    | inr e ↦ let e' : fresh ≡ active = ground (arith, e, b) in cc
  ];
}

-- A history from the initial state.
pub history-Sound :
    (fuel : ℕ) (calls : List Call)
    → Distinct (created calls)
    → Absent 0 (created calls)
    → Absent main_green (created calls)
    → 2 * length calls ≤ fuel
    → Sound (2 * length calls) [] (follow calls (view (λ p. []) init)) (run fuel calls init)
history-Sound fuel calls d z a le =
    Sound-le (0 + 2 * length calls) (2 * length calls) [] _ _ (omega arith)
      (run-Sound fuel calls (init-IsSystem (created calls) a) d z (omega (arith, le)))
