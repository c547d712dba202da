-- ===== src/Green/Exclusion/Steps.antt =====
-- What the events of the scheduler of seminar3/green.c do to the log of one mutex.
use mathlib.Core.Path.{subst}
use mathlib.Core.List.{append-nil, append_assoc}
use id.Base.{
  ℕ, ◌≡◌, refl, sym, ap, ◌∙◌, ◌==◌, Bool, true, false, List, [], ◌∷◌, ◌++◌, arith, if◌then◌else◌,
  if_ind,
}
use id.Links.{at, Absent}
use id.Green.{ready, blocked_on, in_lock, Result, ok, null_access, failed_assert, out_of_fuel}
use id.Green.Scheduler.{Schedule, put_queue, append, switch_to, contend}
use id.Green.Scheduler.Heads.{switch_nil, switch_cons}
use id.Green.System.{put_queue_self}
use id.Green.Exclusion.{Log, member, enter, arrive}
use id.Green.Exclusion.Keeps.{Shows, IfOk, returns_at}

-- Nobody has the mutex; one thread is inside, and the others that try wait in the order of their calls;
-- or the mutex was handed to the first of them, which has not continued yet.
pub data Holds (mutex : ℕ) (g : Log) (a : Schedule) : Type 0 where
  vacant : Shows mutex false [] a → g.inside ≡ [] → g.trying ≡ [] → Holds mutex g a
  held :
      (owner : ℕ) (l : List ℕ)
      → Shows mutex true l a
      → g.inside ≡ owner ∷ []
      → g.trying ≡ l
      → Holds mutex g a
  granted :
      (owner : ℕ) (l : List ℕ)
      → Shows mutex true l a
      → g.inside ≡ []
      → g.trying ≡ owner ∷ l
      → Holds mutex g a

-- The threads enter in the order in which they arrive.
pub record IsOrdered (mutex : ℕ) (g : Log) (a : Schedule) : Type 0 where
  pub holds : Holds mutex g a
  pub order : g.arrived ≡ g.entered ++ g.trying

-- An event that leaves the mutex and the log alone.
pub same-IsOrdered :
    (m : ℕ) (g : Log) (a : Schedule) (r : Result Schedule)
    → IsOrdered m g a
    → ((b : Bool) (l : List ℕ) → Shows m b l a → IfOk (Shows m b l) r)
    → IfOk (IsOrdered m g) r
unfolding IfOk
same-IsOrdered m g a (ok a') k f = record {
  holds = elim k.holds [
    | vacant s i t ↦ vacant (f false [] s) i t
    | held o l s i t ↦ held o l (f true l s) i t
    | granted o l s i t ↦ granted o l (f true l s) i t
  ];
  order = k.order;
}
same-IsOrdered m g a null_access k f = tt
same-IsOrdered m g a failed_assert k f = tt
same-IsOrdered m g a out_of_fuel k f = tt

pub Absent-member : (t : ℕ) (xs : List ℕ) → Absent t xs → member t xs ≡ false
unfolding Absent
Absent-member t [] a = refl
Absent-member t (x ∷ xs) (ne, a) = ground (arith, ne, Absent-member t xs a)

module _ (m : ℕ) (g : Log) (a : Schedule) where
  -- The lock of a free mutex.
  enter-IsOrdered :
      Shows m false [] a
      → g.inside ≡ []
      → g.trying ≡ []
      → g.arrived ≡ g.entered ++ g.trying
      → IsOrdered m
          (enter a.running (arrive a.running g))
          (record a { masked = false; taken = at a.taken m true })
  enter-IsOrdered s i t o = record {
    holds =
        held a.running [] (record { taken = ground arith; queue = s.queue; returns = s.returns })
          (ap (λ l. a.running ∷ l) i) t;
    order =
        let r : List ℕ = a.running ∷ [] in
        ap (λ l. l ++ r) (o ∙ ap (λ l. g.entered ++ l) t ∙ append-nil g.entered)
        ∙ sym (append-nil (g.entered ++ r))
        ∙ ap (λ l. (g.entered ++ r) ++ l) (sym t);
  }

  -- The running thread waits behind the others.
  abbrev blocked : ℕ → List ℕ → Schedule
  blocked x xs = record a {
    queue =
        put_queue (put_queue a.queue (blocked_on m) (a.queue (blocked_on m) ++ (a.running ∷ [])))
          ready xs;
    running = x;
    context = at a.context a.running in_lock;
  }

  blocked-Shows :
      (x : ℕ) (xs l : List ℕ)
      → Shows m true l a
      → Shows m true (l ++ (a.running ∷ [])) (blocked x xs)
  blocked-Shows x xs l k =
      let r : List ℕ = a.running ∷ [] in
      record {
        taken = k.taken;
        queue =
            put_queue_self a.queue (blocked_on m) (a.queue (blocked_on m) ++ r)
            ∙ ap (λ l. l ++ r) k.queue;
        returns = returns_at m a.context a.running in_lock refl k.returns;
      }

  wait-IsOrdered :
      (x : ℕ) (xs : List ℕ)
      → IsOrdered m g a
      → a.taken m ≡ true
      → IsOrdered m
          (record (arrive a.running g) { trying = g.trying ++ (a.running ∷ []) })
          (blocked x xs)
  wait-IsOrdered x xs y busy =
      let r : List ℕ = a.running ∷ [] in
      record {
        holds = elim y.holds [
          | vacant k i t ↦ let free = k.taken in absurd (cc)
          | held o l k i t ↦ held o (l ++ r) (blocked-Shows x xs l k) i (ap (λ l. l ++ r) t)
          | granted o l k i t ↦ granted o (l ++ r) (blocked-Shows x xs l k) i (ap (λ l. l ++ r) t)
        ];
        order = ap (λ l. l ++ r) y.order ∙ append_assoc g.entered g.trying r;
      }

-- The log of a thread that calls `green_mutex_lock`, when `next` runs behind it.
abbrev pub lock_log : ℕ → ℕ → Log → Log
lock_log this next g =
    if next == this
    then enter this (arrive this g)
    else record (arrive this g) { trying = g.trying ++ (this ∷ []) }

-- `green_mutex_lock` of the mutex.
module _ (m : ℕ) (g : Log) (a : Schedule) (away : Absent a.running (a.queue ready))
    (y : IsOrdered m g a) where
  lock_free :
      a.taken m ≡ false
      → IsOrdered m
          (lock_log a.running a.running g)
          (record a { masked = false; taken = at a.taken m true })
  lock_free free =
      let self : (a.running == a.running) ≡ true = ground arith in
      subst
        (λ b.
          IsOrdered m
            (if b
              then enter a.running (arrive a.running g)
              else record (arrive a.running g) { trying = g.trying ++ (a.running ∷ []) })
            (record a { masked = false; taken = at a.taken m true }))
        (sym self)
        (elim y.holds [
          | vacant k i t ↦ enter-IsOrdered m g a k i t y.order
          | held o l k i t ↦ let busy = k.taken in absurd (cc)
          | granted o l k i t ↦ let busy = k.taken in absurd (cc)
        ])

  lock_busy :
      (xs : List ℕ)
      → a.queue ready ≡ xs
      → a.taken m ≡ true
      → IfOk
          (λ a'. IsOrdered m (lock_log a.running a'.running g) a')
          (switch_to failed_assert in_lock (append (blocked_on m) a.running a))
  unfolding IfOk Absent
  lock_busy [] q busy =
      subst (λ r. IfOk (λ a'. IsOrdered m (lock_log a.running a'.running g) a') r)
        (sym (switch_nil failed_assert in_lock (append (blocked_on m) a.running a) q)) tt
  lock_busy (x ∷ xs) q busy =
      let (ne, others) = subst (λ l. Absent a.running l) q away in
      let other : (x == a.running) ≡ false = ground (arith, ne) in
      subst (λ r. IfOk (λ a'. IsOrdered m (lock_log a.running a'.running g) a') r)
        (sym (switch_cons failed_assert in_lock (append (blocked_on m) a.running a) x xs q))
        (subst
          (λ b.
            IsOrdered m
              (if b
                then enter a.running (arrive a.running g)
                else record (arrive a.running g) { trying = g.trying ++ (a.running ∷ []) })
              (blocked m g a x xs))
          (sym other) (wait-IsOrdered m g a x xs y busy))

  pub lock-IsOrdered :
      IfOk (λ a'. IsOrdered m (lock_log a.running a'.running g) a') (contend failed_assert m a)
  unfolding contend IfOk
  lock-IsOrdered =
      if_ind (λ r. IfOk (λ a'. IsOrdered m (lock_log a.running a'.running g) a') r) (a.taken m) _ _
        (λ e. lock_busy (a.queue ready) refl e) (λ e. lock_free e)
