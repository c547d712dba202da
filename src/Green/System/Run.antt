-- ===== src/Green/System/Run.antt =====
-- Every history of the green threads of seminar3/green.c.
use id.Base.{ℕ, ◌*◌, ◌≤◌, ◌≡◌, ◌≢◌, ◌⊎◌, inl, inr, ap, true, false, Bool-cases, List, [], length}
use id.Links.{Absent, Distinct, Disjoint, Queue}
use id.Green.{
  State, Place, Result, ok, null_access, failed_assert, out_of_fuel, init, main_green, same_place,
}
use id.Green.Events.{Call, run}
use id.Green.System.{Home, is_idle, IsSystem, queues-Disjoint, home-Absent}
use id.Green.Scheduler.{Schedule}
use id.Green.System.Sound.{Sound}
use id.Green.System.Perform.{created, history-Sound}

-- A thread on none of the queues `q` that does not run.
pub IsAside : (Place → List ℕ) → State → ℕ → Type 0
IsAside q s t = ((p : Place) → Absent t (q p)) × (t ≢ s.running)

-- The queues hold the lists `q`, of at most `n` threads each; the running thread is alive, on no
-- queue and without a link; who joins a living thread waits aside.
pub record IsWhole (n : ℕ) (q : Place → List ℕ) (s : State) : Type 0 where
  pub queues : (p : Place) → Queue (q p) (s.head p) s.next
  pub distinct : (p : Place) → Distinct (q p)
  pub apart : (p r : Place) → (same_place r p ≡ true) ⊎ Disjoint (q p) (q r)
  pub short : (p : Place) → length (q p) ≤ n
  pub unqueued : (p : Place) → Absent s.running (q p)
  pub unlinked : s.next s.running ≡ 0
  pub lives : s.zombie s.running ≡ false
  pub joiners : (t : ℕ) → (s.zombie t ≡ true) ⊎ ((s.join t ≡ 0) ⊎ IsAside q s (s.join t))

-- A history that faults, or ends in such a state; it does not run out of fuel.
pub Ends : ℕ → Result State → Type 0
Ends n (ok s) = (q : Place → List ℕ) × IsWhole n q s
Ends n null_access = Unit
Ends n failed_assert = Unit
Ends n out_of_fuel = ⊥

system-IsWhole :
    {n : ℕ} {news : List ℕ} {q : Place → List ℕ} {home : ℕ → Home} {s : State}
    → IsSystem n news q home s
    → IsWhole n q s
unfolding IsAside
system-IsWhole {n} {news} {q} {home} {s} y =
    let c = y.core in
    let y_runs = y.runs in
    record {
      queues = c.queues;
      distinct = c.distinct;
      apart = λ p r. elim (Bool-cases (same_place r p)) [
        | inl e ↦ inl e
        | inr e ↦ inr (queues-Disjoint c p r e)
      ];
      short = c.short;
      unqueued = λ p. home-Absent c s.running p (λ e. cc);
      unlinked = c.clear s.running (ap is_idle y_runs);
      lives = c.alive s.running (λ e. cc) (λ e. cc);
      joiners = λ t. elim (Bool-cases (s.zombie t)) [
        | inl e ↦ inl e
        | inr e ↦ inr (elim (c.joins t e) [
          | inl z ↦ inl z
          | inr w ↦ inr ((λ p. home-Absent c (s.join t) p (λ h. cc)), λ h. let h' = ap home h in cc)
        ])
      ];
    }

Sound-Ends :
    (n : ℕ) (news : List ℕ) (a : Result Schedule) (r : Result State) → Sound n news a r → Ends n r
unfolding Sound Ends
Sound-Ends n news a (ok s) (q, home, y, e) = (q, system-IsWhole y)
Sound-Ends n news a null_access e = tt
Sound-Ends n news a failed_assert e = tt
Sound-Ends n news a out_of_fuel f = f

-- A history of calls, ends of threads, timer interrupts and returns from switches, in which no
-- interrupt comes inside the end of a thread (from the return of its function to `setcontext`), from the
-- initial state, with new addresses other than NULL and `main_green` for the threads that it creates, and with
-- fuel for two steps of a queue for each event, never runs out of fuel: it stops at an access
-- through NULL or to a freed context, or at a failed assert, or it ends in a state in which the ready queue, the queues of all conditions and
-- those of all mutexes are lists without a repetition that share no thread, the running thread is
-- alive, on none of them and without a link, and a thread that joins one that is alive is on no queue
pub run-Ends :
    (fuel : ℕ) (calls : List Call)
    → Distinct (created calls)
    → Absent 0 (created calls)
    → Absent main_green (created calls)
    → 2 * length calls ≤ fuel
    → Ends (2 * length calls) (run fuel calls init)
run-Ends fuel calls d z a le =
    Sound-Ends (2 * length calls) [] _ (run fuel calls init) (history-Sound fuel calls d z a le)
