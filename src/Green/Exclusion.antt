-- ===== src/Green/Exclusion.antt =====
-- Who is inside a mutex of seminar3/green.c in a history: the threads whose `green_mutex_lock` has
-- returned and that have not called `green_mutex_unlock`, told from the events and from which thread
-- runs, not from the members of the mutex.
pub mod Keeps
pub mod Others
pub mod Steps
pub mod Departures
pub mod Reactions
pub mod Mutual
mod Examples
use id.Base.{ℕ, Bool, true, false, List, [], ◌∷◌, ◌++◌, ◌==◌, ◌&&◌, not, if◌then◌else◌}
use id.Green.{State, Result, ok}
use id.Green.Events.{Call, perform}

abbrev pub member : ℕ → List ℕ → Bool
member t [] = false
member t (x ∷ xs) = if t == x then true else member t xs

-- Without the first occurrence of `t`.
abbrev pub erase : ℕ → List ℕ → List ℕ
erase t [] = []
erase t (x ∷ xs) = let rest = erase t xs in if t == x then xs else x ∷ rest

abbrev pub is_empty : List ℕ → Bool
is_empty [] = true
is_empty (_ ∷ _) = false

-- The threads that called `green_mutex_lock`, and those for which it returned, in this order; those
-- for which it has not returned, and those inside.
pub record Log : Type 0 where
  pub arrived : List ℕ
  pub entered : List ℕ
  pub trying : List ℕ
  pub inside : List ℕ

abbrev pub nobody : Log
nobody = record { arrived = []; entered = []; trying = []; inside = [] }

abbrev pub enter : ℕ → Log → Log
enter t l = record l { entered = l.entered ++ (t ∷ []); inside = t ∷ l.inside }

abbrev pub arrive : ℕ → Log → Log
arrive t l = record l { arrived = l.arrived ++ (t ∷ []) }

-- What an event of thread `this` adds to the log of a mutex, when `next` is the thread that runs behind
-- it: the lock returns if it is still `this`, and otherwise when that thread continues.
unfoldable pub observe : ℕ → Call → ℕ → ℕ → Log → Log
observe mutex (Call.mutex_lock m) this next l =
    if m == mutex
    then if next == this
      then enter this (arrive this l)
      else record (arrive this l) { trying = l.trying ++ (this ∷ []) }
    else l
observe mutex (Call.mutex_unlock m) this next l =
    if m == mutex then record l { inside = erase this l.inside } else l
observe mutex Call.continue this next l =
    if member this l.trying then enter this (record l { trying = erase this l.trying }) else l
observe mutex _ this next l = l

-- A thread unlocks the mutex only when it is inside, the mutex is initialised only when nobody is inside
-- or waits, and it is not passed to `green_cond_wait`.
unfoldable pub allowed : ℕ → Call → ℕ → Log → Bool
allowed mutex (Call.mutex_unlock m) this l = if m == mutex then member this l.inside else true
allowed mutex (Call.mutex_init m) this l =
    if m == mutex then is_empty l.inside && is_empty l.trying else true
allowed mutex (Call.cond_wait c m) this l = not (m == mutex)
allowed mutex _ this l = true

-- A history in which every event is allowed.
unfoldable pub disciplined : ℕ → ℕ → List Call → Log → State → Bool
unfolding perform observe allowed
disciplined mutex fuel [] l s = true
disciplined mutex fuel (c ∷ cs) l s = allowed mutex c s.running l && elim (perform fuel c s) [
  | ok s' ↦ disciplined mutex fuel cs (observe mutex c s.running s'.running l) s'
  | _ ↦ true
]

-- The log of a history, up to its end or the event that faults.
unfoldable pub watch : ℕ → ℕ → List Call → Log → State → Log
unfolding perform observe
watch mutex fuel [] l s = l
watch mutex fuel (c ∷ cs) l s = elim (perform fuel c s) [
  | ok s' ↦ watch mutex fuel cs (observe mutex c s.running s'.running l) s'
  | _ ↦ l
]
