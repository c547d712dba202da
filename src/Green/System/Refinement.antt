-- ===== src/Green/System/Refinement.antt =====
-- The functions of seminar3/green.c together, and the scheduler that they implement.
use id.Base.{ℕ, ◌*◌, ◌≤◌, ◌≡◌, List, [], length}
use id.Links.{Absent, Distinct, Queue}
use id.Green.{State, Place, Result, ok, null_access, failed_assert, out_of_fuel, init, main_green}
use id.Green.Events.{Call, run}
use id.Green.Scheduler.{Schedule, follow, view}
use id.Green.System.Sound.{Sound}
use id.Green.System.Perform.{created, history-Sound}

-- The same fault, or a state whose heads and links hold the lists of the schedule, and whose other
-- members are those of the schedule. The loop of `enqueue` does not run out of fuel.
pub Refines : Result Schedule → Result State → Type 0
Refines a (ok s) =
    (q : Place → List ℕ) × ((p : Place) → Queue (q p) (s.head p) s.next) × (a ≡ ok (view q s))
Refines a null_access = a ≡ null_access
Refines a failed_assert = a ≡ failed_assert
Refines a out_of_fuel = ⊥

Sound-Refines :
    (n : ℕ) (news : List ℕ) (a : Result Schedule) (r : Result State)
    → Sound n news a r
    → Refines a r
unfolding Sound Refines
Sound-Refines n news a (ok s) (q, home, y, e) = (q, y.core.queues, e)
Sound-Refines n news a null_access e = e
Sound-Refines n news a failed_assert e = e
Sound-Refines n news a out_of_fuel f = f

-- The green threads implement a scheduler whose queues are lists. A history of calls, ends of threads,
-- timer interrupts and returns from switches, in which no interrupt comes inside the end of a thread (from
-- the return of its function to `setcontext`), from the initial state, with new addresses other than
-- NULL and `main_green` for the threads that it creates, and with fuel for two steps of a queue for
-- each event, ends as the scheduler does from empty queues: at an access through NULL or to a freed
-- context, or a failed assert, if the scheduler stops at the same, and otherwise in a state whose ready queue and queues of all conditions
-- and mutexes hold, through their heads and links, the scheduler's lists, and which has the
-- scheduler's running thread, signal mask, mutexes, results, and members of the threads
pub run-follow :
    (fuel : ℕ) (calls : List Call)
    → Distinct (created calls)
    → Absent 0 (created calls)
    → Absent main_green (created calls)
    → 2 * length calls ≤ fuel
    → Refines (follow calls (view (λ p. []) init)) (run fuel calls init)
run-follow fuel calls d z a le =
    Sound-Refines (2 * length calls) [] _ (run fuel calls init) (history-Sound fuel calls d z a le)
