-- ===== src/Green/Counter.antt =====
-- seminar3/test_mutex.c: three threads that count under a mutex, as a client of the green threads.
-- The pointer that a thread gets is given by the id behind it, and the pointer to `test` is 1. The empty
-- loop of `test` is left out, and so are interrupts inside the end of a thread.
pub mod Locked
pub mod Events
pub mod Handover
pub mod Calls
pub mod Moves
pub mod Total
mod Examples
use id.Base.{ℕ, zero, suc, ◌+◌, ◌-◌, Bool, true, false, not, List, [], ◌∷◌, ◌==◌, if◌then◌else◌}
use id.Links.{at}
use id.Green.{State, Result, ok, and_then, main_green, init, clear_mutex}
use id.Green.Events.{Call, perform}

-- Where a thread is in the loop of `test`: `shared++` is a load and a store.
pub data Point : Type 0 where
  locking counting loading storing unlocking ended : Point

-- The globals and the locals of all threads: `left` is the number of rounds that the loop has left,
-- `register` what was loaded from `shared`. The next thing that the running thread does is to come
-- back from a switch, if `resumes` is true. `todo` are the calls that `main` has left.
pub record Machine : Type 0 where
  pub lib : State
  pub resumes : Bool
  pub todo : List Call
  pub point : ℕ → Point
  pub left : ℕ → ℕ
  pub register : ℕ → ℕ
  pub zeros : ℕ
  pub ones : ℕ
  pub twos : ℕ
  pub shared : ℕ

-- The running thread left its function at a `swapcontext`, perhaps for itself.
abbrev pub switches : Call → State → State → Bool
switches Call.interrupt s s' = not s.masked
switches _ s s' = not (s'.running == s.running)

unfoldable pub call : ℕ → Call → Machine → Result Machine
unfolding perform
call fuel c k =
    and_then (perform fuel c k.lib)
      (λ s'. ok (record k { lib = s'; resumes = switches c k.lib s' }))

-- `main` behind its `green_mutex_init`.
abbrev pub rest_of_main : ℕ → ℕ → ℕ → List Call
rest_of_main g0 g1 g2 =
    Call.create g0 1 0
    ∷ Call.create g1 1 1
    ∷ Call.create g2 1 2
    ∷ Call.join g0 0
    ∷ Call.join g1 0
    ∷ Call.join g2 0
    ∷ []

abbrev pub start : ℕ → ℕ → ℕ → ℕ → ℕ → Machine
start mutex loop g0 g1 g2 = record {
  lib = clear_mutex mutex init;
  resumes = false;
  todo = rest_of_main g0 g1 g2;
  point = λ _. locking;
  left = λ _. loop;
  register = λ _. 0;
  zeros = 0;
  ones = 0;
  twos = 0;
  shared = 0;
}

-- `zero++`, `one++` or `two++`.
abbrev pub count : ℕ → Machine → Machine
count id k =
    if id == 0
    then record k { zeros = k.zeros + 1 }
    else if id == 1
    then record k { ones = k.ones + 1 }
    else record k { twos = k.twos + 1 }

-- One step of `test` in the thread `this`.
unfoldable pub step_of_test : ℕ → ℕ → ℕ → Machine → Result Machine
unfolding call
step_of_test mutex fuel this k = elim (k.point this) [
  | locking ↦
      if k.left this == 0
      then call fuel (Call.exit 0) (record k { point = at k.point this ended })
      else call fuel (Call.mutex_lock mutex) (record k { point = at k.point this counting })
  | counting ↦ ok (record (count (k.lib.arg this) k) { point = at k.point this loading })
  | loading ↦
      ok (record k { register = at k.register this k.shared; point = at k.point this storing })
  | storing ↦ ok (record k { shared = k.register this + 1; point = at k.point this unlocking })
  | unlocking ↦
      call fuel (Call.mutex_unlock mutex)
        (record k { point = at k.point this locking; left = at k.left this (k.left this - 1) })
  | ended ↦ ok k
]

unfoldable pub step_of_main : ℕ → Machine → Result Machine
unfolding call
step_of_main fuel k = elim k.todo [ [] ↦ ok k | c ∷ cs ↦ call fuel c (record k { todo = cs }) ]

-- A step of the running thread, or an interrupt: the context that a thread comes back to has the signal
-- blocked.
unfoldable pub move : ℕ → ℕ → Bool → Machine → Result Machine
unfolding call step_of_test step_of_main
move mutex fuel true k = if k.resumes then ok k else call fuel Call.interrupt k
move mutex fuel false k =
    if k.resumes
    then call fuel Call.continue k
    else if k.lib.running == main_green
    then step_of_main fuel k
    else step_of_test mutex fuel k.lib.running k

unfoldable pub moves : ℕ → ℕ → List Bool → Machine → Result Machine
unfolding move
moves mutex fuel [] k = ok k
moves mutex fuel (b ∷ bs) k = and_then (move mutex fuel b k) (λ k'. moves mutex fuel bs k')
