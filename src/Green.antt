-- ===== src/Green.antt =====
-- seminar3/green.c and green.h: green threads with a ready queue, condition variables and mutexes.
-- A pointer to a `green_t`, a condition or a mutex is a number, and NULL is 0. The functions that
-- switch to another thread are cut at `swapcontext`: what a thread does when it runs again is its
-- saved context, and `resume` is the code from there on.
pub mod Events
pub mod Scheduler
pub mod Queue
pub mod Yield
pub mod System
pub mod Lifecycle
pub mod Mutex
pub mod Wait
pub mod Race
pub mod Exclusion
pub mod Counter
mod Examples
use id.Links.{at}
use id.Base.{
  ℕ, zero, suc, Bool, true, false, Option, none, some, List, [], ◌∷◌, ◌==◌, ltb, ◌&&◌,
  if◌then◌else◌,
}

-- How an operation ends: in a state, by an access through NULL or a second use of a context that was
-- freed, or by a failed `assert`; the last one says that the fuel of the loop of `enqueue` ran out.
pub data Result {ℓ} (A : Type ℓ) : Type ℓ where
  ok : A → Result A
  null_access failed_assert out_of_fuel : Result A

abbrev pub and_then {ℓ ℓ'} : {A : Type ℓ} {B : Type ℓ'} → Result A → (A → Result B) → Result B
and_then (ok a) f = f a
and_then null_access f = null_access
and_then failed_assert f = failed_assert
and_then out_of_fuel f = out_of_fuel

-- An operation that first reads or writes through the pointer `p`.
abbrev pub deref {ℓ} : {A : Type ℓ} → ℕ → Result A → Result A
deref p r = if p == 0 then null_access else r

-- Where the context of a thread continues.
pub data Context : Type 0 where
  entry : Context  -- at the start of `green_thread`
  in_yield : Context  -- behind the `swapcontext` of `green_yield`
  in_join : (thread res : ℕ) → Context  -- behind the one of `green_join`
  in_wait : (mutex : ℕ) → Context  -- behind the first one of `green_cond_wait`
  in_lock : Context  -- behind the one of `green_mutex_lock`, or the second of `green_cond_wait`
  released : Context  -- freed by `green_join`

abbrev pub is_released : Context → Bool
is_released released = true
is_released _ = false

-- The queues, by what their head is a member of: `&ready_queue`, `&cond->susp_list`, `&mutex->susp`.
pub data Place : Type 0 where
  ready : Place
  waiting : (cond : ℕ) → Place
  blocked_on : (mutex : ℕ) → Place

abbrev pub same_place : Place → Place → Bool
same_place ready ready = true
same_place (waiting c) (waiting d) = c == d
same_place (blocked_on m) (blocked_on n) = m == n
same_place _ _ = false

-- The globals, the members of every `green_t` and of every mutex, and the variables of the callers
-- of `green_join` that take a result.
pub record State : Type 0 where
  pub running : ℕ
  pub masked : Bool  -- SIGVTALRM is blocked
  pub head : Place → ℕ
  pub next : ℕ → ℕ
  pub join : ℕ → ℕ
  pub fun : ℕ → ℕ
  pub arg : ℕ → ℕ
  pub retval : ℕ → ℕ
  pub zombie : ℕ → Bool
  pub context : ℕ → Context
  pub taken : ℕ → Bool
  pub result : ℕ → ℕ

-- A write to the head of a queue.
abbrev pub at_place : (Place → ℕ) → Place → ℕ → Place → ℕ
at_place f p v q = if same_place q p then v else f q

unfoldable pub dequeue : Place → State → ℕ × State
dequeue list s =
    if s.head list == 0
    then (0, s)
    else let thread = s.head list in
      (thread, record s { head = at_place s.head list (s.next thread); next = at s.next thread 0 })

-- The loop of `enqueue`: the last thread of a queue.
unfoldable pub last : ℕ → ℕ → (ℕ → ℕ) → Option ℕ
last zero susp next = none
last (suc k) susp next =
    let rest = last k (next susp) next in if next susp == 0 then some susp else rest

unfoldable pub enqueue : ℕ → Place → ℕ → State → Result State
enqueue fuel list thread s =
    if s.head list == 0
    then ok (record s { head = at_place s.head list thread })
    else elim (last fuel (s.head list) s.next) [
      | none ↦ out_of_fuel
      | some susp ↦ ok (record s { next = at s.next susp thread })
    ]

-- `sigprocmask`.
abbrev pub block : State → State
block s = record s { masked = true }

abbrev pub unblock : State → State
unblock s = record s { masked = false }

-- The running thread is suspended in `c`, and the first ready one runs; `fault` is what happens
-- if there is none.
unfoldable pub dispatch : Result State → Context → State → Result State
unfolding dequeue
dispatch fault c s =
    let susp = s.running in
    let (n, s1) = dequeue ready s in
    if n == 0 then fault else ok (record s1 { running = n; context = at s1.context susp c })

-- `green_thread` up to the call of the real function.
unfoldable pub green_thread : State → Result State
green_thread s = if s.fun s.running == 0 then failed_assert else ok (block s)

-- `green_thread` from the return of the real function, with its result, when no timer interrupt comes
-- before its end; the code does not block the signal here, and Green.Race is about an interrupt.
-- `setcontext` restores the signal mask that the next thread was saved with: the signal is blocked.
unfoldable pub green_exit : ℕ → ℕ → State → Result State
unfolding enqueue dequeue
green_exit fuel res s =
    let this = s.running in
    let joiner = s.join this in
    and_then (if joiner == 0 then ok s else enqueue fuel ready joiner s) (λ s1.
      let s2 : State = record s1 {
        retval = at s1.retval this res;
        zombie = at s1.zombie this true;
      } in
      let (n, s3) = dequeue ready s2 in
      if n == 0 then null_access else ok (record s3 { running = n; masked = true }))

unfoldable pub green_create : ℕ → ℕ → ℕ → ℕ → State → Result State
unfolding enqueue
green_create fuel new fun arg s0 =
    let s = block s0 in
    let s1 : State = record s {
      context = at s.context new entry;
      fun = at s.fun new fun;
      arg = at s.arg new arg;
      next = at s.next new 0;
      join = at s.join new 0;
      retval = at s.retval new 0;
      zombie = at s.zombie new false;
    } in
    and_then (enqueue fuel ready new s1) (λ s2. ok (unblock s2))

unfoldable pub green_yield : ℕ → State → Result State
unfolding enqueue dispatch
green_yield fuel s =
    and_then (enqueue fuel ready s.running (block s)) (λ s1. dispatch null_access in_yield s1)

-- The end of `green_join`, from "Collect result" on; the context of a thread is freed only once.
unfoldable pub collect : ℕ → ℕ → State → Result State
collect thread res s =
    let freed : State = record s { context = at s.context thread released; masked = false } in
    if is_released (s.context thread)
    then null_access
    else if s.retval thread == 0
    then ok freed
    else if res == 0
    then null_access
    else ok (record freed { result = at s.result res (s.retval thread) })

unfoldable pub join_at : ℕ → ℕ → State → Result State
unfolding collect dispatch
join_at thread res s0 =
    let s = block s0 in
    if s.zombie thread
    then collect thread res s
    else dispatch null_access (in_join thread res) (record s { join = at s.join thread s.running })

unfoldable pub green_join : ℕ → ℕ → State → Result State
unfolding join_at
green_join thread res s = deref thread (join_at thread res s)

unfoldable pub clear_cond : ℕ → State → State
clear_cond cond s = unblock (record s { head = at_place s.head (waiting cond) 0 })

unfoldable pub green_cond_init : ℕ → State → Result State
unfolding clear_cond
green_cond_init cond s = deref cond (ok (clear_cond cond s))

-- "Release the lock if we have a mutex", in `green_cond_wait`.
unfoldable pub release : ℕ → ℕ → State → Result State
unfolding enqueue dequeue
release fuel mutex s =
    if mutex == 0
    then ok s
    else let (susp, s1) =
        dequeue (blocked_on mutex) (record s { taken = at s.taken mutex false }) in
      and_then (enqueue fuel ready susp s1)
        (λ s2. ok (record s2 { head = at_place s2.head (blocked_on mutex) 0 }))

unfoldable pub wait_at : ℕ → ℕ → ℕ → State → Result State
unfolding enqueue release dispatch
wait_at fuel cond mutex s =
    if s.running == 0
    then failed_assert
    else and_then (enqueue fuel (waiting cond) s.running (block s))
        (λ s1. and_then (release fuel mutex s1) (λ s2. dispatch failed_assert (in_wait mutex) s2))

unfoldable pub green_cond_wait : ℕ → ℕ → ℕ → State → Result State
unfolding wait_at
green_cond_wait fuel cond mutex s =
    if s.running == 0 then failed_assert else deref cond (wait_at fuel cond mutex s)

-- "Try to take the lock", in `green_cond_wait` behind its first `swapcontext`.
unfoldable pub retake : ℕ → ℕ → State → Result State
unfolding enqueue dispatch
retake fuel mutex s =
    if mutex == 0
    then ok (unblock s)
    else if s.taken mutex
    then and_then (enqueue fuel (blocked_on mutex) s.running s)
        (λ s1. dispatch null_access in_lock s1)
    else ok (unblock (record s { taken = at s.taken mutex true }))

-- Without a waiting thread it returns early, and leaves the signal blocked.
unfoldable pub signal_at : ℕ → ℕ → State → Result State
unfolding enqueue dequeue
signal_at fuel cond s0 =
    let s = block s0 in
    if s.head (waiting cond) == 0
    then ok s
    else let (thread, s1) = dequeue (waiting cond) s in
      and_then (enqueue fuel ready thread s1) (λ s2. ok (unblock s2))

unfoldable pub green_cond_signal : ℕ → ℕ → State → Result State
unfolding signal_at
green_cond_signal fuel cond s = deref cond (signal_at fuel cond s)

-- The kernel delivers SIGVTALRM only while it is not blocked.
unfoldable pub timer_handler : ℕ → State → Result State
unfolding green_yield
timer_handler fuel s = if s.masked then ok s else green_yield fuel s

unfoldable pub clear_mutex : ℕ → State → State
clear_mutex mutex s =
    unblock
      (record s { taken = at s.taken mutex false; head = at_place s.head (blocked_on mutex) 0 })

unfoldable pub green_mutex_init : ℕ → State → Result State
unfolding clear_mutex
green_mutex_init mutex s = deref mutex (ok (clear_mutex mutex s))

unfoldable pub lock_at : ℕ → ℕ → State → Result State
unfolding enqueue dispatch
lock_at fuel mutex s0 =
    let s = block s0 in
    if s.taken mutex
    then and_then (enqueue fuel (blocked_on mutex) s.running s)
        (λ s1. dispatch failed_assert in_lock s1)
    else ok (unblock (record s { taken = at s.taken mutex true }))

unfoldable pub green_mutex_lock : ℕ → ℕ → State → Result State
unfolding lock_at
green_mutex_lock fuel mutex s = deref mutex (lock_at fuel mutex s)

unfoldable pub unlock_at : ℕ → ℕ → State → Result State
unfolding enqueue dequeue
unlock_at fuel mutex s0 =
    let s = block s0 in
    if s.head (blocked_on mutex) == 0
    then ok (
        unblock (record s {
          taken = at s.taken mutex false;
          head = at_place s.head (blocked_on mutex) 0;
        }))
    else let (susp, s1) = dequeue (blocked_on mutex) s in
      and_then (enqueue fuel ready susp s1) (λ s2. ok (unblock s2))

unfoldable pub green_mutex_unlock : ℕ → ℕ → State → Result State
unfolding unlock_at
green_mutex_unlock fuel mutex s = deref mutex (unlock_at fuel mutex s)

-- What the thread that `swapcontext` or `setcontext` switched to does up to the end of the function
-- that it was suspended in, or up to its next `swapcontext`.
unfoldable pub resume : ℕ → State → Result State
unfolding green_thread collect retake
resume fuel s = elim (s.context s.running) [
  | entry ↦ green_thread s
  | in_yield ↦ ok (unblock s)
  | in_join thread res ↦ collect thread res s
  | in_wait mutex ↦ retake fuel mutex s
  | in_lock ↦ ok (unblock s)
  | released ↦ null_access
]

-- `init`, which runs before `main`: what it asks the timer for, when `installed` is what `sigaction`
-- returns. `main_cntx`, which it sets too, is written again before it is read.
pub record Timer : Type 0 where
  pub interval : ℕ × ℕ  -- seconds and microseconds
  pub value : ℕ × ℕ

abbrev pub period : ℕ
period = 100

unfoldable pub install : ℕ → Result Timer
install installed =
    let interval : ℕ × ℕ = (0, period) in
    if installed == 0 then ok (record { interval = interval; value = interval }) else failed_assert

-- `main_green` runs, and nothing else is initialised.
abbrev pub main_green : ℕ
main_green = 1

abbrev pub init : State
init = record {
  running = main_green;
  masked = false;
  head = λ _. 0;
  next = λ _. 0;
  join = λ _. 0;
  fun = λ _. 0;
  arg = λ _. 0;
  retval = λ _. 0;
  zombie = λ _. false;
  context = λ _. entry;
  taken = λ _. false;
  result = λ _. 0;
}
