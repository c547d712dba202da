-- ===== src/Green/Scheduler.antt =====
-- What seminar3/green.c promises: a scheduler whose queues are lists. It has no addresses of links, no
-- loops and no fuel; an operation ends in a new schedule, or in the fault of the C function.
use id.Base.{ℕ, Bool, true, false, Option, none, some, List, [], ◌∷◌, ◌++◌, ◌==◌, if◌then◌else◌}
use id.Links.{at}
use id.Green.{
  State, Place, ready, waiting, blocked_on, Context, entry, in_yield, in_join, in_wait, in_lock,
  released, Result, ok, null_access, failed_assert, and_then, same_place, deref, is_released,
  main_green, init,
}
use id.Green.Events.{Call}
-- The members of the threads, and the queues as lists.
pub mod Heads

pub record Schedule : Type 0 where
  pub running : ℕ
  pub masked : Bool
  pub queue : Place → List ℕ
  pub join : ℕ → ℕ
  pub fun : ℕ → ℕ
  pub arg : ℕ → ℕ
  pub retval : ℕ → ℕ
  pub zombie : ℕ → Bool
  pub context : ℕ → Context
  pub taken : ℕ → Bool
  pub result : ℕ → ℕ

abbrev pub put_queue : (Place → List ℕ) → Place → List ℕ → Place → List ℕ
put_queue q p xs r = if same_place r p then xs else q r

abbrev pub append : Place → ℕ → Schedule → Schedule
append p t a = record a { queue = put_queue a.queue p (a.queue p ++ (t ∷ [])) }

-- The first thread of a queue, if there is one, and the schedule without it.
unfoldable pub first : Place → Schedule → Option (ℕ × Schedule)
first p a = elim (a.queue p) [
  | [] ↦ none
  | x ∷ xs ↦ some (x, record a { queue = put_queue a.queue p xs })
]

-- The running thread is suspended in `c`; `fault` is what happens when none is ready.
unfoldable pub switch_to : Result Schedule → Context → Schedule → Result Schedule
unfolding first
switch_to fault c a = elim (first ready a) [
  | none ↦ fault
  | some (x, a1) ↦ ok (record a1 { running = x; context = at a1.context a1.running c })
]

unfoldable pub spawn : ℕ → ℕ → ℕ → Schedule → Schedule
spawn new f arg a = append ready new (record a {
  masked = false;
  context = at a.context new entry;
  fun = at a.fun new f;
  arg = at a.arg new arg;
  join = at a.join new 0;
  retval = at a.retval new 0;
  zombie = at a.zombie new false;
})

unfoldable pub rotate : Schedule → Result Schedule
unfolding switch_to
rotate a = switch_to null_access in_yield (append ready a.running (record a { masked = true }))

unfoldable pub tick : Schedule → Result Schedule
unfolding rotate
tick a = if a.masked then ok a else rotate a

-- The result of `thread` is stored at `res`.
unfoldable pub deliver : ℕ → ℕ → Schedule → Result Schedule
deliver thread res a =
    let freed : Schedule = record a { context = at a.context thread released; masked = false } in
    if is_released (a.context thread)
    then null_access
    else if a.retval thread == 0
    then ok freed
    else if res == 0
    then null_access
    else ok (record freed { result = at a.result res (a.retval thread) })

unfoldable pub await : ℕ → ℕ → Schedule → Result Schedule
unfolding deliver switch_to
await thread res a =
    if a.zombie thread
    then deliver thread res (record a { masked = true })
    else switch_to null_access (in_join thread res)
        (record a { masked = true; join = at a.join thread a.running })

-- The next ready thread runs, in place of one that has ended, with the signal mask of its context.
unfoldable pub succeed : Schedule → Result Schedule
unfolding first
succeed a = elim (first ready a) [
  | none ↦ null_access
  | some (x, a1) ↦ ok (record a1 { running = x; masked = true })
]

unfoldable pub terminate : ℕ → Schedule → Result Schedule
unfolding succeed
terminate res a =
    let joiner = a.join a.running in
    let ended : Schedule = record a {
      retval = at a.retval a.running res;
      zombie = at a.zombie a.running true;
    } in
    succeed (if joiner == 0 then ended else append ready joiner ended)

abbrev pub clear : Place → Schedule → Schedule
clear p a = record a { queue = put_queue a.queue p [] }

-- The first thread of a queue becomes ready.
unfoldable pub wake : Place → Schedule → Schedule
unfolding first
wake p a = elim (first p a) [ none ↦ a | some (x, a1) ↦ append ready x a1 ]

-- The mutex of `green_cond_wait` is free, one of the threads that wait for it is ready, and the others
-- are lost.
unfoldable pub let_go : ℕ → Schedule → Schedule
unfolding wake
let_go mutex a =
    if mutex == 0
    then a
    else clear (blocked_on mutex)
        (wake (blocked_on mutex) (record a { taken = at a.taken mutex false }))

unfoldable pub suspend_on : ℕ → ℕ → Schedule → Result Schedule
unfolding let_go switch_to
suspend_on cond mutex a =
    switch_to failed_assert (in_wait mutex)
      (let_go mutex (append (waiting cond) a.running (record a { masked = true })))

-- A thread takes a mutex, or waits for it.
unfoldable pub contend : Result Schedule → ℕ → Schedule → Result Schedule
unfolding switch_to
contend fault mutex a =
    if a.taken mutex
    then switch_to fault in_lock (append (blocked_on mutex) a.running a)
    else ok (record a { masked = false; taken = at a.taken mutex true })

-- A signal that finds no thread stays blocked.
unfoldable pub signal_one : ℕ → Schedule → Schedule
unfolding first
signal_one cond a = elim (first (waiting cond) a) [
  | none ↦ record a { masked = true }
  | some (x, a1) ↦ append ready x (record a1 { masked = false })
]

-- The mutex goes to the first thread that waits for it, or is free.
unfoldable pub hand_over : ℕ → Schedule → Schedule
unfolding first
hand_over mutex a = elim (first (blocked_on mutex) a) [
  | none ↦ record a { masked = false; taken = at a.taken mutex false }
  | some (x, a1) ↦ append ready x (record a1 { masked = false })
]

unfoldable pub go_on : Schedule → Result Schedule
unfolding deliver contend
go_on a = elim (a.context a.running) [
  | entry ↦ if a.fun a.running == 0 then failed_assert else ok (record a { masked = true })
  | in_yield ↦ ok (record a { masked = false })
  | in_join thread res ↦ deliver thread res a
  | in_wait mutex ↦
      if mutex == 0 then ok (record a { masked = false }) else contend null_access mutex a
  | in_lock ↦ ok (record a { masked = false })
  | released ↦ null_access
]

-- An event of a history.
unfoldable pub react : Call → Schedule → Result Schedule
unfolding spawn rotate tick go_on await terminate signal_one contend hand_over suspend_on
react (Call.create new fun arg) a = ok (spawn new fun arg a)
react Call.yield a = rotate a
react Call.interrupt a = tick a
react Call.continue a = go_on a
react (Call.join thread res) a = deref thread (await thread res a)
react (Call.exit res) a = terminate res a
react (Call.cond_init cond) a = deref cond (ok (clear (waiting cond) (record a { masked = false })))
react (Call.cond_signal cond) a = deref cond (ok (signal_one cond a))
react (Call.mutex_init mutex) a =
    deref mutex
      (ok (clear (blocked_on mutex) (record a { masked = false; taken = at a.taken mutex false })))
react (Call.mutex_lock mutex) a =
    deref mutex (contend failed_assert mutex (record a { masked = true }))
react (Call.mutex_unlock mutex) a = deref mutex (ok (hand_over mutex a))
react (Call.cond_wait cond mutex) a = deref cond (suspend_on cond mutex a)

unfoldable pub follow : List Call → Schedule → Result Schedule
unfolding react
follow [] a = ok a
follow (c ∷ cs) a = and_then (react c a) (λ a'. follow cs a')

-- The schedule of a state whose queues hold `q`.
abbrev pub view : (Place → List ℕ) → State → Schedule
view q s = record {
  running = s.running;
  masked = s.masked;
  queue = q;
  join = s.join;
  fun = s.fun;
  arg = s.arg;
  retval = s.retval;
  zombie = s.zombie;
  context = s.context;
  taken = s.taken;
  result = s.result;
}
