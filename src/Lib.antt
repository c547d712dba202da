-- ===== src/Lib.antt =====
-- Verification of the C programs of a course in operating systems.
--
-- The repository holds one directory for each assignment. Each program has a module of its own,
-- and Green.Counter and Bench are clients of Green and Dlmalloc; Base, Links and Threads hold
-- what the modules share.
--
-- seminar2/dlmalloc.c: module Dlmalloc. Memory is an array of bytes (Dlmalloc.Memory), `get` and
--   `set` read and write a member of `struct head`, and each C function is a function of its
--   name; `take`, `carve` and `claim` are the body of the loop of `find`; the functions that
--   only inspect are in Dlmalloc.Views. The loops run on fuel, which their callers take as an
--   argument, and return `none` if it runs out; the theorems give the fuel that is enough. An
--   `int` and a `size_t` are bit patterns, and a size is cut to 16 bits by the write to its
--   member. The address that mmap returns is an argument. A read through NULL is a read at
--   address 0, not a fault, but for the first one of `sanity`. The blocks of the arena and the
--   addresses of the free list are the abstract state (Dlmalloc.Blocks, Dlmalloc.FreeList),
--   `IsValid` ties it to the memory (Dlmalloc.State), and `allocate` is the specification of
--   `find` on it (Dlmalloc.Allocate.Find).
--
-- locks-assignment/peterson.c: module Peterson. `step` is one shared access of `lock`, `unlock`
--   or `increment`, and `run` an interleaving, given as the list of the threads that move, under
--   sequential consistency. The counter is a natural number, which is the int of the source as
--   long as it stays below 2^31.
--
-- locks-assignment/swap.c: module Swap, in the same way; the compare-and-swap is one step. The
--   ids and the mutex that `main` passes are undeclared in the source, and are read as 0, 1 and
--   the address of `global`.
--
-- seminar3/green.c and green.h: module Green. The members of all threads are functions from the
--   thread's address, and a queue is the chain of `next` members from its head (Links ties it to
--   a list). Each function is cut at `swapcontext`: `dispatch` saves where the thread will
--   continue, and `resume` is the code from there. A function that the client calls with a
--   pointer is `deref` of its body, such as `lock_at` of green_mutex_lock. The loop of `enqueue`
--   runs on fuel, and the length of the queue is enough. A failed `assert`, an access through
--   NULL (or the second use of a freed context) and an end of the fuel are results. SIGVTALRM is
--   modelled by the mask that `sigprocmask` sets. `malloc` is taken to succeed. `init` is
--   `install`, told by what it asks of the system. A history is a list of events, each of them a
--   call by the running thread, the end of its function, a timer interrupt, or its return from
--   the switch at which it was suspended (Green.Events); it may take them in any order. The end
--   of a thread's function, green_exit, is one event: an interrupt there is not part of a
--   history, though the code does not block the signal. Green.Race cuts green_exit where
--   `dequeue` has read the next thread, and Green.Race.Examples runs a history with an interrupt
--   there. Green.Scheduler is the specification of the whole library: a scheduler whose queues
--   are lists, without links and loops. Green.System holds what is true of all queues at once,
--   and ties each function to the scheduler (Green.System.Sound); Green.Exclusion watches one
--   mutex from outside, and reasons on the scheduler. In Green.System a thread has one home, and
--   each move of a thread changes one home. Fuel of two for each event of a history is enough,
--   for at most two threads join a queue in one event.
--
-- seminar3/test_mutex.c: module Green.Counter, a client of the green threads. Its machine holds
--   the state of the library, the place of each thread in the loop of `test`, and the globals. A
--   move is one access of the running thread, a call of the library, its return from a switch,
--   or a timer interrupt; `shared++` is a load and a store. An interrupt cannot come between a
--   switch and the return from it, since a context keeps the signal mask of its `swapcontext`.
--   The end of a thread is one move.
--
-- mylloc-assignment/mhysa.c and mylloc.c: module Mhysa. The free list is a chain of `next`
--   members, as the queues of Green are (Links). `unlink`, `search` and `grow` are the parts of
--   `malloc`; the loop runs on fuel, and more than the length of the free list is enough.
--
-- swapping-assignment/bench.c and random.c: module Paging. The results of `rand` and the number
--   `high`, which the source computes with floats, are arguments, and so is the index that the
--   uninitialised pointer `evict` stands for. A loop of `simulate` that does not end is `none`.
--
-- tlb-assignment/tlb.c: module Tlb, the loops of `main` without the clock.
--
-- mylloc-assignment/bench.c and seminar2/bench.c: module Bench, the loop that fills and empties
--   a buffer of blocks, for any allocator (the record Allocator); `dl_allocator` is that of
--   dlmalloc.c, and Bench.Client shows the loop as its client. seminar2/benchtaken.c: module
--   Bench.Taken, on the model of dlmalloc.c; a write through NULL and an end of the fuel are
--   both `none`.
--
-- seminar1/myos.c: module Kernel. The video memory is a function from the index, the name an
--   argument.
--
-- contexts-assignment/yield.c: module Coroutines. A context is the place where it continues,
--   `act` is one step of the current one, and the lines printed are kept in a list. MAX is a
--   parameter, at least 1.
--
-- contexts-assignment/switch.c: module ContextSwitch, in the same way.
--
-- signals-assignment/test1.c: module Signals, the program that is not commented out. Which
--   addresses fault is an argument.
--
-- Not modelled are the programs that only show what the system does: the process, stack and heap
-- experiments (hellodolly-assignment, code.c, heap.c, fork.c), the other test programs of
-- seminar3, the random sizes of rand.c, which are floats, and the assembly and the linker script
-- around the kernel of seminar1.
mod Base
mod Threads
mod Links
pub mod Dlmalloc
pub mod Peterson
pub mod Swap
pub mod Green
pub mod Paging
pub mod Tlb
pub mod Mhysa
pub mod Bench
pub mod Coroutines
pub mod Kernel
pub mod ContextSwitch
pub mod Signals
