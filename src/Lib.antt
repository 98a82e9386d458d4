-- ===== src/Lib.antt =====
-- Verification library of the embedded-async crate: async primitives without allocation, for one
-- thread. Every primitive keeps its waiting futures in intrusive doubly linked lists whose links lie
-- inside the futures, and counts the references to itself.
--
-- Parts, and the files that model them:
-- - src/intrusive/internal/mod.rs: Intrusive.Links. The memory of all links is an explicit heap; a
--   pointer is an address and 0 is null; a dereference of an address that holds no link is a fault.
--   Chain, Invariant, Sentinels, Push, Unlink, Move, Lifetime and Iterate below it relate the heap to
--   lists of addresses.
-- - src/intrusive/slist.rs: Intrusive.Slist, a singly linked list over memory of its own; no `mod`
--   line of the crate names that file. Chain, Ends and Remove are its laws.
-- - src/intrusive/rc.rs: Intrusive.Rc. The `u32` count wraps, as in a build without overflow checks.
-- - World: what a primitive works on (links, waiters, the tasks woken so far, the primitive), and the
--   loop `while let Some(x) = list.pop_front()` over a list that lives for one call, which several
--   primitives share. World.Waits says what a wait list holds, World.Drain and World.Survive are the
--   laws of the loop, and World.Without treats a list less the link of a future that goes.
-- - src/sync/mutex.rs: Sync.Mutex. A poll, a guard and its drop are commands on the world; Laws says
--   what they do. System adds what of the program is alive (references, guards, futures) and the
--   states that operations in any order reach; Steps, Lives, Cancel and Queue keep them well
--   formed, and Exclusion draws the conclusions.
-- - src/sync/condvar.rs: Sync.Condvar, in the same way; Notify, NotifyAll, Wait and Again are its laws.
--   Await has the async functions `wait` and `wait_until`, as state machines on the memory that a mutex
--   and a condition variable share: Release for the first poll, Relock for those after a
--   notification, Until for the loop. The condition of `wait_until` is a parameter.
-- - src/channel/mod.rs: Channel. The queue of the crate heapless is a parameter (Channel.Queue), with
--   its documented behaviour as laws, which a queue made of a list meets. Notify, TrySend, TryRecv,
--   Wait, Cancel, Drop and Deliver are its laws. Spec is a bounded channel without memory, Refine
--   relates the two, one operation at a time, and Trace does so for runs; Alert says who sleeps when
--   and Tally how often, and Wakeups draws the conclusions for the memory.
-- - src/timer/mod.rs: Timer. The backend is a parameter, and a duration is the count of time units
--   of the macro `etime_impl`; Duration has the trait, and the instance for
--   `core::time::Duration`. Local, Loop, Update and Append treat the loops over a list of a call,
--   Sleepers and Elapse `update_sleeping_timers` and `append_new_timers`, Delay the polls of a
--   delay, Least and Iterate the least time left, Runner a poll of the runner, OnTime many of
--   them, Stages how far a delay has come, Ready the poll of a delay after one and Timeout that of
--   the future combinator `timeout` over two delays. Cancel treats the drop of a delay. Spec is a
--   clock without memory, Refine relates the two and Trace does so for runs.
-- - src/interrupt/mod.rs: Interrupt. `set_waker` advances one atomic access at a time, and an
--   interrupt may run `wake` between any two.
-- - src/prelude/mod.rs: Futures. A future is a state with a poll, and the polls of the futures that
--   are combined are parameters, on any shared memory, as is what `timeout` and `delay` use of a timer,
--   which Timer.Timeout fills in. Turns says what a poll and a run of polls give.
-- - src/task/mod.rs: Task.
-- Examples holds the theorems at concrete inputs; UnitTests, below Intrusive.Links, Intrusive.Slist,
-- Intrusive.Rc, Sync.Mutex, Channel and Interrupt, has the unit tests of the source, which the models
-- pass.
--
-- State and errors: an operation is a command from a state to a value and the next state, or to a
-- stop by undefined behaviour (`fault`), by a panic or because a loop has used up its fuel
-- (Base.Run). A waker is the number of the task it wakes, and `woken` lists the calls. Wherever the
-- code makes an object on its stack, the operation takes its addresses; they must be fresh.
-- Fuel: a loop over a wait list takes one round more than the list has links; the theorems hold for
-- every fuel above the number of waiting tasks. `wait_until` takes two rounds of its loop at most in
-- a poll: once it has given the mutex back it waits, or ends without a notifier.
-- Assumptions: a future that waits is polled again only once its task was woken (where it is polled
-- before, the list is corrupted: Sync.Condvar.Again). The lists that live for the calls of one poll
-- of the timer's runner, one after the other, share their place.
--
-- Not modelled: the examples, and of the test support all but the poll by hand; and
-- src/channel/broadcast.rs, which is not part of the build and cannot be (it names a module, methods
-- and a field that do not exist). Ownership rules that the borrow checker enforces are hypotheses.
pub mod Base
pub mod Intrusive
pub mod World
pub mod Sync
pub mod Timer
pub mod Task
pub mod Futures
pub mod Interrupt
pub mod Channel
mod Examples
