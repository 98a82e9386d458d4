-- ===== src/Task.antt =====
-- src/task/mod.rs: giving way to the other tasks once. The shared memory is the list of the tasks
-- woken so far.
pub mod Yield
use embedded_async.Base.{Bool, true, false, List, [], ◌∷◌, ◌++◌, if◌then◌else◌, ok}
use embedded_async.World.{Waker, Poll, pending, ready}
use embedded_async.Futures.{Poller}

-- `YieldNow`
pub record YieldNow : Type 0 where
  pub yielded : Bool

-- `YieldNow::poll`
unfoldable pub poll_yield : Poller (List Waker) YieldNow (Unit {0})
poll_yield me k woken =
    if me.yielded
    then ok (me, ready tt) woken
    else ok (record { yielded = true }, pending) (woken ++ k ∷ [])

-- `yield_now`
abbrev pub yield_now : YieldNow
yield_now = record { yielded = false }
