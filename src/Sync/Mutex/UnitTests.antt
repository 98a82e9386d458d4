-- ===== src/Sync/Mutex/UnitTests.antt =====
-- src/sync/mutex.rs: the unit tests of the file, as commands on one mutex, with src/test/mod.rs, by
-- which they poll a future by hand. The sentinels of the wait list lie at 1 and 2, those of the list
-- of a call at 3 and 4, the links of futures at 5 and 6, and their waiters at 15 and 16. A failed
-- assertion is a panic, and what a test declares is dropped at its end.
use embedded_async.Base.{
  ℕ, [], ◌≡◌, refl, Bool, true, false, not, ◌==◌, Option, none, some, is_some, is_none, ok, panic,
  pure, ◌>>=◌, ◌>>◌, expect, assert, is_ok,
}
use embedded_async.Intrusive.Links.{
  null, LinkList, new_list, drop_list, is_empty, move_to_front_of, pop_front,
}
use embedded_async.Intrusive.Rc.{drop_anchor}
use embedded_async.World.{World, Waker, Poll, pending, ready, on_links, get}
use embedded_async.Sync.Mutex.{
  MutexWaiter, Inner, MutexCmd, MutexGuard, LockFuture, new, take_ref, try_lock, lock, poll,
  drop_future, clone, drop_mutex_ref, drop_guard, read, write,
}

abbrev wait_list : LinkList
wait_list = record { head = 1; tail = 2 }

abbrev local : LinkList
local = record { head = 3; tail = 4 }

abbrev TestCmd : Type 0 → Type 0
TestCmd A = MutexCmd ℕ A

-- The memory in which a test makes its mutex.
abbrev fresh : World MutexWaiter (Inner ℕ)
fresh = record {
  links = record { live = λ a. false; owner = λ a. null; prev = λ a. null; next = λ a. null };
  waiter = λ p. none;
  woken = [];
  self = new 10 wait_list;
}

abbrev drop_mutex : TestCmd (Unit {0})
drop_mutex = do
  m ← get
  elim (drop_anchor m.rc) [ ok _ _ ↦ on_links (drop_list wait_list) | _ ↦ (λ w. panic) ]

abbrev is_locked : TestCmd Bool
is_locked = do m ← get; pure m.locked

abbrev nobody_waits : TestCmd Bool
nobody_waits = on_links (is_empty wait_list)

abbrev unlock : MutexGuard → TestCmd (Unit {0})
unlock = drop_guard 3 local

-- `ManualPoll::poll`: one poll, with a waker of its own.
abbrev to_option : Poll MutexGuard → Option MutexGuard
to_option pending = none
to_option (ready g) = some g

abbrev manual_poll : LockFuture → Waker → TestCmd (Option MutexGuard)
manual_poll future k = do r ← poll future k; pure (to_option r)

unfoldable new_mutex_unlocked : TestCmd (Unit {0})
new_mutex_unlocked = do
  on_links (new_list wait_list)
  locked ← is_locked
  assert (not locked)
  m ← get
  assert (m.value == 10)
  drop_mutex

unfoldable unlock_works : TestCmd (Unit {0})
unlock_works = do
  on_links (new_list wait_list)
  mutex ← take_ref 100
  locked ← is_locked
  assert (not locked)
  tried ← try_lock
  guard ← expect tried
  locked ← is_locked
  assert locked
  unlock guard
  locked ← is_locked
  assert (not locked)
  drop_mutex_ref mutex
  drop_mutex

unfoldable lock_blocks : TestCmd (Unit {0})
lock_blocks = do
  on_links (new_list wait_list)
  mref ← take_ref 100
  first ← lock 5 15
  polled ← manual_poll first 50
  assert (is_some polled)
  guard ← expect polled
  value ← read guard
  assert (value == 10)
  alone ← nobody_waits
  assert alone
  second ← lock 6 16
  polled ← manual_poll second 60
  mref2 ← clone mref.ref
  assert (is_none polled)
  alone ← nobody_waits
  assert (not alone)
  unlock guard
  alone ← nobody_waits
  assert alone
  polled ← manual_poll second 60
  assert (is_some polled)
  guard ← expect polled
  write guard 40
  unlock guard
  tried ← try_lock
  assert (is_some tried)
  guard ← expect tried
  value ← read guard
  assert (value == 40)
  unlock guard
  drop_mutex_ref mref2
  drop_future second
  drop_future first
  drop_mutex_ref mref
  drop_mutex

-- All of them pass.
passes :
    (is_ok (new_mutex_unlocked fresh) ≡ true)
    × (is_ok (unlock_works fresh) ≡ true)
    × (is_ok (lock_blocks fresh) ≡ true)
unfolding new_mutex_unlocked unlock_works lock_blocks new_list drop_list is_empty drop_anchor
    take_ref try_lock lock poll drop_future clone drop_mutex_ref drop_guard read write
    move_to_front_of pop_front
passes = (refl, refl, refl)
