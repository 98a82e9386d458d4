-- ===== src/Examples/Condvar.antt =====
-- The theorems on the condition variable at concrete inputs: two futures wait for a notification.
use embedded_async.Base.{
  ◌≡◌, ◌==◌, refl, [], ◌∷◌, ok, out_of_fuel, some, none, arith, Option, if◌then◌else◌, update,
  success, failure,
}
use embedded_async.Intrusive.Links.{Ptr}
use embedded_async.Intrusive.Rc.{rc_ref}
use embedded_async.World.{World, pending, ready}
use embedded_async.World.Waits.{Waits}
use embedded_async.Sync.Condvar.{
  Waiter, Condvar, CondvarNotifier, WaitFuture, wait_error, default_waiter, try_notify_one,
  try_notify_all, poll_wait, drop_notifier,
}
use embedded_async.Sync.Condvar.Notify.{asleep, awake, IsCondvar, try_notify_one-wakes}
use embedded_async.Sync.Condvar.Again.{poll_wait-again}
use embedded_async.Sync.Condvar.NotifyAll.{AllNotified, try_notify_all-wakes}
use embedded_async.Sync.Condvar.Wait.{
  poll_wait-answers, try_notify_one-ready, drop_notifier-forgets,
}
use embedded_async.Examples.Memory.{heap, first, second, first-IsList}

abbrev waiters : Ptr → Option Waiter
waiters p =
    if p == 15
    then some (asleep 50)
    else if p == 18
    then some (asleep 80)
    else if p == 17
    then some default_waiter
    else none

abbrev memory : World Waiter Condvar
memory = record {
  links = heap;
  waiter = waiters;
  woken = 9 ∷ [];
  self = record {
    rc_waiter = record { ref_count = 4; contents = 100 };
    rc_notifier = record { ref_count = 1; contents = 100 };
    waiters = first;
  };
}

abbrev waits : Waits
waits = (5, 50) ∷ (8, 80) ∷ []

memory-IsCondvar : IsCondvar memory waits
memory-IsCondvar = record {
  list = first-IsList;
  waits = ((omega arith, refl), ((omega arith, refl), tt));
  own = ground arith;
}

abbrev newcomer : WaitFuture
newcomer = record { node = record { data_at = 17; link = 7 }; condvar = rc_ref }

abbrev oldest : WaitFuture
oldest = record { node = record { data_at = 15; link = 5 }; condvar = rc_ref }

abbrev notifier : CondvarNotifier
notifier = record { condvar = rc_ref }

try_notify_one-wakes_example :
    (u : World Waiter Condvar) × (try_notify_one memory ≡ ok tt u)
    × IsCondvar u ((8, 80) ∷ [])
    × (u.self ≡ memory.self)
    × (u.woken ≡ 9 ∷ 50 ∷ [])
    × (u.waiter ≡ update waiters 15 (some awake))
try_notify_one-wakes_example = try_notify_one-wakes memory 5 50 ((8, 80) ∷ []) memory-IsCondvar

try_notify_all-wakes_example :
    (u : World Waiter Condvar) × (try_notify_all 3 memory ≡ ok tt u)
    × IsCondvar u []
    × (u.self ≡ memory.self)
    × (u.woken ≡ 9 ∷ 50 ∷ 80 ∷ [])
    × AllNotified (15 ∷ 18 ∷ []) memory u
try_notify_all-wakes_example = try_notify_all-wakes 3 memory waits memory-IsCondvar (omega arith)

abbrev alone : World Waiter Condvar
alone = record memory {
  self = record memory.self { rc_notifier = record { ref_count = 0; contents = 100 } };
}

poll_wait-answers_example : poll_wait oldest 51 alone ≡ ok (ready (failure wait_error)) alone
poll_wait-answers_example = poll_wait-answers alone oldest 51 (asleep 50) refl refl

try_notify_one-ready_example :
    (u : World Waiter Condvar) × (try_notify_one memory ≡ ok tt u)
    × (poll_wait oldest 51 u ≡ ok (ready (success tt)) u)
try_notify_one-ready_example =
    try_notify_one-ready memory 5 50 51 ((8, 80) ∷ []) oldest memory-IsCondvar refl

drop_notifier-forgets_example :
    (u : World Waiter Condvar) × (drop_notifier notifier memory ≡ ok tt u)
    × IsCondvar u waits
    × (u.woken ≡ 9 ∷ [])
    × (poll_wait oldest 51 u ≡ ok (ready (failure wait_error)) u)
drop_notifier-forgets_example =
    drop_notifier-forgets memory waits notifier oldest 50 51 memory-IsCondvar refl refl

-- A memory in which one future waits, on the second list.
abbrev lone : World Waiter Condvar
lone = record memory {
  links = record heap { owner = update heap.owner 6 17 };
  waiter = update waiters 17 (some (asleep 60));
  self = record memory.self { waiters = second };
}

abbrev lone_future : WaitFuture
lone_future = record { node = record { data_at = 17; link = 6 }; condvar = rc_ref }

lone-IsCondvar : IsCondvar lone ((6, 60) ∷ [])
lone-IsCondvar = record {
  list = record {
    valid = λ a m. ground arith;
    distinct = ground arith;
    chain = ground arith;
    front = refl;
    back = refl;
  };
  waits = ((omega arith, refl), tt);
  own = ground arith;
}

poll_wait-again_example :
    (u : World Waiter Condvar) × (poll_wait lone_future 61 lone ≡ ok pending u)
    × (try_notify_all 1000 u ≡ out_of_fuel)
poll_wait-again_example =
    poll_wait-again 1000 lone lone_future 60 61 lone-IsCondvar refl (omega arith)
