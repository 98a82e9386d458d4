-- ===== src/Examples/Await.antt =====
-- The theorems on `wait` and `wait_until` at concrete inputs: two tasks wait for the lock of a
-- mutex and one for a notification.
use embedded_async.Base.{
  ℕ, ◌+◌, ◌-◌, ◌≡◌, ◌==◌, ltb, refl, Bool, true, false, [], ◌∷◌, ok, some, none, arith, Option,
  if◌then◌else◌, success,
}
use embedded_async.Intrusive.Links.{Ptr}
use embedded_async.Intrusive.Rc.{rc_ref}
use embedded_async.World.{pending, ready}
use embedded_async.World.Waits.{Waits}
use embedded_async.Sync.Mutex.{MutexWaiter, MutexRef, MutexGuard}
use embedded_async.Sync.Condvar.{Waiter, CondvarWaiter, WaitFuture}
use embedded_async.Sync.Condvar.Notify.{asleep, awake}
use embedded_async.Sync.Condvar.Await.{
  Shared, WaitPlaces, starts, sleeps, relocks, finished, poll_call, poll_until,
}
use embedded_async.Sync.Condvar.Await.Joint.{IsShared}
use embedded_async.Sync.Condvar.Await.Release.{poll_call-releases}
use embedded_async.Sync.Condvar.Await.Relock.{IsNotified, IsFree, poll_call-locks, poll_call-queues}
use embedded_async.Sync.Condvar.Await.Until.{poll_until-holds, poll_until-sleeps}
use embedded_async.Examples.Memory.{
  heap, first, second, local, first-IsList, second-IsList, apart, local-Fresh, free-Valid,
}

abbrev lockers : Ptr → Option MutexWaiter
lockers p =
    if p == 15
    then some (record { waker = some 50 })
    else if p == 18
    then some (record { waker = some 80 })
    else none

abbrev sleepers : Ptr → Option Waiter
sleepers p = if p == 16 then some (asleep 60) else if p == 17 then some awake else none

abbrev memory : Bool → Shared ℕ
memory locked = record {
  links = heap;
  locking = lockers;
  sleeping = sleepers;
  woken = [];
  mutex = record {
    locked = locked;
    value = 10;
    rc = record { ref_count = 4; contents = 100 };
    waiting_wakers = first;
  };
  condvar = record {
    rc_waiter = record { ref_count = 2; contents = 200 };
    rc_notifier = record { ref_count = 1; contents = 200 };
    waiters = second;
  };
}

abbrev locking : Waits
locking = (5, 50) ∷ (8, 80) ∷ []

abbrev sleeping : Waits
sleeping = (6, 60) ∷ []

memory-IsShared : (locked : Bool) → IsShared (memory locked) locking sleeping
memory-IsShared locked = record {
  mutex = record {
    list = first-IsList;
    waits = (
      (omega arith, record { waker = some 50 }, refl, refl),
      ((omega arith, record { waker = some 80 }, refl, refl), tt),
    );
  };
  condvar = record { list = second-IsList; waits = ((omega arith, refl), tt); own = (refl, tt) };
  apart = apart;
}

abbrev from : CondvarWaiter
from = record { condvar = rc_ref }

abbrev guard : MutexGuard
guard = record { ref = rc_ref }

abbrev mref : MutexRef
mref = record { ref = rc_ref }

-- The places of a new call of `wait`, and of one that was notified.
abbrev new_places : WaitPlaces
new_places = record { node = record { data_at = 30; link = 12 }; lock_link = 13; lock_waiter = 31 }

abbrev places : WaitPlaces
places = record { node = record { data_at = 17; link = 7 }; lock_link = 13; lock_waiter = 31 }

abbrev me : WaitFuture
me = record { node = places.node; condvar = rc_ref }

poll_call-releases_example :
    (u : Shared ℕ) × (poll_call 3 local from new_places (starts guard) 70 (memory true)
      ≡ ok (sleeps mref (record { node = new_places.node; condvar = rc_ref }), pending) u)
    × IsShared u [] ((6, 60) ∷ (12, 70) ∷ [])
    × (u.mutex.locked ≡ false)
    × (u.mutex.value ≡ 10)
    × (u.woken ≡ 50 ∷ 80 ∷ [])
    × (u.sleeping 30 ≡ some (asleep 70))
poll_call-releases_example =
    poll_call-releases (memory true) locking sleeping 3 local from new_places guard 70
      (memory-IsShared true) local-Fresh (omega arith) (omega arith) refl refl refl (omega arith)

me-IsNotified : (locked : Bool) → IsNotified (memory locked) locking sleeping me
me-IsNotified locked = record {
  waiter = refl;
  live = free-Valid;
  next = refl;
  prev = refl;
  off_mutex = refl;
  off_condvar = refl;
}

places-IsFree : (locked : Bool) → IsFree (memory locked) places
places-IsFree locked = record { link = (omega arith, refl); waiter = (omega arith, refl) }

poll_call-locks_example :
    (u : Shared ℕ) × (poll_call 3 local from places (sleeps mref me) 70 (memory false)
      ≡ ok (finished, ready (success guard)) u)
    × IsShared u locking sleeping
    × (u.mutex.locked ≡ true)
    × (u.mutex.value ≡ 10)
    × (u.woken ≡ [])
    × (u.links.live 7 ≡ false)
    × (u.sleeping 17 ≡ none)
    × (u.condvar.rc_notifier ≡ (memory false).condvar.rc_notifier)
    × ((a : Ptr) → heap.live a ≡ false → u.links.live a ≡ false)
poll_call-locks_example =
    poll_call-locks (memory false) locking sleeping (memory-IsShared false) places mref me 70
      (me-IsNotified false) (places-IsFree false) 3 local from refl

poll_call-queues_example :
    (u : Shared ℕ) × (poll_call 3 local from places (sleeps mref me) 70 (memory true)
      ≡ ok (relocks mref (record { link = 13; waiter = 31; ref = rc_ref }), pending) u)
    × IsShared u ((5, 50) ∷ (8, 80) ∷ (13, 70) ∷ []) sleeping
    × (u.mutex.locked ≡ true)
    × (u.mutex.value ≡ 10)
    × (u.woken ≡ [])
    × (u.links.live 7 ≡ false)
poll_call-queues_example =
    poll_call-queues (memory true) locking sleeping (memory-IsShared true) places mref me 70
      (me-IsNotified true) (places-IsFree true) 3 local from refl

-- A condition that counts its calls, holds from `n` on, and takes one from the value.
abbrev at_least : ℕ → ℕ → ℕ → Bool × ℕ × ℕ
at_least n calls v = (ltb n v, calls + 1, v - 1)

poll_until-holds_example :
    (u : Shared ℕ) × (poll_until 1
        (at_least 5)
        3
        local
        from
        places
        (record { call = sleeps mref me; captured = 0 })
        70
        (memory false)
      ≡ ok (record { call = finished; captured = 1 }, ready (success guard)) u)
    × IsShared u locking sleeping
    × (u.mutex.locked ≡ true)
    × (u.mutex.value ≡ 9)
    × (u.woken ≡ [])
poll_until-holds_example =
    poll_until-holds (at_least 5) (memory false) locking sleeping (memory-IsShared false) places
      mref me 70 (me-IsNotified false) (places-IsFree false) refl 3 local from 0 0 refl

poll_until-sleeps_example :
    (u : Shared ℕ) × (poll_until 2
        (at_least 50)
        3
        local
        from
        places
        (record { call = sleeps mref me; captured = 0 })
        70
        (memory false)
      ≡ ok (record { call = sleeps mref me; captured = 1 }, pending) u)
    × IsShared u [] ((6, 60) ∷ (7, 70) ∷ [])
    × (u.mutex.locked ≡ false)
    × (u.mutex.value ≡ 9)
    × (u.woken ≡ 50 ∷ 80 ∷ [])
    × (u.sleeping 17 ≡ some (asleep 70))
poll_until-sleeps_example =
    poll_until-sleeps (at_least 50) (memory false) locking sleeping (memory-IsShared false) places
      mref me 70 (me-IsNotified false) (places-IsFree false) refl 3 local from 0 0 refl refl
      (omega arith) local-Fresh (omega arith) (omega arith)
