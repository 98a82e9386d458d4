-- ===== src/Examples/Mutex.antt =====
-- The theorems on the mutex at concrete inputs: two tasks wait for the lock.
use embedded_async.Base.{
  ℕ, ◌≤◌, ◌⊎◌, ◌%◌, ◌^◌, ◌++◌, false, ◌≡◌, ◌==◌, refl, [], ◌∷◌, ok, some, none, arith, true, false,
  Bool, Option, if◌then◌else◌, update,
}
use embedded_async.Intrusive.Links.{Ptr, Heap, LinkList, new_list, new_link, push_link_back}
use embedded_async.Intrusive.Rc.{drop_anchor, rc_ref}
use embedded_async.World.{World}
use embedded_async.World.Waits.{wakers_of, Waits}
use embedded_async.Sync.Mutex.{
  MutexWaiter, Inner, MutexGuard, LockFuture, take_ref, lock, try_lock, poll,
}
use embedded_async.Sync.Mutex.Laws.{IsMutex}
use embedded_async.Sync.Mutex.System.{
  System, Action, takes, tries, locks, polls, unlocks, Reply, done, guarded, perform, Allowed,
  after, starting, Reach, start, later,
}
use embedded_async.Sync.Mutex.Exclusion.{Reach-exclusion, perform-ends, unlocks-polls}
use embedded_async.Examples.Memory.{heap, first, local, first-IsList, local-Fresh}

abbrev waiters : Ptr → Option MutexWaiter
waiters p =
    if p == 15
    then some (record { waker = some 50 })
    else if p == 18
    then some (record { waker = some 80 })
    else if p == 17
    then some (record { waker = none })
    else none

abbrev memory : Bool → World MutexWaiter (Inner ℕ)
memory locked = record {
  links = heap;
  waiter = waiters;
  woken = [];
  self = record {
    locked = locked;
    value = 10;
    rc = record { ref_count = 4; contents = 100 };
    waiting_wakers = first;
  };
}

abbrev waits : Waits
waits = (5, 50) ∷ (8, 80) ∷ []

abbrev future : LockFuture
future = record { link = 7; waiter = 17; ref = rc_ref }

abbrev guard : MutexGuard
guard = record { ref = rc_ref }

memory-IsMutex : (locked : Bool) → IsMutex (memory locked) waits
memory-IsMutex locked = record {
  list = first-IsList;
  waits = (
    (omega arith, record { waker = some 50 }, refl, refl),
    ((omega arith, record { waker = some 80 }, refl, refl), tt),
  );
}

-- A mutex made in the memory above: a reference, a future, a guard, and a poll of the future.
abbrev made : Heap
made = record {
  live = update (update heap.live 20 true) 21 true;
  owner = update (update heap.owner 20 0) 21 0;
  prev = update (update heap.prev 20 0) 21 0;
  next = update (update heap.next 20 0) 21 0;
}

abbrev begun : System ℕ
begun = starting 10 local made waiters []

abbrev step : Action ℕ → System ℕ → System ℕ
step a s = elim (perform a s.mem) [ ok r m ↦ after s a r m | _ ↦ s ]

abbrev shared : System ℕ
shared = step (takes 100) begun

abbrev locking : System ℕ
locking = step (locks 30 40) shared

abbrev held : System ℕ
held = step tries locking

abbrev blocking : System ℕ
blocking = step (polls 30 40 70) held

begun-Reach : Reach begun
unfolding new_list
begun-Reach = start 10 local waiters [] local-Fresh refl

shared-Reach : Reach shared
unfolding perform take_ref drop_anchor
shared-Reach = later (takes 100) begun-Reach (omega arith) refl refl

locking-Reach : Reach locking
unfolding perform take_ref drop_anchor lock new_link
locking-Reach = later (locks 30 40) shared-Reach (ground arith) refl refl

held-Reach : Reach held
unfolding perform take_ref drop_anchor lock new_link try_lock
held-Reach = later tries locking-Reach (ground arith) refl refl

blocking-Reach : Reach blocking
unfolding perform take_ref drop_anchor lock new_link try_lock poll push_link_back
blocking-Reach = later (polls 30 40 70) held-Reach (ground arith) refl refl

Reach-exclusion_example :
    (blocking.guards ≤ 1)
    × (blocking.guards ≡ (if blocking.mem.self.locked then 1 else 0))
    × ((blocking.waiting ≡ []) ⊎ (blocking.guards ≡ 1))
    × (blocking.mem.self.rc.ref_count ≡ blocking.refs % 2 ^ 32)
    × IsMutex blocking.mem blocking.waiting
Reach-exclusion_example = Reach-exclusion blocking-Reach

abbrev later_local : LinkList
later_local = record { head = 32; tail = 33 }

blocking-Allowed : Allowed blocking (unlocks 2 later_local)
unfolding perform take_ref drop_anchor lock new_link try_lock poll push_link_back
blocking-Allowed = (
  ground arith,
  ground arith,
  record { head = ground arith; tail = ground arith; apart = omega arith },
  ground arith,
)

perform-ends_example :
    (r : Reply) × (m : World MutexWaiter (Inner ℕ)) × (perform (unlocks 2 later_local) blocking.mem
      ≡ ok r m)
    × Reach (after blocking (unlocks 2 later_local) r m)
perform-ends_example = perform-ends (unlocks 2 later_local) blocking-Reach blocking-Allowed

unlocks-polls_example :
    (m n : World MutexWaiter (Inner ℕ)) × (perform (unlocks 2 later_local) blocking.mem ≡ ok done m)
    × (m.woken ≡ blocking.mem.woken ++ wakers_of blocking.waiting)
    × (m.self.locked ≡ false)
    × (perform (polls 30 40 70) m ≡ ok guarded n)
    × (n.self.locked ≡ true)
    × (n.woken ≡ m.woken)
unlocks-polls_example = unlocks-polls 2 later_local 30 40 70 blocking-Reach blocking-Allowed
