-- ===== src/Sync/Condvar/Await.antt =====
-- src/sync/condvar.rs: `CondvarWaiter::wait` and `wait_until`, on the memory that a mutex and a
-- condition variable share.
pub mod Joint
pub mod Release
pub mod Relock
pub mod Until
use embedded_async.Base.{
  ℕ, zero, suc, Bool, true, false, List, Option, Outcome, ok, fault, panic, out_of_fuel, Cmd, pure,
  ◌>>=◌, ◌>>◌, Result, success, failure,
}
use embedded_async.Intrusive.Links.{Ptr, Heap, LinkList, Node}
use embedded_async.World.{World, Waker, Poll, pending, ready}
use embedded_async.Sync.Mutex.{
  MutexWaiter, Inner, MutexRef, MutexGuard, LockFuture, MutexCmd, clone, drop_guard, lock, poll,
  drop_future, drop_mutex_ref, read, write,
}
use embedded_async.Sync.Condvar.{
  Waiter, Condvar, CondvarWaiter, WaitFuture, WaitError, CondvarCmd, wait_future, poll_wait,
  drop_wait,
}

-- One heap of links, the waiters of the futures of both primitives, and the primitives.
pub record Shared (T : Type 0) : Type 0 where
  pub links : Heap
  pub locking : Ptr → Option MutexWaiter
  pub sleeping : Ptr → Option Waiter
  pub woken : List Waker
  pub mutex : Inner T
  pub condvar : Condvar

-- Where the parts of the futures of one call of `wait` lie.
pub record WaitPlaces : Type 0 where
  pub node : Node
  pub lock_link : Ptr
  pub lock_waiter : Ptr

-- What the future of `wait` waits for: it has not been polled, it awaits the `WaitFuture`, or it
-- awaits the lock.
pub data WaitCall : Type 0 where
  starts : MutexGuard → WaitCall
  sleeps : MutexRef → WaitFuture → WaitCall
  relocks : MutexRef → LockFuture → WaitCall
  finished : WaitCall

-- The future of `wait_until`: the call of `wait` in its loop, and what the condition captures.
pub record UntilCall (C : Type 0) : Type 0 where
  pub call : WaitCall
  pub captured : C

abbrev pub WaitResult : Type 0
WaitResult = Poll (Result MutexGuard WaitError)

module _ {T : Type 0} where
  abbrev pub mutex_part : Shared T → World MutexWaiter (Inner T)
  mutex_part w = record { links = w.links; waiter = w.locking; woken = w.woken; self = w.mutex }

  abbrev pub condvar_part : Shared T → World Waiter Condvar
  condvar_part w = record {
    links = w.links;
    waiter = w.sleeping;
    woken = w.woken;
    self = w.condvar;
  }

  abbrev pub with_mutex : Shared T → World MutexWaiter (Inner T) → Shared T
  with_mutex w m = record w { links = m.links; locking = m.waiter; woken = m.woken; mutex = m.self }

  abbrev pub with_condvar : Shared T → World Waiter Condvar → Shared T
  with_condvar w c = record w {
    links = c.links;
    sleeping = c.waiter;
    woken = c.woken;
    condvar = c.self;
  }

  abbrev pub in_shared :
      {W : Type 0} {A : Type 0} → (W → Shared T) → Outcome W A → Outcome (Shared T) A
  in_shared back (ok a m) = ok a (back m)
  in_shared back fault = fault
  in_shared back panic = panic
  in_shared back out_of_fuel = out_of_fuel

  abbrev pub on_mutex : {A : Type 0} → MutexCmd T A → Cmd (Shared T) A
  on_mutex m w = in_shared (with_mutex w) (m (mutex_part w))

  abbrev pub on_condvar : {A : Type 0} → CondvarCmd A → Cmd (Shared T) A
  on_condvar m w = in_shared (with_condvar w) (m (condvar_part w))

  -- `Ok(mref.lock().await)`, from the poll of the lock on.
  unfoldable pub poll_relock :
      MutexRef → LockFuture → Waker → Cmd (Shared T) (WaitCall × WaitResult)
  unfolding poll drop_future drop_mutex_ref
  poll_relock mref me waker = do
    r ← on_mutex (poll me waker)
    elim r [
      | pending ↦ pure (relocks mref me, pending)
      | ready g ↦ do
        on_mutex (drop_future me)
        on_mutex (drop_mutex_ref mref)
        pure (finished, ready (success g))
    ]

  -- The rest of `wait`, from the poll of the `WaitFuture` on.
  unfoldable pub poll_sleep :
      WaitPlaces → MutexRef → WaitFuture → Waker → Cmd (Shared T) (WaitCall × WaitResult)
  unfolding poll_wait drop_wait lock poll_relock
  poll_sleep places mref me waker = do
    r ← on_condvar (poll_wait me waker)
    elim r [
      | pending ↦ pure (sleeps mref me, pending)
      | ready (success _) ↦ do
        on_condvar (drop_wait me)
        f ← on_mutex (lock places.lock_link places.lock_waiter)
        poll_relock mref f waker
      | ready (failure e) ↦ do
        on_condvar (drop_wait me)
        on_mutex (drop_mutex_ref mref)
        pure (finished, ready (failure e))
    ]

  -- A poll of the future of `wait`; a future that was ready panics.
  unfoldable pub poll_call :
      ℕ
      → LinkList
      → CondvarWaiter
      → WaitPlaces
      → WaitCall
      → Waker
      → Cmd (Shared T) (WaitCall × WaitResult)
  unfolding clone drop_guard wait_future poll_sleep poll_relock
  poll_call fuel local from places (starts guard) waker = do
    mref ← on_mutex (clone guard.ref)
    on_mutex (drop_guard fuel local guard)
    me ← on_condvar (wait_future from places.node)
    poll_sleep places mref me waker
  poll_call fuel local from places (sleeps mref me) waker = poll_sleep places mref me waker
  poll_call fuel local from places (relocks mref me) waker = poll_relock mref me waker
  poll_call fuel local from places finished waker = λ w. panic

  -- What the condition has said and left: the loop ends with the guard, or waits again.
  abbrev pub conclude :
      {C : Type 0}
      → MutexGuard
      → (UntilCall C → Cmd (Shared T) (UntilCall C × WaitResult))
      → Bool × C × T
      → Cmd (Shared T) (UntilCall C × WaitResult)
  conclude g wait_again (true, captured, v) = do
    on_mutex (write g v)
    pure (record { call = finished; captured = captured }, ready (success g))
  conclude g wait_again (false, captured, v) = do
    on_mutex (write g v)
    wait_again (record { call = starts g; captured = captured })

  -- A poll of the future of `wait_until`, for `rounds` rounds of its loop at most; `condition` is a
  -- function on what it captures and on the value of the mutex, both of which it may change.
  unfoldable pub poll_until :
      {C : Type 0}
      → (rounds : ℕ) → (condition : C → T → Bool × C × T) → ℕ
      → LinkList
      → CondvarWaiter
      → WaitPlaces
      → UntilCall C
      → Waker
      → Cmd (Shared T) (UntilCall C × WaitResult)
  unfolding poll_call read write
  poll_until zero condition fuel local from places me waker = λ w. out_of_fuel
  poll_until (suc rounds) condition fuel local from places me waker = do
    (call, r) ← poll_call fuel local from places me.call waker
    elim r [
      | pending ↦ pure (record me { call = call }, pending)
      | ready (failure e) ↦ pure (record me { call = finished }, ready (failure e))
      | ready (success g) ↦ do
        v ← on_mutex (read g)
        conclude g (λ again. poll_until rounds condition fuel local from places again waker)
            (condition me.captured v)
    ]
