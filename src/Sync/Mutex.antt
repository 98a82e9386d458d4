-- ===== src/Sync/Mutex.antt =====
-- src/sync/mutex.rs: the async mutex. A `Mutex` is the primitive of a `World`; its references and
-- guards are pointers to it, and its futures are links and waiters in the world's memory.
pub mod Laws
pub mod System
pub mod Steps
pub mod Lives
pub mod Cancel
pub mod Queue
pub mod Exclusion
pub mod UnitTests
use embedded_async.Base.{
  ℕ, Bool, true, false, Option, none, some, ◌==◌, if◌then◌else◌, ok, fault, panic, Cmd, pure, ◌>>=◌,
  ◌>>◌,
}
use embedded_async.Intrusive.Links.{
  Ptr, null, is_null, LinkList, owner_of, new_link, drop_link, push_link_back,
}
use embedded_async.Intrusive.Rc.{
  RcAnchor, RcRef, rc_ref, new_anchor, get_ref, clone_ref, drop_ref, drop_anchor,
}
use embedded_async.World.{
  World, Waker, Poll, pending, ready, on_links, wake, get, put, load, store, forget, drain,
}

pub record MutexWaiter : Type 0 where
  pub waker : Option Waker

-- `MutexWaiter::default`
abbrev pub default_waiter : MutexWaiter
default_waiter = record { waker = none }

-- `Inner`; the anchor of `rc` holds the address of the mutex, or null.
pub record Inner (T : Type 0) : Type 0 where
  pub locked : Bool
  pub value : T
  pub rc : RcAnchor Ptr
  pub waiting_wakers : LinkList

pub record MutexRef : Type 0 where
  pub ref : RcRef

pub record MutexGuard : Type 0 where
  pub ref : RcRef

-- The addresses of the parts of a `LockFuture`.
pub record LockFuture : Type 0 where
  pub link : Ptr
  pub waiter : Ptr
  pub ref : RcRef

-- `Mutex::new`, with the addresses of the sentinels of its wait list.
abbrev pub new : {T : Type 0} → T → LinkList → Inner T
new value l = record { locked = false; value = value; rc = new_anchor null; waiting_wakers = l }

-- Commands on the memory of a mutex and of its futures.
abbrev pub MutexCmd : Type 0 → Type 0 → Type 0
MutexCmd T A = Cmd (World MutexWaiter (Inner T)) A

module _ {T : Type 0} where
  -- `release_lock`: `local` is the place of the list that lives for the call.
  unfoldable pub wake_waiter : Ptr → MutexCmd T (Unit {0})
  unfolding owner_of
  wake_waiter x = do
    owner ← on_links (owner_of x)
    elim owner [
      | none ↦ pure tt
      | some p ↦ load p >>= λ v. elim v.waker [ none ↦ (λ w. fault) | some k ↦ wake k ]
    ]

  unfoldable pub release_lock : ℕ → LinkList → MutexCmd T (Unit {0})
  unfolding drain wake_waiter
  release_lock fuel local = do
    m ← get
    put (record m { locked = false })
    drain fuel local m.waiting_wakers wake_waiter

  -- `maybe_init_inner`: the new anchor replaces the old one, which is dropped.
  unfoldable pub maybe_init_inner : Ptr → MutexCmd T (Unit {0})
  unfolding drop_anchor
  maybe_init_inner me = do
    m ← get
    if is_null m.rc.contents
        then elim (drop_anchor m.rc) [
          | ok _ _ ↦ put (record m { rc = new_anchor me })
          | _ ↦ (λ w. panic)
        ]
        else pure tt

  -- `self.inner_mut().rc.get_ref()` and `RcRef::clone`
  abbrev pub count_up : MutexCmd T RcRef
  count_up = do m ← get; let (rc, r) = get_ref m.rc; put (record m { rc = rc }); pure r

  abbrev pub count_down : RcRef → MutexCmd T (Unit {0})
  count_down r = do m ← get; put (record m { rc = drop_ref r m.rc })

  unfoldable pub take_ref : Ptr → MutexCmd T MutexRef
  unfolding maybe_init_inner
  take_ref me = do maybe_init_inner me; r ← count_up; pure (record { ref = r })

  -- `try_lock` and `try_lock_impl`
  unfoldable pub try_lock : MutexCmd T (Option MutexGuard)
  try_lock = do
    m ← get
    if m.locked
        then pure none
        else do put (record m { locked = true }); r ← count_up; pure (some (record { ref = r }))

  -- `lock` and `lock_impl`, with the addresses of the new future's parts.
  unfoldable pub lock : (link waiter : Ptr) → MutexCmd T LockFuture
  unfolding new_link
  lock link waiter = do
    on_links (new_link link)
    store waiter default_waiter
    r ← count_up
    pure (record { link = link; waiter = waiter; ref = r })

  -- `LockFuture::poll`, in the task that `waker` wakes.
  unfoldable pub poll : LockFuture → Waker → MutexCmd T (Poll MutexGuard)
  unfolding push_link_back
  poll me waker = do
    m ← get
    if m.locked
        then (do
          v ← load me.waiter
          store me.waiter (record v { waker = some waker })
          on_links (push_link_back m.waiting_wakers me.waiter me.link)
          pure pending)
        else (do put (record m { locked = true }); r ← count_up; pure (ready (record { ref = r })))

  -- The drop of a `LockFuture`: its link, its waiter and its reference.
  unfoldable pub drop_future : LockFuture → MutexCmd T (Unit {0})
  unfolding drop_link
  drop_future me = do on_links (drop_link me.link); forget me.waiter; count_down me.ref

  -- `MutexRef::clone` and `MutexGuard::source`
  unfoldable pub clone : RcRef → MutexCmd T MutexRef
  clone from = do r ← count_up; pure (record { ref = r })

  unfoldable pub drop_mutex_ref : MutexRef → MutexCmd T (Unit {0})
  drop_mutex_ref me = count_down me.ref

  -- `Drop for MutexGuard`, then the drop of its reference; also `unlock`.
  unfoldable pub drop_guard : ℕ → LinkList → MutexGuard → MutexCmd T (Unit {0})
  unfolding release_lock
  drop_guard fuel local me = do release_lock fuel local; count_down me.ref

  -- `Deref` and `DerefMut` of the guard.
  unfoldable pub read : MutexGuard → MutexCmd T T
  read me = do m ← get; pure m.value

  unfoldable pub write : MutexGuard → T → MutexCmd T (Unit {0})
  write me value = do m ← get; put (record m { value = value })
