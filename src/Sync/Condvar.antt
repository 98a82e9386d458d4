-- ===== src/Sync/Condvar.antt =====
-- src/sync/condvar.rs: the condition variable. A `Condvar` is the primitive of a `World`; its
-- waiters are the values of the nodes inside the waiting futures.
pub mod Notify
pub mod NotifyAll
pub mod Again
pub mod Wait
pub mod Await
use embedded_async.Base.{
  ℕ, Bool, true, false, not, Option, none, some, ◌==◌, if◌then◌else◌, ok, panic, Cmd, pure, ◌>>=◌,
  ◌>>◌, unless, Result, success, failure,
}
use embedded_async.Intrusive.Links.{
  Ptr, null, is_null, LinkList, Node, owner_of, new_link, drop_link, pop_front, push_node_back,
}
use embedded_async.Intrusive.Rc.{
  RcAnchor, RcRef, rc_ref, new_anchor, get_ref, clone_ref, drop_ref, drop_anchor,
}
use embedded_async.World.{
  World, Waker, Poll, pending, ready, on_links, wake, get, put, load, store, forget, pop_each,
}

pub data WaitError : Type 0 where
  wait_error : WaitError

pub record Waiter : Type 0 where
  pub waker : Option Waker
  pub notified : Bool

-- `Waiter::default`
abbrev pub default_waiter : Waiter
default_waiter = record { waker = none; notified = false }

-- The anchors hold the address of the condition variable, or null.
pub record Condvar : Type 0 where
  pub rc_waiter : RcAnchor Ptr
  pub rc_notifier : RcAnchor Ptr
  pub waiters : LinkList

pub record CondvarWaiter : Type 0 where
  pub condvar : RcRef

pub record CondvarNotifier : Type 0 where
  pub condvar : RcRef

pub record WaitFuture : Type 0 where
  pub node : Node
  pub condvar : RcRef

-- `Condvar::new`, with the addresses of the sentinels of its wait list.
abbrev pub new : LinkList → Condvar
new l = record { rc_waiter = new_anchor null; rc_notifier = new_anchor null; waiters = l }

abbrev pub CondvarCmd : Type 0 → Type 0
CondvarCmd A = Cmd (World Waiter Condvar) A

abbrev pub wake_if_some : Option Waker → CondvarCmd (Unit {0})
wake_if_some none = pure tt
wake_if_some (some k) = wake k

-- `Waiter::notify`
unfoldable pub notify : Ptr → CondvarCmd (Unit {0})
notify p = do v ← load p; store p (record { waker = none; notified = true }); wake_if_some v.waker

-- A link that was taken off the wait list: its owner, if it has one, is notified.
unfoldable pub notify_owner : Ptr → CondvarCmd (Unit {0})
unfolding owner_of notify
notify_owner x = do owner ← on_links (owner_of x); elim owner [ none ↦ pure tt | some p ↦ notify p ]

-- `try_notify_one`; also `CondvarNotifier::notify_one`
unfoldable pub try_notify_one : CondvarCmd (Unit {0})
unfolding pop_front notify_owner
try_notify_one = do
  c ← get
  front ← on_links (pop_front c.waiters)
  elim front [ none ↦ pure tt | some x ↦ notify_owner x ]

-- `try_notify_all`; also `CondvarNotifier::notify_all`
unfoldable pub try_notify_all : ℕ → CondvarCmd (Unit {0})
unfolding notify_owner
try_notify_all fuel = do c ← get; pop_each fuel c.waiters notify_owner

-- A new anchor in place of an old one, which is dropped.
unfoldable pub replace_anchor : RcAnchor Ptr → Ptr → CondvarCmd (RcAnchor Ptr)
unfolding drop_anchor
replace_anchor old me = elim (drop_anchor old) [ ok _ _ ↦ pure (new_anchor me) | _ ↦ (λ w. panic) ]

-- `Condvar::split`, at the address `me`.
unfoldable pub split : Ptr → CondvarCmd (Option (CondvarNotifier × CondvarWaiter))
unfolding replace_anchor
split me = do
  c ← get
  if not (is_null c.rc_waiter.contents) then pure none else do
    waiter ← replace_anchor c.rc_waiter me
    notifier ← replace_anchor c.rc_notifier me
    let (notifier, n) = get_ref notifier
    let (waiter, w) = get_ref waiter
    put (record c { rc_waiter = waiter; rc_notifier = notifier })
    pure (some (record { condvar = n }, record { condvar = w }))

-- The derived clones.
unfoldable pub clone_waiter : CondvarWaiter → CondvarCmd CondvarWaiter
clone_waiter from = do
  c ← get
  put (record c { rc_waiter = (clone_ref from.condvar c.rc_waiter).0 })
  pure (record { condvar = rc_ref })

unfoldable pub clone_notifier : CondvarNotifier → CondvarCmd CondvarNotifier
clone_notifier from = do
  c ← get
  put (record c { rc_notifier = (clone_ref from.condvar c.rc_notifier).0 })
  pure (record { condvar = rc_ref })

-- A notifier and a waiter hold a plain reference: that is all their drops give back.
unfoldable pub drop_notifier : CondvarNotifier → CondvarCmd (Unit {0})
drop_notifier me = do c ← get; put (record c { rc_notifier = drop_ref me.condvar c.rc_notifier })

unfoldable pub drop_waiter : CondvarWaiter → CondvarCmd (Unit {0})
drop_waiter me = do c ← get; put (record c { rc_waiter = drop_ref me.condvar c.rc_waiter })

-- `Drop for NotifyRcRef`, then the drop of its reference. No part of the code makes a `NotifyRcRef`.
unfoldable pub drop_notify_rc_ref : ℕ → CondvarCmd (Unit {0})
unfolding try_notify_all
drop_notify_rc_ref fuel = do
  c ← get
  unless (not (c.rc_notifier.ref_count == 1)) (try_notify_all fuel)
  c ← get
  put (record c { rc_notifier = drop_ref rc_ref c.rc_notifier })

-- The future that `CondvarWaiter::wait` makes, at the addresses of its node.
unfoldable pub wait_future : CondvarWaiter → Node → CondvarCmd WaitFuture
unfolding new_link
wait_future from node = do
  on_links (new_link node.link)
  store node.data_at default_waiter
  c ← get
  put (record c { rc_waiter = (clone_ref from.condvar c.rc_waiter).0 })
  pure (record { node = node; condvar = rc_ref })

-- `WaitFuture::poll`
unfoldable pub poll_wait : WaitFuture → Waker → CondvarCmd (Poll (Result (Unit {0}) WaitError))
unfolding push_node_back
poll_wait me waker = do
  v ← load me.node.data_at
  c ← get
  if v.notified
      then pure (ready (success tt))
      else if c.rc_notifier.ref_count == 0
      then pure (ready (failure wait_error))
      else (do
        store me.node.data_at (record v { waker = some waker })
        on_links (push_node_back c.waiters me.node)
        pure pending)

-- The drop of a `WaitFuture`: its waiter, its link and its reference.
unfoldable pub drop_wait : WaitFuture → CondvarCmd (Unit {0})
unfolding drop_link
drop_wait me = do
  forget me.node.data_at
  on_links (drop_link me.node.link)
  c ← get
  put (record c { rc_waiter = drop_ref me.condvar c.rc_waiter })
