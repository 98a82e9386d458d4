-- ===== src/Channel.antt =====
-- src/channel/mod.rs: the bounded channel between senders and receivers. A `Channel` is the
-- primitive of a `World`; senders and receivers are counted pointers to it, and the futures are
-- links and waiters in the world's memory.
pub mod Queue
pub mod Notify
pub mod TrySend
pub mod TryRecv
pub mod Wait
pub mod Cancel
pub mod Drop
pub mod Deliver
pub mod Spec
pub mod Asleep
pub mod Refine
pub mod Trace
pub mod Alert
pub mod Tally
pub mod Wakeups
pub mod UnitTests
use embedded_async.Base.{
  ℕ, Bool, true, false, ◌==◌, if◌then◌else◌, Option, none, some, is_some, ok, panic, Cmd, pure,
  ◌>>=◌, ◌>>◌, expect, unless, not,
}
pub use embedded_async.Base.{Result, success, failure}
use embedded_async.Intrusive.Links.{Ptr, LinkList, owner_of, new_link, drop_link, push_link_back}
use embedded_async.Intrusive.Rc.{RcAnchor, new_anchor, get_ref, clone_ref, drop_ref, rc_ref}
use embedded_async.World.{
  World, Waker, Poll, pending, ready, on_links, wake, get, put, load, store, forget, drain,
}
use Queue.{SpscQueue}

pub data TryRecvError : Type 0 where
  empty : TryRecvError
  recv_closed : TryRecvError

pub data TrySendError (T : Type 0) : Type 0 where
  full : T → TrySendError T
  send_closed : T → TrySendError T

pub data RecvError : Type 0 where
  recv_error : RecvError

pub data SendError (T : Type 0) : Type 0 where
  send_error : T → SendError T

-- `WaitingReceiver` and `WaitingSender`
pub record WaitingTask : Type 0 where
  pub waker : Waker

-- `Channel`; each anchor of `tx_rx_rc` holds the address of the channel.
pub record Channel {T : Type 0} (queue_ops : SpscQueue T) : Type 0 where
  pub queue : queue_ops.Q
  pub waiting_receivers : LinkList
  pub waiting_senders : LinkList
  pub tx_rx_rc : Option (RcAnchor Ptr × RcAnchor Ptr)

-- The addresses of the parts of a future, and the value that a send still holds.
pub record SendFuture (T : Type 0) : Type 0 where
  pub value : Option T
  pub waiter : Ptr
  pub link : Ptr

pub record ReceiveFuture : Type 0 where
  pub waiter : Ptr
  pub link : Ptr

-- Commands on the memory of a channel and of its futures.
abbrev pub ChannelCmd : {T : Type 0} → SpscQueue T → Type 0 → Type 0
ChannelCmd ops A = Cmd (World WaitingTask (Channel ops)) A

module _ {T : Type 0} (ops : SpscQueue T) where
  open ops use {enqueue, dequeue, is_empty, len, new_queue}

  -- `Channel::new`, with the addresses of the sentinels of its lists.
  abbrev pub new : (receivers senders : LinkList) → Channel ops
  new receivers senders = record {
    queue = new_queue;
    waiting_receivers = receivers;
    waiting_senders = senders;
    tx_rx_rc = none;
  }

  abbrev pub counted :
      Option (RcAnchor Ptr × RcAnchor Ptr) → ChannelCmd ops (RcAnchor Ptr × RcAnchor Ptr)
  counted none = λ w. panic
  counted (some rcs) = pure rcs

  abbrev pub receiver_ref_count : ChannelCmd ops ℕ
  receiver_ref_count = do c ← get; (tx, rx) ← counted c.tx_rx_rc; pure rx.ref_count

  abbrev pub sender_ref_count : ChannelCmd ops ℕ
  sender_ref_count = do c ← get; (tx, rx) ← counted c.tx_rx_rc; pure tx.ref_count

  -- `split`; `me` is the address of the channel. `true` stands for the sender and the receiver.
  unfoldable pub split : Ptr → ChannelCmd ops Bool
  split me = do
    c ← get
    if is_some c.tx_rx_rc then pure false else do
      put (record c { tx_rx_rc = some ((get_ref (new_anchor me)).0, (get_ref (new_anchor me)).0) })
      pure true

  -- The body of the loops of `notify_waiting_senders` and `notify_waiting_receivers`.
  unfoldable pub wake_owner : Ptr → ChannelCmd ops (Unit {0})
  unfolding owner_of
  wake_owner x = do
    owner ← on_links (owner_of x)
    elim owner [ none ↦ (λ w. panic) | some p ↦ load p >>= λ v. wake v.waker ]

  unfoldable pub notify_waiting_senders : ℕ → LinkList → ChannelCmd ops (Unit {0})
  unfolding drain wake_owner
  notify_waiting_senders fuel local = do c ← get; drain fuel local c.waiting_senders wake_owner

  unfoldable pub notify_waiting_receivers : ℕ → LinkList → ChannelCmd ops (Unit {0})
  unfolding drain wake_owner
  notify_waiting_receivers fuel local = do c ← get; drain fuel local c.waiting_receivers wake_owner

  abbrev pub tell :
      ChannelCmd ops (Unit {0}) → Option T → ChannelCmd ops (Result (Unit {0}) (TrySendError T))
  tell notify none = do notify; pure (success tt)
  tell notify (some v) = pure (failure (full v))

  unfoldable pub try_send : ℕ → LinkList → T → ChannelCmd ops (Result (Unit {0}) (TrySendError T))
  unfolding notify_waiting_receivers
  try_send fuel local value = do
    receivers ← receiver_ref_count
    if receivers == 0 then pure (failure (send_closed value)) else do
      c ← get
      put (record c { queue = (enqueue value c.queue).0 })
      tell (notify_waiting_receivers fuel local) (enqueue value c.queue).1

  abbrev pub hand : ChannelCmd ops (Unit {0}) → Option T → ChannelCmd ops (Result T TryRecvError)
  hand notify none = pure (failure empty)
  hand notify (some x) = do notify; pure (success x)

  unfoldable pub try_recv : ℕ → LinkList → ChannelCmd ops (Result T TryRecvError)
  unfolding notify_waiting_senders
  try_recv fuel local = do
    c ← get
    closed ← if is_empty c.queue then (do n ← sender_ref_count; pure (n == 0)) else pure false
    if closed then pure (failure recv_closed) else do
      put (record c { queue = (dequeue c.queue).0 })
      hand (notify_waiting_senders fuel local) (dequeue c.queue).1

  unfoldable pub length_of : ChannelCmd ops ℕ
  length_of = do c ← get; pure (len c.queue)

  unfoldable pub add_waiting_sender : (waiter link : Ptr) → ChannelCmd ops (Unit {0})
  unfolding push_link_back
  add_waiting_sender waiter link = do
    c ← get
    on_links (push_link_back c.waiting_senders waiter link)

  unfoldable pub add_waiting_receiver : (waiter link : Ptr) → ChannelCmd ops (Unit {0})
  unfolding push_link_back
  add_waiting_receiver waiter link = do
    c ← get
    on_links (push_link_back c.waiting_receivers waiter link)

  -- `SenderRef::clone` and `ReceiverRef::clone`
  unfoldable pub clone_sender : ChannelCmd ops (Unit {0})
  clone_sender = do
    c ← get
    (tx, rx) ← counted c.tx_rx_rc
    put (record c { tx_rx_rc = some ((clone_ref rc_ref tx).0, rx) })

  unfoldable pub clone_receiver : ChannelCmd ops (Unit {0})
  clone_receiver = do
    c ← get
    (tx, rx) ← counted c.tx_rx_rc
    put (record c { tx_rx_rc = some (tx, (clone_ref rc_ref rx).0) })

  -- `Drop for SenderRef`, then the drop of its reference.
  unfoldable pub drop_sender : ℕ → LinkList → ChannelCmd ops (Unit {0})
  unfolding notify_waiting_receivers
  drop_sender fuel local = do
    senders ← sender_ref_count
    unless (not (senders == 1)) (notify_waiting_receivers fuel local)
    c ← get
    (tx, rx) ← counted c.tx_rx_rc
    put (record c { tx_rx_rc = some (drop_ref rc_ref tx, rx) })

  -- `Drop for ReceiverRef`, then the drop of its reference.
  unfoldable pub drop_receiver : ℕ → LinkList → ChannelCmd ops (Unit {0})
  unfolding notify_waiting_senders
  drop_receiver fuel local = do
    receivers ← receiver_ref_count
    unless (not (receivers == 1)) (notify_waiting_senders fuel local)
    c ← get
    (tx, rx) ← counted c.tx_rx_rc
    put (record c { tx_rx_rc = some (tx, drop_ref rc_ref rx) })

  -- `Sender::send` and `Receiver::recv`, with the addresses of the new future's link.
  unfoldable pub send : T → (waiter link : Ptr) → ChannelCmd ops (SendFuture T)
  unfolding new_link clone_sender
  send value waiter link = do
    on_links (new_link link)
    clone_sender
    pure (record { value = some value; waiter = waiter; link = link })

  unfoldable pub recv : (waiter link : Ptr) → ChannelCmd ops ReceiveFuture
  unfolding new_link clone_receiver
  recv waiter link = do
    on_links (new_link link)
    clone_receiver
    pure (record { waiter = waiter; link = link })

  abbrev pub after_send :
      SendFuture T
      → Waker
      → Result (Unit {0}) (TrySendError T)
      → ChannelCmd ops (SendFuture T × Poll (Result (Unit {0}) (SendError T)))
  unfolding add_waiting_sender
  after_send me waker (success _) = pure (me, ready (success tt))
  after_send me waker (failure (send_closed value)) = pure (me, ready (failure (send_error value)))
  after_send me waker (failure (full value)) = do
    store me.waiter (record { waker = waker })
    add_waiting_sender me.waiter me.link
    pure (record me { value = some value }, pending)

  -- `SendFuture::poll`: the future as it is left, and the result.
  unfoldable pub poll_send :
      ℕ
      → LinkList
      → SendFuture T
      → Waker
      → ChannelCmd ops (SendFuture T × Poll (Result (Unit {0}) (SendError T)))
  unfolding try_send add_waiting_sender
  poll_send fuel local me waker = do
    value ← expect me.value
    sent ← try_send fuel local value
    after_send (record me { value = none }) waker sent

  abbrev pub after_recv :
      ReceiveFuture → Waker → Result T TryRecvError → ChannelCmd ops (Poll (Result T RecvError))
  unfolding add_waiting_receiver
  after_recv me waker (success value) = pure (ready (success value))
  after_recv me waker (failure recv_closed) = pure (ready (failure recv_error))
  after_recv me waker (failure empty) = do
    store me.waiter (record { waker = waker })
    add_waiting_receiver me.waiter me.link
    pure pending

  -- `ReceiveFuture::poll`
  unfoldable pub poll_recv :
      ℕ → LinkList → ReceiveFuture → Waker → ChannelCmd ops (Poll (Result T RecvError))
  unfolding try_recv add_waiting_receiver
  poll_recv fuel local me waker = do got ← try_recv fuel local; after_recv me waker got

  -- The drops of the futures: the waiter, the link, and the counted pointer to the channel.
  unfoldable pub drop_send : ℕ → LinkList → SendFuture T → ChannelCmd ops (Unit {0})
  unfolding drop_link drop_sender
  drop_send fuel local me = do
    forget me.waiter
    on_links (drop_link me.link)
    drop_sender fuel local

  unfoldable pub drop_recv : ℕ → LinkList → ReceiveFuture → ChannelCmd ops (Unit {0})
  unfolding drop_link drop_receiver
  drop_recv fuel local me = do
    forget me.waiter
    on_links (drop_link me.link)
    drop_receiver fuel local
