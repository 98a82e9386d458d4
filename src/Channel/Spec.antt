-- ===== src/Channel/Spec.antt =====
-- What a bounded channel promises, without links, anchors and memory: a queue of values, the numbers
-- of senders and receivers, and who sleeps on which side.
use embedded_async.Base.{
  ℕ, ◌+◌, ◌-◌, ◌==◌, ltb, if◌then◌else◌, List, [], ◌∷◌, ◌++◌, length, Option, none, some,
}
use embedded_async.Intrusive.Links.{Ptr}
use embedded_async.World.{Waker, Poll, pending, ready}
use embedded_async.World.Waits.{Waits, wakers_of}
use embedded_async.World.Without.{without}
use embedded_async.Channel.{
  Result, success, failure, TrySendError, full, send_closed, TryRecvError, empty, recv_closed,
  SendError, send_error, RecvError, recv_error,
}

pub record Bounded (T : Type 0) : Type 0 where
  pub items : List T
  pub senders : ℕ
  pub receivers : ℕ
  -- The futures that wait, each with the task to be woken, the one that came first in front.
  pub asleep_receivers : Waits
  pub asleep_senders : Waits
  pub woken : List Waker

pub data Request (T : Type 0) : Type 0 where
  puts : T → Request T  -- `try_send`
  takes : Request T  -- `try_recv`
  adds_sender : Request T  -- `SenderRef::clone`
  adds_receiver : Request T  -- `ReceiverRef::clone`
  drops_sender : Request T  -- the drop of a `SenderRef`
  drops_receiver : Request T  -- the drop of a `ReceiverRef`
  polls_send : (value : T) (waiter link : Ptr) (k : Waker) → Request T  -- a poll of a `SendFuture`
  polls_recv : (waiter link : Ptr) (k : Waker) → Request T  -- a poll of a `ReceiveFuture`
  makes_send : (value : T) (waiter link : Ptr) → Request T  -- `Sender::send`
  makes_recv : (waiter link : Ptr) → Request T  -- `Receiver::recv`
  cancels_send : (waiter link : Ptr) → Request T  -- the drop of a `SendFuture`
  cancels_recv : (waiter link : Ptr) → Request T  -- the drop of a `ReceiveFuture`

pub data Answer (T : Type 0) : Type 0 where
  done : Answer T
  -- A new future: the value that it is to send, and where it lies.
  made : (value : Option T) (waiter link : Ptr) → Answer T
  sent : Result (Unit {0}) (TrySendError T) → Answer T
  received : Result T TryRecvError → Answer T
  -- The future keeps the value of a send as long as the poll is pending.
  send_polled : Option T → Poll (Result (Unit {0}) (SendError T)) → Answer T
  recv_polled : Poll (Result T RecvError) → Answer T

module _ {T : Type 0} where
  abbrev pub wake_receivers : Bounded T → Bounded T
  wake_receivers s = record s {
    asleep_receivers = [];
    woken = s.woken ++ wakers_of s.asleep_receivers;
  }

  abbrev pub wake_senders : Bounded T → Bounded T
  wake_senders s = record s { asleep_senders = []; woken = s.woken ++ wakers_of s.asleep_senders }

  abbrev pub offer : ℕ → T → Bounded T → Result (Unit {0}) (TrySendError T) × Bounded T
  offer capacity v s =
      if s.receivers == 0
      then (failure (send_closed v), s)
      else if ltb (length s.items) capacity
      then (success tt, wake_receivers (record s { items = s.items ++ v ∷ [] }))
      else (failure (full v), s)

  abbrev pub demand : List T → Bounded T → Result T TryRecvError × Bounded T
  demand [] s = (failure (if s.senders == 0 then recv_closed else empty), s)
  demand (v ∷ vs) s = (success v, wake_senders (record s { items = vs }))

  -- The task of a send that found the queue full goes to sleep.
  abbrev pub sleep_sender :
      Ptr → Waker → Result (Unit {0}) (TrySendError T) × Bounded T → Answer T × Bounded T
  sleep_sender x k (success _, s) = (send_polled none (ready (success tt)), s)
  sleep_sender x k (failure (send_closed v), s) =
      (send_polled none (ready (failure (send_error v))), s)
  sleep_sender x k (failure (full v), s) =
      (send_polled (some v) pending, record s { asleep_senders = s.asleep_senders ++ (x, k) ∷ [] })

  -- The task of a receive that found the queue empty goes to sleep.
  abbrev pub sleep_receiver : Ptr → Waker → Result T TryRecvError × Bounded T → Answer T × Bounded T
  sleep_receiver x k (success v, s) = (recv_polled (ready (success v)), s)
  sleep_receiver x k (failure recv_closed, s) = (recv_polled (ready (failure recv_error)), s)
  sleep_receiver x k (failure empty, s) =
      (recv_polled pending, record s { asleep_receivers = s.asleep_receivers ++ (x, k) ∷ [] })

  abbrev pub lose_sender : Bounded T → Bounded T
  lose_sender s =
      let t = record s { senders = s.senders - 1 } in if s.senders == 1 then wake_receivers t else t

  abbrev pub lose_receiver : Bounded T → Bounded T
  lose_receiver s =
      let t = record s { receivers = s.receivers - 1 } in
      if s.receivers == 1 then wake_senders t else t

  abbrev pub answer : ℕ → Request T → Bounded T → Answer T × Bounded T
  answer capacity (puts v) s = let (r, t) = offer capacity v s in (sent r, t)
  answer capacity takes s = let (r, t) = demand s.items s in (received r, t)
  answer capacity adds_sender s = (done, record s { senders = s.senders + 1 })
  answer capacity adds_receiver s = (done, record s { receivers = s.receivers + 1 })
  answer capacity drops_sender s = (done, lose_sender s)
  answer capacity drops_receiver s = (done, lose_receiver s)
  answer capacity (polls_send v p x k) s = sleep_sender x k (offer capacity v s)
  answer capacity (polls_recv p x k) s = sleep_receiver x k (demand s.items s)
  answer capacity (makes_send v p x) s = (made (some v) p x, record s { senders = s.senders + 1 })
  answer capacity (makes_recv p x) s = (made none p x, record s { receivers = s.receivers + 1 })
  answer capacity (cancels_send p x) s =
      (done, lose_sender (record s { asleep_senders = without x s.asleep_senders }))
  answer capacity (cancels_recv p x) s =
      (done, lose_receiver (record s { asleep_receivers = without x s.asleep_receivers }))
