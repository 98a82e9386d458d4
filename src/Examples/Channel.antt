-- ===== src/Examples/Channel.antt =====
-- The theorems on the channel at concrete inputs: two receivers and one sender wait.
use embedded_async.Base.{
  ℕ, ◌≡◌, ◌==◌, refl, List, [], ◌∷◌, ok, some, none, arith, Option, if◌then◌else◌, ◌>>◌,
}
use embedded_async.Intrusive.Links.{Ptr}
use embedded_async.Intrusive.Rc.{RcAnchor}
use embedded_async.World.Waits.{Waits}
use embedded_async.Channel.{WaitingTask, SendFuture}
use embedded_async.Channel.Queue.{SpscQueue, list_queue}
use embedded_async.Channel.Notify.{Memory, IsChannel}
use embedded_async.Channel.Wait.{Idle}
use embedded_async.Channel.Deliver.{IsOpen, send_all, recv_all, recv_all-send_all}
use embedded_async.Examples.Memory.{
  heap, first, second, local, first-IsList, second-IsList, apart, local-Fresh, free-Valid,
}

abbrev pub ops : SpscQueue ℕ
ops = list_queue 3

abbrev waiters : Ptr → Option WaitingTask
waiters p =
    if p == 15
    then some (record { waker = 50 })
    else if p == 18
    then some (record { waker = 80 })
    else if p == 16
    then some (record { waker = 60 })
    else none

abbrev pub anchor : ℕ → RcAnchor Ptr
anchor n = record { ref_count = n; contents = 100 }

abbrev pub memory : List ℕ → ℕ → ℕ → Memory ops
memory items tx rx = record {
  links = heap;
  waiter = waiters;
  woken = [];
  self = record {
    queue = items;
    waiting_receivers = first;
    waiting_senders = second;
    tx_rx_rc = some (anchor tx, anchor rx);
  };
}

abbrev pub receivers : Waits
receivers = (5, 50) ∷ (8, 80) ∷ []

abbrev pub senders : Waits
senders = (6, 60) ∷ []

pub memory-IsChannel :
    (items : List ℕ) (tx rx : ℕ) → IsChannel ops (memory items tx rx) receivers senders
memory-IsChannel items tx rx = record {
  receivers = record {
    list = first-IsList;
    waits = (
      (omega arith, record { waker = 50 }, refl, refl),
      ((omega arith, record { waker = 80 }, refl, refl), tt),
    );
  };
  senders = record {
    list = second-IsList;
    waits = ((omega arith, record { waker = 60 }, refl, refl), tt);
  };
  apart = apart;
}

abbrev brim : List ℕ
brim = 1 ∷ 2 ∷ 3 ∷ []

pub free-receiver : Idle heap first second receivers senders 17 7
free-receiver = record {
  live = free-Valid;
  out = refl;
  off = refl;
  waiter = omega arith;
  own = λ y m. ground arith;
  foreign = λ y m. ground arith;
}

free-sender : Idle heap second first senders receivers 17 7
free-sender = record {
  live = free-Valid;
  out = refl;
  off = refl;
  waiter = omega arith;
  own = λ y m. ground arith;
  foreign = λ y m. ground arith;
}

abbrev sending : SendFuture ℕ
sending = record { value = some 4; waiter = 17; link = 7 }

memory-IsOpen : IsOpen ops 3 local (memory (1 ∷ []) 1 1) (anchor 1) (anchor 1) receivers senders
memory-IsOpen = record {
  split = refl;
  senders_left = omega arith;
  receivers_left = omega arith;
  channel = memory-IsChannel (1 ∷ []) 1 1;
  few_receivers = omega arith;
  few_senders = omega arith;
  fresh = local-Fresh;
}

recv_all-send_all_example :
    (u : Memory ops) × ((send_all ops 3 local (7 ∷ 8 ∷ []) >> recv_all ops 3 local 3)
        (memory (1 ∷ []) 1 1)
      ≡ ok (1 ∷ 7 ∷ 8 ∷ []) u)
    × (u.self.queue ≡ [])
recv_all-send_all_example =
    recv_all-send_all ops 3 local (7 ∷ 8 ∷ []) (memory (1 ∷ []) 1 1) (anchor 1) (anchor 1) receivers
      senders memory-IsOpen (omega arith)
