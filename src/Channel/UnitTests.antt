-- ===== src/Channel/UnitTests.antt =====
-- src/channel/mod.rs: the unit tests of the file, as commands on a new channel of capacity 8. The
-- sentinels of the receivers' list lie at 1 and 2, those of the senders' at 3 and 4, and those of
-- the list of a call at 5 and 6. A failed assertion is a panic, and what a test declares is dropped
-- at its end.
use embedded_async.Base.{
  ℕ, [], ◌≡◌, refl, Bool, true, false, ◌==◌, ◌&&◌, Option, none, some, ok, panic, pure, ◌>>=◌, ◌>>◌,
  assert, is_ok, is_panic,
}
use embedded_async.Intrusive.Links.{
  Ptr, null, LinkList, new_list, drop_list, is_empty, move_to_front_of, pop_front,
}
use embedded_async.Intrusive.Rc.{RcAnchor, drop_anchor}
use embedded_async.World.{on_links, get}
use embedded_async.Channel.{
  ChannelCmd, Result, success, failure, TryRecvError, empty, recv_closed, TrySendError, full,
  send_closed, new, split, receiver_ref_count, sender_ref_count, try_send, try_recv, length_of,
  drop_sender, drop_receiver,
}
use embedded_async.Channel.Queue.{SpscQueue, list_queue}
use embedded_async.Channel.Notify.{Memory}

abbrev ops : SpscQueue ℕ
ops = list_queue 8

abbrev receivers : LinkList
receivers = record { head = 1; tail = 2 }

abbrev senders : LinkList
senders = record { head = 3; tail = 4 }

abbrev local : LinkList
local = record { head = 5; tail = 6 }

abbrev TestCmd : Type 0 → Type 0
TestCmd A = ChannelCmd ops A

abbrev fresh : Memory ops
fresh = record {
  links = record { live = λ a. false; owner = λ a. null; prev = λ a. null; next = λ a. null };
  waiter = λ p. none;
  woken = [];
  self = new ops receivers senders;
}

-- `Channel::new` and `split`, and the drop of the channel.
abbrev open_channel : TestCmd (Unit {0})
open_channel = do
  on_links (new_list receivers)
  on_links (new_list senders)
  is_split ← split ops 100
  assert is_split

abbrev drop_one : RcAnchor Ptr → TestCmd (Unit {0})
drop_one rc = elim (drop_anchor rc) [ ok _ _ ↦ pure tt | _ ↦ (λ w. panic) ]

abbrev drop_both : Option (RcAnchor Ptr × RcAnchor Ptr) → TestCmd (Unit {0})
drop_both none = pure tt
drop_both (some (tx, rx)) = do drop_one tx; drop_one rx

abbrev drop_channel : TestCmd (Unit {0})
drop_channel = do
  on_links (drop_list receivers)
  on_links (drop_list senders)
  c ← get
  drop_both c.tx_rx_rc

abbrev close_sender : TestCmd (Unit {0})
close_sender = drop_sender ops 3 local

abbrev close_receiver : TestCmd (Unit {0})
close_receiver = drop_receiver ops 3 local

abbrev assert_counts : (receivers senders : ℕ) → TestCmd (Unit {0})
assert_counts n m = do
  rx ← receiver_ref_count ops
  tx ← sender_ref_count ops
  assert ((rx == n) && (tx == m))

-- `len` of either end.
abbrev assert_len : ℕ → TestCmd (Unit {0})
assert_len n = do len ← length_of ops; assert (len == n)

abbrev is_empty_error : Result ℕ TryRecvError → Bool
is_empty_error (failure empty) = true
is_empty_error (failure recv_closed) = false
is_empty_error (success v) = false

abbrev is_closed_error : Result ℕ TryRecvError → Bool
is_closed_error (failure empty) = false
is_closed_error (failure recv_closed) = true
is_closed_error (success v) = false

abbrev holds : ℕ → Result ℕ TryRecvError → Bool
holds n (success v) = v == n
holds n (failure e) = false

abbrev is_sent : Result (Unit {0}) (TrySendError ℕ) → Bool
is_sent (success u) = true
is_sent (failure e) = false

abbrev gives_back : ℕ → Result (Unit {0}) (TrySendError ℕ) → Bool
gives_back n (failure (send_closed v)) = v == n
gives_back n (failure (full v)) = false
gives_back n (success u) = false

abbrev assert_recv : (Result ℕ TryRecvError → Bool) → TestCmd (Unit {0})
assert_recv test = do r ← try_recv ops 3 local; assert (test r)

abbrev assert_send : ℕ → (Result (Unit {0}) (TrySendError ℕ) → Bool) → TestCmd (Unit {0})
assert_send v test = do r ← try_send ops 3 local v; assert (test r)

unfoldable split_sets_ints_refs : TestCmd (Unit {0})
split_sets_ints_refs = do
  open_channel
  assert_counts 1 1
  close_sender
  assert_counts 1 0
  close_receiver
  assert_counts 0 0
  drop_channel

unfoldable forgetting_sender_panics : TestCmd (Unit {0})
forgetting_sender_panics = do open_channel; close_receiver; drop_channel

unfoldable forgetting_receiver_panics : TestCmd (Unit {0})
forgetting_receiver_panics = do open_channel; close_sender; drop_channel

-- What three of the tests begin with: a value is sent once the queue was seen empty.
abbrev send_ten : TestCmd (Unit {0})
send_ten = do
  open_channel
  assert_len 0
  assert_len 0
  assert_recv is_empty_error
  assert_send 10 is_sent
  assert_len 1
  assert_len 1

unfoldable send_receive_one : TestCmd (Unit {0})
send_receive_one = do
  send_ten
  assert_recv (holds 10)
  assert_len 0
  assert_len 0
  close_receiver
  close_sender
  drop_channel

unfoldable receive_closed : TestCmd (Unit {0})
receive_closed = do
  send_ten
  close_sender
  assert_recv (holds 10)
  assert_len 0
  assert_recv is_closed_error
  close_receiver
  drop_channel

unfoldable refuses_when_closed : TestCmd (Unit {0})
refuses_when_closed = do
  send_ten
  close_receiver
  assert_send 20 (gives_back 20)
  assert_len 1
  close_sender
  drop_channel

-- The tests pass, but for the two that should panic, and do.
passes :
    (is_ok (split_sets_ints_refs fresh) ≡ true)
    × (is_panic (forgetting_sender_panics fresh) ≡ true)
    × (is_panic (forgetting_receiver_panics fresh) ≡ true)
    × (is_ok (send_receive_one fresh) ≡ true)
    × (is_ok (receive_closed fresh) ≡ true)
    × (is_ok (refuses_when_closed fresh) ≡ true)
unfolding split_sets_ints_refs forgetting_sender_panics forgetting_receiver_panics send_receive_one
    receive_closed refuses_when_closed new_list drop_list is_empty drop_anchor split try_send
    try_recv length_of drop_sender drop_receiver move_to_front_of pop_front
passes = (refl, refl, refl, refl, refl, refl)
