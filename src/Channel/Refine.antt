-- ===== src/Channel/Refine.antt =====
-- src/channel/mod.rs refines the bounded channel of Channel/Spec: one operation at a time.
pub mod Values
pub mod Ends
pub mod Polls
pub mod Futures
use embedded_async.Base.{
  ℕ, ◌+◌, ◌-◌, ◌<◌, ◌≤◌, ◌≡◌, ◌≢◌, refl, sym, ap, subst, ◌∙◌, ◌==◌, ltb, ◌^◌, if◌then◌else◌, List,
  [], ◌∷◌, ◌++◌, length, Option, none, some, ok, pure, ◌>>=◌, ◌>>◌, Bool-cases, inl, inr, arith,
  true, false, ◌∉◌,
}
use embedded_async.Intrusive.Links.{Ptr, null, LinkList}
use embedded_async.Intrusive.Links.Lifetime.{Fresh}
use embedded_async.Intrusive.Rc.{RcAnchor, increment_refcount, decrement_refcount}
use embedded_async.World.{Waker, pending, ready}
use embedded_async.World.Waits.{Waits, wakers_of}
use embedded_async.Channel.{
  ChannelCmd, Result, success, failure, full, send_closed, empty, recv_closed, try_send, try_recv,
  clone_sender, clone_receiver, drop_sender, drop_receiver, poll_send, poll_recv, send, recv,
  drop_send, drop_recv,
}
use embedded_async.Channel.Queue.{SpscQueue}
use embedded_async.Channel.Notify.{Memory, IsChannel}
use embedded_async.Channel.TrySend.{try_send-closed, try_send-full, try_send-room}
use embedded_async.Channel.TryRecv.{try_recv-nil, try_recv-cons}
use embedded_async.Channel.Cancel.{Leaves}
use embedded_async.Channel.Wait.{Idle, poll_send-waits, poll_recv-waits}
use embedded_async.Channel.Drop.{drop_sender-wakes, drop_receiver-wakes}
use embedded_async.Channel.Spec.{
  Bounded, Request, puts, takes, adds_sender, adds_receiver, drops_sender, drops_receiver,
  polls_send, polls_recv, makes_send, makes_recv, cancels_send, cancels_recv, Answer, done, made,
  sent, received, send_polled, recv_polled, offer, demand, answer,
}

module _ {T : Type 0} (ops : SpscQueue T) (fuel : ℕ) (local : LinkList) where
  open ops use {items, capacity}

  -- The operation of the code that each request stands for.
  unfoldable pub perform : Request T → ChannelCmd ops (Answer T)
  perform (puts v) = do r ← try_send ops fuel local v; pure (sent r)
  perform takes = do r ← try_recv ops fuel local; pure (received r)
  perform adds_sender = do clone_sender ops; pure done
  perform adds_receiver = do clone_receiver ops; pure done
  perform drops_sender = do drop_sender ops fuel local; pure done
  perform drops_receiver = do drop_receiver ops fuel local; pure done
  perform (polls_send v p x k) = do
    (me, r) ← poll_send ops fuel local (record { value = some v; waiter = p; link = x }) k
    pure (send_polled me.value r)
  perform (polls_recv p x k) = do
    r ← poll_recv ops fuel local (record { waiter = p; link = x }) k
    pure (recv_polled r)
  perform (makes_send v p x) = do me ← send ops v p x; pure (made me.value me.waiter me.link)
  perform (makes_recv p x) = do me ← recv ops p x; pure (made none me.waiter me.link)
  perform (cancels_send p x) = do
    drop_send ops fuel local (record { value = none; waiter = p; link = x })
    pure done
  perform (cancels_recv p x) = do
    drop_recv ops fuel local (record { waiter = p; link = x })
    pure done

  -- The memory `w` holds the bounded channel `s`.
  pub record Models (w : Memory ops) (s : Bounded T) : Type 0 where
    pub channel : IsChannel ops w s.asleep_receivers s.asleep_senders
    pub fresh : Fresh w.links local
    pub queue : items w.self.queue ≡ s.items
    pub woken : w.woken ≡ s.woken
    pub tx : RcAnchor Ptr
    pub rx : RcAnchor Ptr
    pub split : w.self.tx_rx_rc ≡ some (tx, rx)
    pub senders : tx.ref_count ≡ s.senders
    pub receivers : rx.ref_count ≡ s.receivers
    pub few_senders : s.senders < 2 ^ 32
    pub few_receivers : s.receivers < 2 ^ 32

  -- Memory for the link of a new future.
  abbrev pub Unused : Memory ops → Ptr → Type 0
  Unused w x = (x ≢ null) × (w.links.live x ≡ false) × (x ∉ (local.head ∷ local.tail ∷ []))

  -- An end is cloned and dropped by those that are there, and less than 2 ^ 32 are made. The link
  -- of a new future is unused memory; a future that is polled waits in neither list; one that is
  -- dropped waits on its own side, or not at all.
  abbrev pub Allowed : Memory ops → Bounded T → Request T → Type 0
  Allowed w s (puts v) = 0 < s.senders
  Allowed w s takes = 0 < s.receivers
  Allowed w s adds_sender = (0 < s.senders) × (s.senders + 1 < 2 ^ 32)
  Allowed w s adds_receiver = (0 < s.receivers) × (s.receivers + 1 < 2 ^ 32)
  Allowed w s drops_sender = 0 < s.senders
  Allowed w s drops_receiver = 0 < s.receivers
  Allowed w s (polls_send v p x k) =
      Idle w.links w.self.waiting_senders w.self.waiting_receivers s.asleep_senders
        s.asleep_receivers p x
  Allowed w s (polls_recv p x k) =
      Idle w.links w.self.waiting_receivers w.self.waiting_senders s.asleep_receivers
        s.asleep_senders p x
  Allowed w s (makes_send v p x) = (0 < s.senders) × (s.senders + 1 < 2 ^ 32) × Unused w x
  Allowed w s (makes_recv p x) = (0 < s.receivers) × (s.receivers + 1 < 2 ^ 32) × Unused w x
  Allowed w s (cancels_send p x) =
      (0 < s.senders)
      × Leaves w.links w.self.waiting_senders w.self.waiting_receivers s.asleep_senders
          s.asleep_receivers p x
  Allowed w s (cancels_recv p x) =
      (0 < s.receivers)
      × Leaves w.links w.self.waiting_receivers w.self.waiting_senders s.asleep_receivers
          s.asleep_senders p x

  abbrev pub Refines : Memory ops → Bounded T → Request T → Type 0
  Refines w s r =
      (u : Memory ops) × (perform r w ≡ ok (answer capacity r s).0 u)
      × Models u (answer capacity r s).1

  module _ (w : Memory ops) (s : Bounded T) (models : Models w s) where
    abbrev tx : RcAnchor Ptr
    tx = models.tx

    abbrev rx : RcAnchor Ptr
    rx = models.rx

    -- What stays of the model where the counts do.
    pub queue-Models :
        (u : Memory ops) (xs : List T) (rs ss : Waits) (ks : List Waker)
        → IsChannel ops u rs ss
        → Fresh u.links local
        → items u.self.queue ≡ xs
        → u.woken ≡ ks
        → u.self ≡ record w.self { queue = u.self.queue }
        → Models u (record s { items = xs; asleep_receivers = rs; asleep_senders = ss; woken = ks })
    queue-Models u xs rs ss ks channel fresh queue woken same = record {
      channel = channel;
      fresh = fresh;
      queue = queue;
      woken = woken;
      tx = tx;
      rx = rx;
      split = ap (λ c. c.tx_rx_rc) same ∙ models.split;
      senders = models.senders;
      receivers = models.receivers;
      few_senders = models.few_senders;
      few_receivers = models.few_receivers;
    }

    -- What stays of it where the counts change.
    pub ends-Models :
        (u : Memory ops) (tx' rx' : RcAnchor Ptr) (n m : ℕ) (rs ss : Waits) (ks : List Waker)
        → u.self ≡ record w.self { tx_rx_rc = some (tx', rx') }
        → tx'.ref_count ≡ n
        → rx'.ref_count ≡ m
        → n < 2 ^ 32
        → m < 2 ^ 32
        → IsChannel ops u rs ss
        → Fresh u.links local
        → u.woken ≡ ks
        → Models u (record s {
          senders = n;
          receivers = m;
          asleep_receivers = rs;
          asleep_senders = ss;
          woken = ks;
        })
    ends-Models u tx' rx' n m rs ss ks same senders receivers few_n few_m channel fresh woken =
        record {
          channel = channel;
          fresh = fresh;
          queue = ap (λ c. items c.queue) same ∙ models.queue;
          woken = woken;
          tx = tx';
          rx = rx';
          split = ap (λ c. c.tx_rx_rc) same;
          senders = senders;
          receivers = receivers;
          few_senders = few_n;
          few_receivers = few_m;
        }
