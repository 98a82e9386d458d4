-- ===== src/Channel/TryRecv.antt =====
-- `try_recv` of src/channel/mod.rs on every branch.
use embedded_async.Base.{
  ℕ, ◌<◌, ◌≡◌, refl, List, [], ◌∷◌, ◌++◌, length, true, some, ok, ap, ◌∙◌, ◌==◌, if◌then◌else◌,
  Bool-cases, inl, inr,
}
use embedded_async.Intrusive.Links.{Ptr, LinkList}
use embedded_async.Intrusive.Links.Sentinels.{is_nil}
use embedded_async.Intrusive.Links.Lifetime.{Fresh}
use embedded_async.Intrusive.Rc.{RcAnchor}
use embedded_async.World.Waits.{Waits, wakers_of}
use embedded_async.Channel.{success, failure, empty, recv_closed, try_recv}
use embedded_async.Channel.Queue.{SpscQueue}
use embedded_async.Channel.Notify.{Memory, IsChannel, notify_waiting_senders-wakes}

module _ {T : Type 0} (ops : SpscQueue T) (w : Memory ops) (tx rx : RcAnchor Ptr)
    (split : w.self.tx_rx_rc ≡ some (tx, rx)) (fuel : ℕ) (local : LinkList) where
  open ops use {items, dequeue, is_empty, dequeue_nil, dequeue_cons, is_empty_items}

  no_items : items w.self.queue ≡ [] → is_empty w.self.queue ≡ true
  no_items e = is_empty_items w.self.queue ∙ ap is_nil e

  -- On an empty queue `try_recv` changes nothing; it says closed if no sender is left, and empty if
  -- one is.
  pub try_recv-nil :
      items w.self.queue ≡ []
      → try_recv ops fuel local w
        ≡ ok (failure (if tx.ref_count == 0 then recv_closed else empty)) w
  unfolding try_recv
  try_recv-nil e = elim (Bool-cases (tx.ref_count == 0)) [
    | inl gone ↦ rw (no_items e, split, gone)
    | inr alive ↦ rw (no_items e, split, alive, dequeue_nil w.self.queue e)
  ]

  module _ (rs ss : Waits) (is : IsChannel ops w rs ss) (fresh : Fresh w.links local) where
    -- On a queue with items it takes the oldest one, whether a sender is left or not, and wakes
    -- every waiting sender once, in the order in which they came.
    pub try_recv-cons :
        (v : T) (vs : List T)
        → items w.self.queue ≡ v ∷ vs
        → length ss < fuel
        → (u : Memory ops) × (try_recv ops fuel local w ≡ ok (success v) u)
          × (items u.self.queue ≡ vs)
          × (u.self ≡ record w.self { queue = u.self.queue })
          × (u.woken ≡ w.woken ++ wakers_of ss)
          × (u.waiter ≡ w.waiter)
          × IsChannel ops u rs []
          × Fresh u.links local
    unfolding try_recv
    try_recv-cons v vs e few =
        let (taken, rest) = dequeue_cons w.self.queue v vs e in
        let q = (dequeue w.self.queue).0 in
        let mid : Memory ops = record w { self = record w.self { queue = q } } in
        let is' : IsChannel ops mid rs ss = record {
          receivers = is.receivers;
          senders = is.senders;
          apart = is.apart;
        } in
        let p = notify_waiting_senders-wakes ops mid rs ss is' fuel local fresh few in
        (
          record mid { links = p.0; woken = w.woken ++ wakers_of ss },
          rw (is_empty_items w.self.queue ∙ ap is_nil e, taken, p.1),
          rest,
          refl,
          refl,
          refl,
          p.2,
          p.3,
        )
