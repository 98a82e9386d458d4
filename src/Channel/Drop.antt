-- ===== src/Channel/Drop.antt =====
-- The drops of senders and receivers in src/channel/mod.rs.
use mathlib.Core.List.{append-nil}
use embedded_async.Base.{
  Bool-cases, inl, inr, if◌then◌else◌, ℕ, ◌<◌, ◌≡◌, refl, [], ◌++◌, ◌==◌, length, arith, some, ok,
}
use embedded_async.Intrusive.Links.{Ptr, LinkList}
use embedded_async.Intrusive.Links.Lifetime.{Fresh}
use embedded_async.Intrusive.Rc.{RcAnchor, decrement_refcount}
use embedded_async.World.Waits.{Waits, wakers_of}
use embedded_async.Channel.{drop_sender, drop_receiver}
use embedded_async.Channel.Queue.{SpscQueue}
use embedded_async.Channel.Notify.{
  Memory, IsChannel, notify_waiting_receivers-wakes, notify_waiting_senders-wakes,
}

module _ {T : Type 0} (ops : SpscQueue T) (w : Memory ops) (tx rx : RcAnchor Ptr)
    (split : w.self.tx_rx_rc ≡ some (tx, rx)) (fuel : ℕ) (local : LinkList) (rs ss : Waits)
    (is : IsChannel ops w rs ss) (fresh : Fresh w.links local) where
  -- The drop of the last sender wakes every waiting receiver once, in the order in which they came,
  -- so that each can see the channel closed; the drop of another sender wakes nobody. Both take one
  -- from the count of senders, and leave the queue and the waiting senders; the call's own memory is
  -- fresh again.
  pub drop_sender-wakes :
      length rs < fuel
      → (u : Memory ops) × (drop_sender ops fuel local w ≡ ok tt u)
        × (u.self ≡ record w.self { tx_rx_rc = some (decrement_refcount tx, rx) })
        × (u.woken ≡ w.woken ++ (if tx.ref_count == 1 then wakers_of rs else []))
        × IsChannel ops u (if tx.ref_count == 1 then [] else rs) ss
        × Fresh u.links local
  unfolding drop_sender
  drop_sender-wakes few =
      let left = record w.self { tx_rx_rc = some (decrement_refcount tx, rx) } in
      let p = notify_waiting_receivers-wakes ops w rs ss is fuel local fresh few in
      elim (Bool-cases (tx.ref_count == 1)) [
        | inl last ↦ (
          record w { links = p.0; woken = w.woken ++ wakers_of rs; self = left },
          ground (arith, split, p.1),
          refl,
          rw last,
          rw last (record { receivers = p.2.receivers; senders = p.2.senders; apart = p.2.apart }),
          p.3,
        )
        | inr other ↦ (
          record w { self = left },
          ground (arith, split),
          refl,
          rw (other, append-nil),
          rw other (record { receivers = is.receivers; senders = is.senders; apart = is.apart }),
          fresh,
        )
      ]

  -- The drop of the last receiver wakes every waiting sender once, in order, and of another
  -- receiver nobody. Both take one from the count and leave the queue and the waiting receivers;
  -- the call's own memory is fresh again.
  pub drop_receiver-wakes :
      length ss < fuel
      → (u : Memory ops) × (drop_receiver ops fuel local w ≡ ok tt u)
        × (u.self ≡ record w.self { tx_rx_rc = some (tx, decrement_refcount rx) })
        × (u.woken ≡ w.woken ++ (if rx.ref_count == 1 then wakers_of ss else []))
        × IsChannel ops u rs (if rx.ref_count == 1 then [] else ss)
        × Fresh u.links local
  unfolding drop_receiver
  drop_receiver-wakes few =
      let left = record w.self { tx_rx_rc = some (tx, decrement_refcount rx) } in
      let p = notify_waiting_senders-wakes ops w rs ss is fuel local fresh few in
      elim (Bool-cases (rx.ref_count == 1)) [
        | inl last ↦ (
          record w { links = p.0; woken = w.woken ++ wakers_of ss; self = left },
          ground (arith, split, p.1),
          refl,
          rw last,
          rw last (record { receivers = p.2.receivers; senders = p.2.senders; apart = p.2.apart }),
          p.3,
        )
        | inr other ↦ (
          record w { self = left },
          ground (arith, split),
          refl,
          rw (other, append-nil),
          rw other (record { receivers = is.receivers; senders = is.senders; apart = is.apart }),
          fresh,
        )
      ]
