-- ===== src/Channel/TrySend.antt =====
-- `try_send` of src/channel/mod.rs on every branch.
use embedded_async.Base.{
  ℕ, ◌<◌, ◌≤◌, ◌≡◌, ◌≢◌, refl, [], ◌∷◌, ◌++◌, length, arith, false, some, ok, ◌==◌,
}
use embedded_async.Intrusive.Links.{Ptr, LinkList}
use embedded_async.Intrusive.Links.Lifetime.{Fresh}
use embedded_async.Intrusive.Rc.{RcAnchor}
use embedded_async.World.Waits.{Waits, wakers_of}
use embedded_async.Channel.{success, failure, full, send_closed, try_send}
use embedded_async.Channel.Queue.{SpscQueue}
use embedded_async.Channel.Notify.{Memory, IsChannel, notify_waiting_receivers-wakes}

module _ {T : Type 0} (ops : SpscQueue T) (w : Memory ops) (tx rx : RcAnchor Ptr)
    (split : w.self.tx_rx_rc ≡ some (tx, rx)) (fuel : ℕ) (local : LinkList) (v : T) where
  open ops use {items, capacity, enqueue, enqueue_room, enqueue_full}

  -- With no receiver left `try_send` gives the value back as closed and changes nothing.
  pub try_send-closed :
      rx.ref_count ≡ 0 → try_send ops fuel local v w ≡ ok (failure (send_closed v)) w
  unfolding try_send
  try_send-closed gone = rw (split, gone)

  -- With a receiver and a full queue it gives the value back as full and changes nothing.
  pub try_send-full :
      rx.ref_count ≢ 0
      → capacity ≤ length (items w.self.queue)
      → try_send ops fuel local v w ≡ ok (failure (full v)) w
  unfolding try_send
  try_send-full alive no_room =
      let test : (rx.ref_count == 0) ≡ false = ground arith in
      rw (split, test, enqueue_full v w.self.queue no_room)

  module _ (rs ss : Waits) (is : IsChannel ops w rs ss) (fresh : Fresh w.links local) where
    -- With a receiver and room it puts the value behind those in the queue and wakes every waiting
    -- receiver once, in the order in which they came.
    pub try_send-room :
        rx.ref_count ≢ 0
        → length (items w.self.queue) < capacity
        → length rs < fuel
        → (u : Memory ops) × (try_send ops fuel local v w ≡ ok (success tt) u)
          × (items u.self.queue ≡ items w.self.queue ++ v ∷ [])
          × (u.self ≡ record w.self { queue = u.self.queue })
          × (u.woken ≡ w.woken ++ wakers_of rs)
          × (u.waiter ≡ w.waiter)
          × IsChannel ops u [] ss
          × Fresh u.links local
    unfolding try_send
    try_send-room alive room few =
        let test : (rx.ref_count == 0) ≡ false = ground arith in
        let (taken, behind) = enqueue_room v w.self.queue room in
        let q = (enqueue v w.self.queue).0 in
        let mid : Memory ops = record w { self = record w.self { queue = q } } in
        let is' : IsChannel ops mid rs ss = record {
          receivers = is.receivers;
          senders = is.senders;
          apart = is.apart;
        } in
        let p = notify_waiting_receivers-wakes ops mid rs ss is' fuel local fresh few in
        (
          record mid { links = p.0; woken = w.woken ++ wakers_of rs },
          simp split (rw (test, taken, p.1, ← split)),
          behind,
          refl,
          refl,
          refl,
          p.2,
          p.3,
        )
