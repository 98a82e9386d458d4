-- ===== src/Channel/Refine/Values.antt =====
-- src/channel/mod.rs: `try_send` and `try_recv` refine the bounded channel.
use embedded_async.Base.{
  ℕ, ◌<◌, ◌≤◌, ◌≡◌, ◌≢◌, ap, ◌∙◌, ◌==◌, ltb, if◌then◌else◌, List, [], ◌∷◌, ◌++◌, length, ok,
  Bool-cases, inl, inr, arith, true, false,
}
use embedded_async.Intrusive.Links.{Ptr, LinkList}
use embedded_async.Intrusive.Rc.{RcAnchor}
use embedded_async.World.Waits.{wakers_of}
use embedded_async.Channel.{failure, empty, recv_closed, try_send, try_recv}
use embedded_async.Channel.Queue.{SpscQueue}
use embedded_async.Channel.Notify.{Memory}
use embedded_async.Channel.TrySend.{try_send-closed, try_send-full, try_send-room}
use embedded_async.Channel.TryRecv.{try_recv-nil, try_recv-cons}
use embedded_async.Channel.Spec.{Bounded, offer, demand}
use embedded_async.Channel.Refine.{Models, queue-Models}

module _ {T : Type 0} (ops : SpscQueue T) (fuel : ℕ) (local : LinkList) (w : Memory ops)
    (s : Bounded T) (models : Models ops fuel local w s) where
  open ops use {items, capacity}

  abbrev tx : RcAnchor Ptr
  tx = models.tx

  abbrev rx : RcAnchor Ptr
  rx = models.rx

  pub closed : (s.receivers == 0) ≡ true → rx.ref_count ≡ 0
  closed gone = ground (arith, models.receivers, gone)

  pub open_end : (s.receivers == 0) ≡ false → rx.ref_count ≢ 0
  open_end alive = ground (arith, models.receivers, alive)

  pub room_left : ltb (length s.items) capacity ≡ true → length (items w.self.queue) < capacity
  room_left room = ground (arith, ap length models.queue, room)

  pub no_room_left : ltb (length s.items) capacity ≡ false → capacity ≤ length (items w.self.queue)
  no_room_left no_room = ground (arith, ap length models.queue, no_room)

  pub offer-Models :
      (v : T)
      → length s.asleep_receivers < fuel
      → (u : Memory ops) × (try_send ops fuel local v w ≡ ok (offer capacity v s).0 u)
        × Models ops fuel local u (offer capacity v s).1
  offer-Models v few = elim (Bool-cases (s.receivers == 0)) [
    | inl gone ↦ (
      w,
      rw gone (try_send-closed ops w tx rx models.split fuel local v (closed gone)),
      rw gone models,
    )
    | inr alive ↦ elim (Bool-cases (ltb (length s.items) capacity)) [
      | inl room ↦
          let (u, e, queue, same, woken, waiter, channel, fresh) =
            try_send-room ops w tx rx models.split fuel local v s.asleep_receivers s.asleep_senders
              models.channel models.fresh (open_end alive) (room_left room) few in
          (
            u,
            rw (alive, room) e,
            rw (alive, room)
                (queue-Models ops fuel local w s models u (s.items ++ v ∷ []) [] s.asleep_senders
                  (s.woken ++ wakers_of s.asleep_receivers) channel fresh
                  (queue ∙ ap (λ xs. xs ++ v ∷ []) models.queue)
                  (woken ∙ ap (λ ks. ks ++ wakers_of s.asleep_receivers) models.woken) same),
          )
      | inr no_room ↦ (
        w,
        rw (alive, no_room)
            (try_send-full ops w tx rx models.split fuel local v (open_end alive)
              (no_room_left no_room)),
        rw (alive, no_room) models,
      )
    ]
  ]

  pub demand-Models :
      (vs : List T)
      → s.items ≡ vs
      → length s.asleep_senders < fuel
      → (u : Memory ops) × (try_recv ops fuel local w ≡ ok (demand vs s).0 u)
        × Models ops fuel local u (demand vs s).1
  demand-Models [] e few = (
    w,
    try_recv-nil ops w tx rx models.split fuel local (models.queue ∙ e)
        ∙ ap (λ n. ok (failure (if n == 0 then recv_closed else empty)) w) models.senders,
    models,
  )
  demand-Models (v ∷ vs) e few =
      let (u, d, queue, same, woken, waiter, channel, fresh) =
        try_recv-cons ops w tx rx models.split fuel local s.asleep_receivers s.asleep_senders
          models.channel models.fresh v vs (models.queue ∙ e) few in
      (
        u,
        d,
        queue-Models ops fuel local w s models u vs s.asleep_receivers []
            (s.woken ++ wakers_of s.asleep_senders) channel fresh queue
            (woken ∙ ap (λ ks. ks ++ wakers_of s.asleep_senders) models.woken) same,
      )
