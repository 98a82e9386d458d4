-- ===== src/Channel/Refine/Polls.antt =====
-- src/channel/mod.rs: the polls of senders and receivers refine the bounded channel.
use embedded_async.Base.{
  ℕ, ◌<◌, ◌≡◌, refl, sym, ap, subst, ◌∙◌, ◌==◌, ltb, if◌then◌else◌, List, [], ◌∷◌, ◌++◌, length,
  some, ok, Bool-cases, inl, inr, arith, true, false,
}
use embedded_async.Intrusive.Links.{Ptr, LinkList}
use embedded_async.Intrusive.Links.Lifetime.{Fresh}
use embedded_async.Intrusive.Rc.{RcAnchor}
use embedded_async.World.{Waker}
use embedded_async.Channel.{
  TryRecvError, Result, success, failure, empty, recv_closed, poll_send, poll_recv,
}
use embedded_async.Channel.Queue.{SpscQueue}
use embedded_async.Channel.Notify.{Memory}
use embedded_async.Channel.TrySend.{try_send-closed}
use embedded_async.Channel.TryRecv.{try_recv-nil}
use embedded_async.Channel.Wait.{poll_send-waits, poll_recv-waits}
use embedded_async.Channel.Spec.{
  wake_receivers, Bounded, polls_send, polls_recv, offer, demand, sleep_receiver,
}
use embedded_async.Channel.Refine.{perform, Models, Allowed, Refines, queue-Models}
use embedded_async.Channel.Refine.Values.{
  closed, open_end, no_room_left, offer-Models, demand-Models,
}

module _ {T : Type 0} (ops : SpscQueue T) (fuel : ℕ) (local : LinkList) (w : Memory ops)
    (s : Bounded T) (models : Models ops fuel local w s) where
  open ops use {items, capacity}

  abbrev tx : RcAnchor Ptr
  tx = models.tx

  abbrev rx : RcAnchor Ptr
  rx = models.rx

  -- No memory is taken or freed, so that the call's own memory stays fresh.
  still-Fresh :
      (u : Memory ops) → ((a : Ptr) → u.links.live a ≡ w.links.live a) → Fresh u.links local
  still-Fresh u live = record {
    head = (models.fresh.head.0, live local.head ∙ models.fresh.head.1);
    tail = (models.fresh.tail.0, live local.tail ∙ models.fresh.tail.1);
    apart = models.fresh.apart;
  }

  -- A poll of a send with no receiver left.
  closed_send :
      (v : T) (p x : Ptr) (k : Waker)
      → (s.receivers == 0) ≡ true
      → Refines ops fuel local w s (polls_send v p x k)
  unfolding perform poll_send
  closed_send v p x k gone = (
    w,
    rw (
      try_send-closed ops w tx rx models.split fuel local v (closed ops fuel local w s models gone),
      gone,
    ),
    rw gone models,
  )

  -- A poll of a send with a receiver left and room.
  room_send :
      (v : T) (p x : Ptr) (k : Waker)
      → length s.asleep_receivers < fuel
      → (s.receivers == 0) ≡ false
      → ltb (length s.items) capacity ≡ true
      → Refines ops fuel local w s (polls_send v p x k)
  unfolding perform poll_send
  room_send v p x k few alive room =
      let q = offer-Models ops fuel local w s models v few in
      let taken : offer capacity v s
          ≡ (success tt, wake_receivers (record s { items = s.items ++ v ∷ [] })) =
        rw (alive, room) refl in
      (
        q.0,
        rw (alive, room) (rw (q.1 ∙ ap (λ o. ok o.0 q.0) taken)),
        rw (alive, room) (subst (λ o. Models ops fuel local q.0 o.1) taken q.2),
      )

  -- A poll of a send with a receiver left and a full queue.
  full_send :
      (v : T) (p x : Ptr) (k : Waker)
      → (s.receivers == 0) ≡ false
      → ltb (length s.items) capacity ≡ false
      → Allowed ops fuel local w s (polls_send v p x k)
      → Refines ops fuel local w s (polls_send v p x k)
  unfolding perform
  full_send v p x k alive no_room idle =
      let (u, e, same, woken, channel, live) =
        poll_send-waits ops w tx rx models.split fuel local s.asleep_receivers s.asleep_senders
          models.channel k (record { value = some v; waiter = p; link = x }) v refl
          (no_room_left ops fuel local w s models no_room)
          (open_end ops fuel local w s models alive) idle in
      (
        u,
        rw (alive, no_room) (rw e),
        rw (alive, no_room)
            (queue-Models ops fuel local w s models u s.items s.asleep_receivers
              (s.asleep_senders ++ (x, k) ∷ []) s.woken channel (still-Fresh u live)
              (ap (λ c. items c.queue) same ∙ models.queue) (woken ∙ models.woken)
              (same ∙ ap (λ c. record w.self { queue = c.queue }) (sym same))),
      )

  pub polls_send-Refines :
      (v : T) (p x : Ptr) (k : Waker)
      → length s.asleep_receivers < fuel
      → Allowed ops fuel local w s (polls_send v p x k)
      → Refines ops fuel local w s (polls_send v p x k)
  polls_send-Refines v p x k few idle = elim (Bool-cases (s.receivers == 0)) [
    | inl gone ↦ closed_send v p x k gone
    | inr alive ↦ elim (Bool-cases (ltb (length s.items) capacity)) [
      | inl room ↦ room_send v p x k few alive room
      | inr no_room ↦ full_send v p x k alive no_room idle
    ]
  ]

  -- A poll of a receive does what is made of the result `o` of asking for a value.
  abbrev Polled : (p x : Ptr) (k : Waker) → Result T TryRecvError × Bounded T → Type 0
  Polled p x k o =
      (u : Memory ops) × (perform ops fuel local (polls_recv p x k) w
        ≡ ok (sleep_receiver x k o).0 u)
      × Models ops fuel local u (sleep_receiver x k o).1

  -- With a value in the queue.
  value_recv :
      (v : T) (vs : List T) (p x : Ptr) (k : Waker)
      → s.items ≡ v ∷ vs
      → length s.asleep_senders < fuel
      → Polled p x k (demand (v ∷ vs) s)
  unfolding perform poll_recv
  value_recv v vs p x k e few =
      let (u, d, holds) = demand-Models ops fuel local w s models (v ∷ vs) e few in (u, rw d, holds)

  -- With no value and no sender left.
  closed_recv :
      (p x : Ptr) (k : Waker)
      → s.items ≡ []
      → (s.senders == 0) ≡ true
      → Polled p x k (failure recv_closed, s)
  unfolding perform poll_recv
  closed_recv p x k e gone = (
    w,
    rw
        (try_recv-nil ops w tx rx models.split fuel local (models.queue ∙ e)
          ∙ ap (λ n. ok (failure (if n == 0 then recv_closed else empty)) w) models.senders)
        (rw gone),
    models,
  )

  -- With no value and a sender left.
  empty_recv :
      (p x : Ptr) (k : Waker)
      → s.items ≡ []
      → (s.senders == 0) ≡ false
      → Allowed ops fuel local w s (polls_recv p x k)
      → Polled p x k (failure empty, s)
  unfolding perform
  empty_recv p x k e alive idle =
      let (u, d, same, woken, channel, live) =
        poll_recv-waits ops w tx rx models.split fuel local s.asleep_receivers s.asleep_senders
          models.channel k (record { waiter = p; link = x }) (models.queue ∙ e)
          (ground (arith, models.senders, alive)) idle in
      (
        u,
        rw d,
        queue-Models ops fuel local w s models u s.items (s.asleep_receivers ++ (x, k) ∷ [])
            s.asleep_senders s.woken channel (still-Fresh u live)
            (ap (λ c. items c.queue) same ∙ models.queue) (woken ∙ models.woken)
            (same ∙ ap (λ c. record w.self { queue = c.queue }) (sym same)),
      )

  polls_recv_at :
      (vs : List T) (p x : Ptr) (k : Waker)
      → s.items ≡ vs
      → length s.asleep_senders < fuel
      → Allowed ops fuel local w s (polls_recv p x k)
      → Polled p x k (demand vs s)
  polls_recv_at [] p x k e few idle = elim (Bool-cases (s.senders == 0)) [
    | inl gone ↦
        subst (Polled p x k) {x = (failure recv_closed, s)} {y = demand [] s} (rw gone refl)
          (closed_recv p x k e gone)
    | inr alive ↦
        subst (Polled p x k) {x = (failure empty, s)} {y = demand [] s} (rw alive refl)
          (empty_recv p x k e alive idle)
  ]
  polls_recv_at (v ∷ vs) p x k e few idle = value_recv v vs p x k e few

  pub polls_recv-Refines :
      (p x : Ptr) (k : Waker)
      → length s.asleep_senders < fuel
      → Allowed ops fuel local w s (polls_recv p x k)
      → Refines ops fuel local w s (polls_recv p x k)
  polls_recv-Refines p x k few idle = polls_recv_at s.items p x k refl few idle
