-- ===== src/Channel/Refine/Futures.antt =====
-- src/channel/mod.rs: making and dropping futures refines the bounded channel.
use embedded_async.Base.{
  ℕ, ◌≡◌, false, length, ◌<◌, Option, none, some, ok, ap, Outcome, and_then, pure, update, arith,
  Disjoint-symm,
}
use embedded_async.Intrusive.Links.{Ptr, Heap, LinkList}
use embedded_async.Intrusive.Links.Invariant.{nodes}
use embedded_async.Intrusive.Links.Lifetime.{Fresh, with_link}
use embedded_async.World.Waits.{Waits, links_of}
use embedded_async.World.Without.{without}
use embedded_async.Channel.{
  WaitingTask, send, recv, drop_send, drop_recv, clone_sender, clone_receiver,
}
use embedded_async.Channel.Queue.{SpscQueue}
use embedded_async.Channel.Notify.{Memory, IsChannel}
use embedded_async.Channel.Cancel.{drop_one, new_one}
use embedded_async.Channel.Spec.{
  Bounded, Answer, done, made, makes_send, makes_recv, cancels_send, cancels_recv,
}
use embedded_async.Channel.Refine.{perform, Models, Allowed, Refines, Unused}
use embedded_async.Channel.Refine.Ends.{
  adds_sender-Refines, adds_receiver-Refines, drops_sender-Refines, drops_receiver-Refines,
}

module _ {T : Type 0} (ops : SpscQueue T) (fuel : ℕ) (local : LinkList) (w : Memory ops)
    (s : Bounded T) (models : Models ops fuel local w s) where
  -- The model with other links and waiters, and other tasks asleep.
  abbrev moved : Heap → (Ptr → Option WaitingTask) → Memory ops
  moved g waiter = record w { links = g; waiter = waiter }

  moved-Models :
      (g : Heap) (waiter : Ptr → Option WaitingTask) (rs ss : Waits)
      → IsChannel ops (moved g waiter) rs ss
      → Fresh g local
      → Models ops fuel local
          (moved g waiter)
          (record s { asleep_receivers = rs; asleep_senders = ss })
  moved-Models g waiter rs ss channel fresh = record {
    channel = channel;
    fresh = fresh;
    queue = models.queue;
    woken = models.woken;
    tx = models.tx;
    rx = models.rx;
    split = models.split;
    senders = models.senders;
    receivers = models.receivers;
    few_senders = models.few_senders;
    few_receivers = models.few_receivers;
  }

  -- The memory with the link of a new future.
  abbrev with_future : Ptr → Memory ops
  with_future x = moved (with_link x w.links) w.waiter

  with_future-Models :
      (x : Ptr) → Unused ops fuel local w x → Models ops fuel local (with_future x) s
  with_future-Models x (ne, dead, off) =
      let is = models.channel in
      let n =
        new_one w.links w.waiter w.self.waiting_receivers w.self.waiting_senders s.asleep_receivers
          s.asleep_senders is.receivers is.senders is.apart x dead in
      moved-Models (with_link x w.links) w.waiter s.asleep_receivers s.asleep_senders
        (record { receivers = n.0; senders = n.1; apart = is.apart })
        (record {
          head = ground (arith, models.fresh.head, off);
          tail = ground (arith, models.fresh.tail, off);
          apart = models.fresh.apart;
        })

  -- The same change of memory, with the future as the answer.
  as_made :
      (value : Option T) (p x : Ptr) {o : Outcome (Memory ops) (Answer T)} {u : Memory ops}
      → o ≡ ok done u
      → and_then o (λ _. pure (made value p x)) ≡ ok (made value p x) u
  as_made value p x e = ap (λ o. and_then o (λ _. pure (made value p x))) e

  pub makes_send-Refines :
      (v : T) (p x : Ptr)
      → Allowed ops fuel local w s (makes_send v p x)
      → Refines ops fuel local w s (makes_send v p x)
  unfolding perform send clone_sender
  makes_send-Refines v p x (some_left, few, unused) =
      let (u, e, holds) =
        adds_sender-Refines ops fuel local (with_future x) s (with_future-Models x unused)
          (some_left, few) in
      (u, rw models.split (as_made (some v) p x (rw models.split at e)), holds)

  pub makes_recv-Refines :
      (p x : Ptr)
      → Allowed ops fuel local w s (makes_recv p x)
      → Refines ops fuel local w s (makes_recv p x)
  unfolding perform recv clone_receiver
  makes_recv-Refines p x (some_left, few, unused) =
      let (u, e, holds) =
        adds_receiver-Refines ops fuel local (with_future x) s (with_future-Models x unused)
          (some_left, few) in
      (u, rw models.split (as_made none p x (rw models.split at e)), holds)

  -- Memory that is not live stays fresh.
  dead-Fresh : (g : Heap) → ((a : Ptr) → w.links.live a ≡ false → g.live a ≡ false) → Fresh g local
  dead-Fresh g dead = record {
    head = (models.fresh.head.0, dead local.head models.fresh.head.1);
    tail = (models.fresh.tail.0, dead local.tail models.fresh.tail.1);
    apart = models.fresh.apart;
  }

  pub cancels_send-Refines :
      (p x : Ptr)
      → length s.asleep_receivers < fuel
      → Allowed ops fuel local w s (cancels_send p x)
      → Refines ops fuel local w s (cancels_send p x)
  unfolding perform drop_send
  cancels_send-Refines p x few (some_left, leaves) =
      let is = models.channel in
      let apart =
        Disjoint-symm (nodes w.self.waiting_receivers (links_of s.asleep_receivers))
          (nodes w.self.waiting_senders (links_of s.asleep_senders)) is.apart in
      let d =
        drop_one w.links w.waiter w.self.waiting_senders w.self.waiting_receivers s.asleep_senders
          s.asleep_receivers is.senders is.receivers apart p x leaves in
      let ss = without x s.asleep_senders in
      let m =
        moved-Models d.0 (update w.waiter p none) s.asleep_receivers ss
          (record {
            receivers = d.3;
            senders = d.2;
            apart =
                Disjoint-symm (nodes w.self.waiting_senders (links_of ss))
                  (nodes w.self.waiting_receivers (links_of s.asleep_receivers)) d.4;
          })
          (dead-Fresh d.0 d.5) in
      let r =
        drops_sender-Refines ops fuel local (moved d.0 (update w.waiter p none))
          (record s { asleep_senders = ss }) m few some_left in
      (r.0, rw d.1 r.1, r.2)

  pub cancels_recv-Refines :
      (p x : Ptr)
      → length s.asleep_senders < fuel
      → Allowed ops fuel local w s (cancels_recv p x)
      → Refines ops fuel local w s (cancels_recv p x)
  unfolding perform drop_recv
  cancels_recv-Refines p x few (some_left, leaves) =
      let is = models.channel in
      let d =
        drop_one w.links w.waiter w.self.waiting_receivers w.self.waiting_senders s.asleep_receivers
          s.asleep_senders is.receivers is.senders is.apart p x leaves in
      let rs = without x s.asleep_receivers in
      let m =
        moved-Models d.0 (update w.waiter p none) rs s.asleep_senders
          (record { receivers = d.2; senders = d.3; apart = d.4 }) (dead-Fresh d.0 d.5) in
      let r =
        drops_receiver-Refines ops fuel local (moved d.0 (update w.waiter p none))
          (record s { asleep_receivers = rs }) m few some_left in
      (r.0, rw d.1 r.1, r.2)
