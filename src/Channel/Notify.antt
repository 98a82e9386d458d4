-- ===== src/Channel/Notify.antt =====
-- A well-formed channel, and what `notify_waiting_receivers` and `notify_waiting_senders` do to it.
use embedded_async.Base.{
  ℕ, ◌<◌, ◌≡◌, List, [], ◌∷◌, ◌++◌, All, Disjoint, Disjoint-symm, length, arith, Option, some, ok,
}
use embedded_async.Intrusive.Links.{Ptr, Heap, LinkList}
use embedded_async.Intrusive.Links.Invariant.{nodes, Valid, IsList, mem-tail}
use embedded_async.Intrusive.Links.Lifetime.{Fresh}
use embedded_async.World.{World, Waker, wakes, drain}
use embedded_async.World.Waits.{Waits, links_of, wakers_of, Waiting}
use embedded_async.World.Drain.{drain-wakes}
use embedded_async.World.Survive.{IsList-Drained, Waits-Drained, Fresh-Drained}
use embedded_async.Channel.{
  WaitingTask, Channel, wake_owner, notify_waiting_receivers, notify_waiting_senders,
}
use embedded_async.Channel.Queue.{SpscQueue}

abbrev pub waker_of : WaitingTask → Option Waker
waker_of v = some v.waker

-- A wait list in the memory: its links in order, and behind each a task that waits.
pub record Holds (h : Heap) (waiter : Ptr → Option WaitingTask) (l : LinkList) (ts : Waits)
    : Type 0 where
  pub list : IsList h l (links_of ts)
  pub waits : All (Waiting waker_of h.owner waiter) ts

module _ {T : Type 0} (ops : SpscQueue T) where
  abbrev pub Memory : Type 0
  Memory = World WaitingTask (Channel ops)

  -- The two lists of the channel hold the receivers `rs` and the senders `ss`, and share no address.
  pub record IsChannel (w : Memory) (rs ss : Waits) : Type 0 where
    pub receivers : Holds w.links w.waiter w.self.waiting_receivers rs
    pub senders : Holds w.links w.waiter w.self.waiting_senders ss
    pub apart :
        Disjoint
          (nodes w.self.waiting_receivers (links_of rs))
          (nodes w.self.waiting_senders (links_of ss))

  wake_owner-wakes :
      (w : Memory) (x : Ptr) (k : Waker)
      → Valid w.links x
      → Waiting waker_of w.links.owner w.waiter (x, k)
      → wake_owner ops x w ≡ ok tt (wakes w (k ∷ []))
  unfolding wake_owner
  wake_owner-wakes w x k v waiting = ground (arith, v, waiting)

  -- One of two lists that share no address is drained, and the other one stays as it is.
  module _ (w : Memory) (l m : LinkList) (ts us : Waits) (is : Holds w.links w.waiter l ts)
      (js : Holds w.links w.waiter m us)
      (apart : Disjoint (nodes l (links_of ts)) (nodes m (links_of us))) (fuel : ℕ)
      (local : LinkList) (fresh : Fresh w.links local) where
    drain_one :
        length ts < fuel
        → (g : Heap) × (drain fuel local l (wake_owner ops) w
            ≡ ok tt (record w { links = g; woken = w.woken ++ wakers_of ts }))
          × Holds g w.waiter l []
          × Holds g w.waiter m us
          × Fresh g local
    drain_one few =
        let p =
          drain-wakes waker_of (wake_owner ops) wake_owner-wakes fuel w local l ts fresh is.list
            is.waits few in
        let off = Disjoint-symm (nodes l (links_of ts)) (nodes m (links_of us)) apart in
        (
          p.0,
          p.1,
          record { list = p.2.empty; waits = tt },
          record {
            list = IsList-Drained w.links p.0 local l m (links_of ts) us p.2 fresh js.list off;
            waits =
                Waits-Drained w.links p.0 local l m (links_of ts) us p.2 fresh js.list off waker_of
                  w.waiter js.waits;
          },
          Fresh-Drained w.links p.0 local l (links_of ts) p.2 fresh,
        )

  module _ (w : Memory) (rs ss : Waits) (is : IsChannel w rs ss) (fuel : ℕ) (local : LinkList)
      (fresh : Fresh w.links local) where
    -- The memory after the tasks `ks` were woken.
    abbrev pub told : Heap → List Waker → Memory
    told g ks = record w { links = g; woken = w.woken ++ ks }

    -- Every waiting receiver is woken once, in the order in which they came, and none waits any
    -- more; the waiting senders stay.
    pub notify_waiting_receivers-wakes :
        length rs < fuel
        → (g : Heap) × (notify_waiting_receivers ops fuel local w ≡ ok tt (told g (wakers_of rs)))
          × IsChannel (told g (wakers_of rs)) [] ss
          × Fresh g local
    unfolding notify_waiting_receivers
    notify_waiting_receivers-wakes few =
        let p =
          drain_one w w.self.waiting_receivers w.self.waiting_senders rs ss is.receivers is.senders
            is.apart fuel local fresh few in
        (
          p.0,
          p.1,
          record {
            receivers = p.2;
            senders = p.3;
            apart =
                λ a i. ground (arith, is.apart a, mem-tail w.self.waiting_receivers (links_of rs));
          },
          p.4,
        )

    -- The same for the waiting senders; the waiting receivers stay.
    pub notify_waiting_senders-wakes :
        length ss < fuel
        → (g : Heap) × (notify_waiting_senders ops fuel local w ≡ ok tt (told g (wakers_of ss)))
          × IsChannel (told g (wakers_of ss)) rs []
          × Fresh g local
    unfolding notify_waiting_senders
    notify_waiting_senders-wakes few =
        let p =
          drain_one w w.self.waiting_senders w.self.waiting_receivers ss rs is.senders is.receivers
            (Disjoint-symm (nodes w.self.waiting_receivers (links_of rs))
              (nodes w.self.waiting_senders (links_of ss)) is.apart)
            fuel local fresh few in
        (
          p.0,
          p.1,
          record {
            receivers = p.3;
            senders = p.2;
            apart =
                λ a i. ground (arith, is.apart a i, mem-tail w.self.waiting_senders (links_of ss));
          },
          p.4,
        )
