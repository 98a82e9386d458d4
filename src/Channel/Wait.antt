-- ===== src/Channel/Wait.antt =====
-- The polls of src/channel/mod.rs that have to wait.
use embedded_async.Base.{
  ℕ, ◌≤◌, ◌≡◌, ◌≢◌, refl, [], ◌∷◌, ◌++◌, All-append, Disjoint, Disjoint-symm, ◌∈◌, ◌∉◌, ◌==◌,
  has-append, length, update, arith, false, Option, some, ok,
}
use embedded_async.Intrusive.Links.{Ptr, null, Heap, LinkList, push_link_back}
use embedded_async.Intrusive.Links.Invariant.{nodes, Valid, IsList-frame, mem-left}
use embedded_async.Intrusive.Links.Push.{push_link_back-append}
use embedded_async.Intrusive.Rc.{RcAnchor}
use embedded_async.World.{Waker, pending}
use embedded_async.World.Waits.{Waits, links_of, links_of-append, Waiting, Waits-frame}
use embedded_async.Channel.{WaitingTask, SendFuture, ReceiveFuture, poll_send, poll_recv}
use embedded_async.Channel.Queue.{SpscQueue}
use embedded_async.Channel.Notify.{waker_of, Holds, Memory, IsChannel}
use embedded_async.Channel.TrySend.{try_send-full}
use embedded_async.Channel.TryRecv.{try_recv-nil}

-- A link that may be put in a list: it is live, in neither list, and its waiter owns no link there.
pub record Idle (h : Heap) (l m : LinkList) (ts us : Waits) (p x : Ptr) : Type 0 where
  pub live : Valid h x
  pub out : x ∉ nodes l (links_of ts)
  pub off : x ∉ nodes m (links_of us)
  pub waiter : p ≢ null
  pub own : (y : Ptr) → y ∈ links_of ts → h.owner y ≢ p
  pub foreign : (y : Ptr) → y ∈ links_of us → h.owner y ≢ p

module _ (h : Heap) (waiter : Ptr → Option WaitingTask) (l m : LinkList) (ts us : Waits)
    (is : Holds h waiter l ts) (js : Holds h waiter m us)
    (apart : Disjoint (nodes l (links_of ts)) (nodes m (links_of us))) (p x : Ptr) (k : Waker)
    (idle : Idle h l m ts us p x) where
  abbrev stored : Ptr → Option WaitingTask
  stored = update waiter p (some (record { waker = k }))

  abbrev longer : Waits
  longer = ts ++ (x, k) ∷ []

  push_one :
      (g : Heap) × (push_link_back l p x h ≡ ok tt g)
      × Holds g stored l longer
      × Holds g stored m us
      × Disjoint (nodes l (links_of longer)) (nodes m (links_of us))
      × ((a : Ptr) → g.live a ≡ h.live a)
  push_one =
      let q = push_link_back-append h l (links_of ts) p x is.list idle.live idle.out in
      (
        q.0,
        q.1,
        record {
          list = rw (links_of-append ts) q.2;
          waits =
              All-append (Waiting waker_of q.0.owner stored) ts ((x, k) ∷ [])
                (Waits-frame waker_of h.owner q.0.owner waiter stored ts
                  (λ y i. (
                    ground (arith, q.4.owner y, mem-left l (links_of ts) y i, idle.out),
                    ground (arith, idle.own y i),
                  ))
                  is.waits)
                (
                  (
                    ground (arith, q.3, idle.waiter),
                    record { waker = k },
                    ground (arith, q.3),
                    refl,
                  ),
                  tt,
                );
        },
        record {
          list =
              IsList-frame q.4 m (links_of us) (λ a i. ground (arith, apart a, idle.off)) js.list;
          waits =
              Waits-frame waker_of h.owner q.0.owner waiter stored us
                (λ y i. (
                  ground (arith, q.4.owner y, mem-left m (links_of us) y i, idle.off),
                  ground (arith, idle.foreign y i),
                ))
                js.waits;
        },
        rw (links_of-append ts) (λ a i. ground (
          arith,
          apart a,
          idle.off,
          has-append a (links_of ts ++ x ∷ []) (l.tail ∷ []),
          has-append a (links_of ts) (x ∷ []),
          has-append a (links_of ts) (l.tail ∷ []),
        )),
        q.4.live,
      )

module _ {T : Type 0} (ops : SpscQueue T) (w : Memory ops) (tx rx : RcAnchor Ptr)
    (split : w.self.tx_rx_rc ≡ some (tx, rx)) (fuel : ℕ) (local : LinkList) (rs ss : Waits)
    (is : IsChannel ops w rs ss) (k : Waker) where
  open ops use {items, capacity}

  -- A poll of a receive on an empty queue with a sender left is pending: the future's link is last
  -- among the waiting receivers, with the polling task to be woken, and the queue, the counts and
  -- the waiting senders stay as they are, and no memory is taken or freed. The link must be in
  -- neither list, its waiter its own.
  pub poll_recv-waits :
      (me : ReceiveFuture)
      → items w.self.queue ≡ []
      → tx.ref_count ≢ 0
      → Idle w.links w.self.waiting_receivers w.self.waiting_senders rs ss me.waiter me.link
      → (u : Memory ops) × (poll_recv ops fuel local me k w ≡ ok pending u)
        × (u.self ≡ w.self)
        × (u.woken ≡ w.woken)
        × IsChannel ops u (rs ++ (me.link, k) ∷ []) ss
        × ((a : Ptr) → u.links.live a ≡ w.links.live a)
  unfolding poll_recv
  poll_recv-waits me none_left alive idle =
      let test : (tx.ref_count == 0) ≡ false = ground arith in
      let p =
        push_one w.links w.waiter w.self.waiting_receivers w.self.waiting_senders rs ss is.receivers
          is.senders is.apart me.waiter me.link k idle in
      (
        record w { links = p.0; waiter = update w.waiter me.waiter (some (record { waker = k })) },
        rw (try_recv-nil ops w tx rx split fuel local none_left, test, p.1),
        refl,
        refl,
        record { receivers = p.2; senders = p.3; apart = p.4 },
        p.5,
      )

  -- A poll of a send on a full queue with a receiver left is pending: the future keeps its value,
  -- its link is last among the waiting senders, with the polling task to be woken, and the queue,
  -- the counts and the waiting receivers stay as they are, and no memory is taken or freed. The
  -- link must be in neither list, its waiter its own.
  pub poll_send-waits :
      (me : SendFuture T) (v : T)
      → me.value ≡ some v
      → capacity ≤ length (items w.self.queue)
      → rx.ref_count ≢ 0
      → Idle w.links w.self.waiting_senders w.self.waiting_receivers ss rs me.waiter me.link
      → (u : Memory ops) × (poll_send ops fuel local me k w ≡ ok (me, pending) u)
        × (u.self ≡ w.self)
        × (u.woken ≡ w.woken)
        × IsChannel ops u rs (ss ++ (me.link, k) ∷ [])
        × ((a : Ptr) → u.links.live a ≡ w.links.live a)
  unfolding poll_send
  poll_send-waits me v holds no_room alive idle =
      let p =
        push_one w.links w.waiter w.self.waiting_senders w.self.waiting_receivers ss rs is.senders
          is.receivers
          (Disjoint-symm (nodes w.self.waiting_receivers (links_of rs))
            (nodes w.self.waiting_senders (links_of ss)) is.apart)
          me.waiter me.link k idle in
      (
        record w { links = p.0; waiter = update w.waiter me.waiter (some (record { waker = k })) },
        simp holds (rw (try_send-full ops w tx rx split fuel local v alive no_room, p.1, ← holds)),
        refl,
        refl,
        record {
          receivers = p.3;
          senders = p.2;
          apart =
              Disjoint-symm (nodes w.self.waiting_senders (links_of (ss ++ (me.link, k) ∷ [])))
                (nodes w.self.waiting_receivers (links_of rs)) p.4;
        },
        p.5,
      )
