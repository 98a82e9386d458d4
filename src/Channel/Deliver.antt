-- ===== src/Channel/Deliver.antt =====
-- A history over src/channel/mod.rs: what is sent is received, once and in order.
use embedded_async.Base.{
  ℕ, zero, suc, ◌+◌, ◌<◌, ◌≤◌, ◌≡◌, ◌≢◌, refl, sym, ap, ◌∙◌, List, [], ◌∷◌, ◌++◌, length,
  length-append, arith, some, ok, pure, ◌>>=◌, ◌>>◌,
}
use mathlib.Core.List.{append_assoc, append-nil}
use embedded_async.Intrusive.Links.{Ptr, LinkList}
use embedded_async.Intrusive.Links.Lifetime.{Fresh}
use embedded_async.Intrusive.Rc.{RcAnchor}
use embedded_async.World.Waits.{Waits}
use embedded_async.Channel.{ChannelCmd, success, failure, try_send, try_recv}
use embedded_async.Channel.Queue.{SpscQueue}
use embedded_async.Channel.Notify.{Memory, IsChannel}
use embedded_async.Channel.TrySend.{try_send-room}
use embedded_async.Channel.TryRecv.{try_recv-cons}

module _ {T : Type 0} (ops : SpscQueue T) (fuel : ℕ) (local : LinkList) where
  open ops use {items, capacity}

  -- Sends each value in turn.
  abbrev pub send_all : List T → ChannelCmd ops (Unit {0})
  send_all [] = pure tt
  send_all (v ∷ vs) = do r ← try_send ops fuel local v; send_all vs

  -- Receives up to `n` values, and stops at the first failure.
  abbrev pub recv_all : ℕ → ChannelCmd ops (List T)
  recv_all zero = pure []
  recv_all (suc n) = do
    r ← try_recv ops fuel local
    elim r [ success v ↦ recv_all n >>= (λ vs. pure (v ∷ vs)) | failure _ ↦ pure [] ]

  -- A channel that is split and has senders and receivers left, with fewer tasks waiting than fuel.
  pub record IsOpen (w : Memory ops) (tx rx : RcAnchor Ptr) (rs ss : Waits) : Type 0 where
    pub split : w.self.tx_rx_rc ≡ some (tx, rx)
    pub senders_left : tx.ref_count ≢ 0
    pub receivers_left : rx.ref_count ≢ 0
    pub channel : IsChannel ops w rs ss
    pub few_receivers : length rs < fuel
    pub few_senders : length ss < fuel
    pub fresh : Fresh w.links local

  send_all-append :
      (vs : List T) (w : Memory ops) (tx rx : RcAnchor Ptr) (rs ss : Waits)
      → IsOpen w tx rx rs ss
      → length (items w.self.queue) + length vs ≤ capacity
      → (u : Memory ops) × (send_all vs w ≡ ok tt u)
        × (items u.self.queue ≡ items w.self.queue ++ vs)
        × (qs : Waits) × IsOpen u tx rx qs ss
  send_all-append [] w tx rx rs ss o room = (w, refl, sym (append-nil (items w.self.queue)), rs, o)
  send_all-append (v ∷ vs) w tx rx rs ss o room =
      let p =
        try_send-room ops w tx rx o.split fuel local v rs ss o.channel o.fresh o.receivers_left
          (omega arith) o.few_receivers in
      let u = p.0 in
      let o' : IsOpen u tx rx [] ss = record {
        split = ap (λ c. c.tx_rx_rc) p.3 ∙ o.split;
        senders_left = o.senders_left;
        receivers_left = o.receivers_left;
        channel = p.6;
        few_receivers = omega (arith, o.few_receivers);
        few_senders = o.few_senders;
        fresh = p.7;
      } in
      let rest =
        send_all-append vs u tx rx [] ss o'
          (omega (arith, ap length p.2, length-append {0} (items w.self.queue) (v ∷ []))) in
      (
        rest.0,
        rw (p.1, rest.1),
        rest.2 ∙ ap (λ xs. xs ++ vs) p.2 ∙ append_assoc (items w.self.queue) (v ∷ []) vs,
        rest.3,
        rest.4,
      )

  recv_all-takes :
      (vs : List T) (w : Memory ops) (tx rx : RcAnchor Ptr) (rs ss : Waits)
      → IsOpen w tx rx rs ss
      → items w.self.queue ≡ vs
      → (u : Memory ops) × (recv_all (length vs) w ≡ ok vs u) × (items u.self.queue ≡ [])
  recv_all-takes [] w tx rx rs ss o e = (w, refl, e)
  recv_all-takes (v ∷ vs) w tx rx rs ss o e =
      let p =
        try_recv-cons ops w tx rx o.split fuel local rs ss o.channel o.fresh v vs e o.few_senders in
      let u = p.0 in
      let o' : IsOpen u tx rx rs [] = record {
        split = ap (λ c. c.tx_rx_rc) p.3 ∙ o.split;
        senders_left = o.senders_left;
        receivers_left = o.receivers_left;
        channel = p.6;
        few_receivers = o.few_receivers;
        few_senders = omega (arith, o.few_senders);
        fresh = p.7;
      } in
      let rest = recv_all-takes vs u tx rx rs [] o' p.2 in (rest.0, rw (p.1, rest.1), rest.2)

  -- Values sent while there is room for all of them are received behind those already in the queue,
  -- each once and in the order in which they were sent, and the queue is empty then. Tasks may be
  -- waiting on both sides.
  pub recv_all-send_all :
      (vs : List T) (w : Memory ops) (tx rx : RcAnchor Ptr) (rs ss : Waits)
      → IsOpen w tx rx rs ss
      → length (items w.self.queue) + length vs ≤ capacity
      → (u : Memory ops) × ((send_all vs >> recv_all (length (items w.self.queue ++ vs))) w
          ≡ ok (items w.self.queue ++ vs) u)
        × (items u.self.queue ≡ [])
  recv_all-send_all vs w tx rx rs ss o room =
      let p = send_all-append vs w tx rx rs ss o room in
      let q = recv_all-takes (items w.self.queue ++ vs) p.0 tx rx p.3 ss p.4 p.2 in
      (q.0, rw (p.1, q.1), q.2)
