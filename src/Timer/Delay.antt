-- ===== src/Timer/Delay.antt =====
-- src/timer/mod.rs: the polls of a delay.
use mathlib.Core.List.{append-nil, append_assoc}
use embedded_async.Base.{
  ℕ, is_some, ◌||◌, true, false, ◌≡◌, refl, sym, subst, ◌≢◌, List, [], ◌∷◌, ◌++◌, ◌∈◌, ◌∉◌,
  Disjoint, Distinct, Distinct-append, has-append, All-append, update, arith, some, none, ok,
  if◌then◌else◌, Option, ◌==◌,
}
use embedded_async.Intrusive.Links.{Ptr, null, LinkList}
use embedded_async.Intrusive.Links.Invariant.{nodes, Valid, IsList-frame, mem-left}
use embedded_async.Intrusive.Links.Push.{push_link_back-append}
use embedded_async.World.{Waker, pending, ready}
use embedded_async.Timer.{TimerBackend, WaitingTimer, DelayFuture, wake_if_some, poll_delay}
use embedded_async.Timer.Sleepers.{
  Keeps, Sleepers, links_of, owners, Sleeping, HasTime, links_of-append, owners-append, owners-same,
  Sleeping-frame, Sleeping-owners,
}
use embedded_async.Timer.Loop.{Memory}
use embedded_async.Timer.Elapse.{IsTimer}

abbrev pub to_wake : Option Waker → List Waker
to_wake none = []
to_wake (some k) = k ∷ []

pub wake_if_some-to_wake :
    (ops : TimerBackend) (k : Option Waker) (w : Memory ops)
    → wake_if_some ops k w ≡ ok tt (record w { woken = w.woken ++ to_wake k })
wake_if_some-to_wake ops none w = rw append-nil
wake_if_some-to_wake ops (some k) w = refl

-- One owner more, among those of two lists.
Distinct-between :
    (xs ys : List Ptr) (o : Ptr)
    → Distinct (xs ++ ys)
    → o ∉ (xs ++ ys)
    → Distinct (xs ++ (ys ++ o ∷ []))
Distinct-between xs ys o d out =
    subst Distinct (append_assoc xs ys (o ∷ []))
      (Distinct-append (xs ++ ys) (o ∷ []) d (refl, tt) (λ a m. ground (arith, out)))

-- A list that does not hold the link pushed stays apart.
apart-pushed :
    (m : LinkList) (x : Ptr) (zs ys : List Ptr)
    → Disjoint ys (nodes m zs)
    → x ∉ ys
    → Disjoint ys (nodes m (zs ++ x ∷ []))
apart-pushed m x zs ys from out a i =
    let off : a ∉ nodes m zs = from a i in
    let ne : (a == x) ≡ false = ground (arith, i, out) in
    ground (
      arith,
      off,
      ne,
      has-append a (zs ++ x ∷ []) (m.tail ∷ []),
      has-append a zs (x ∷ []),
      has-append a zs (m.tail ∷ []),
    )

module _ (ops : TimerBackend) (w : Memory ops) (me : DelayFuture) (k : Waker) (t : ℕ) where
  -- The first poll of a delay that is not zero, on a well-formed timer, is pending, puts the delay
  -- last in the list of new timers with the polling task to be woken, and wakes the runner, if it
  -- has run; no memory is taken or freed. The delay's link must be a live one that neither list
  -- holds, and its waiter its own.
  pub poll_delay-starts :
      (ts ns : Sleepers)
      → IsTimer ops w ts ns
      → w.waiter me.intrusive_node.data_at ≡ some (record { time_until_timeout = t; waker = none })
      → t ≢ 0
      → Valid w.links me.intrusive_node.link
      → me.intrusive_node.link ∉ nodes w.self.sleeping_timers (links_of ts)
      → me.intrusive_node.link ∉ nodes w.self.new_timers (links_of ns)
      → me.intrusive_node.data_at ≢ null
      → me.intrusive_node.data_at
        ∉ (owners w.links.owner (links_of ts) ++ owners w.links.owner (links_of ns))
      → (u : Memory ops) × (poll_delay ops me k w ≡ ok pending u)
        × IsTimer ops u ts (ns ++ (me.intrusive_node.link, (k, t)) ∷ [])
        × (u.links.owner me.intrusive_node.link ≡ me.intrusive_node.data_at)
        × (u.self ≡ w.self)
        × (u.woken ≡ w.woken ++ to_wake w.self.waker)
        × ((a : Ptr) → u.links.live a ≡ w.links.live a)
        × (u.waiter
            ≡ update w.waiter me.intrusive_node.data_at
                (some (record { time_until_timeout = t; waker = some k })))
        × Keeps w.links.owner u.links.owner ts
        × Keeps w.links.owner u.links.owner ns
  unfolding poll_delay
  poll_delay-starts ts ns is own ne live off_sl off_nl o_ne apart =
      let o = me.intrusive_node.data_at in
      let x = me.intrusive_node.link in
      let sl = w.self.sleeping_timers in
      let nl = w.self.new_timers in
      let v : WaitingTimer = record { time_until_timeout = t; waker = some k } in
      let waiter' = update w.waiter o (some v) in
      let p = push_link_back-append w.links nl (links_of ns) o x is.new_list live off_nl in
      let os = owners w.links.owner (links_of ts) in
      let ps = owners w.links.owner (links_of ns) in
      let keeps : (a : Ptr) → a ∈ links_of ts → p.0.owner a ≡ w.links.owner a =
        λ a m. ground (arith, p.4.owner a, mem-left sl (links_of ts) a m) in
      let keeps_new : (a : Ptr) → a ∈ links_of ns → p.0.owner a ≡ w.links.owner a =
        λ a m. ground (arith, p.4.owner a, mem-left nl (links_of ns) a m) in
      let joined : links_of (ns ++ (x, (k, t)) ∷ []) ≡ links_of ns ++ x ∷ [] =
        links_of-append ns ((x, (k, t)) ∷ []) in
      (
        record w { links = p.0; waiter = waiter'; woken = w.woken ++ to_wake w.self.waker },
        ground (
          arith,
          own,
          ne,
          p.1,
          wake_if_some-to_wake ops w.self.waker (record w { links = p.0; waiter = waiter' }),
        ),
        record {
          list =
              IsList-frame p.4 sl (links_of ts) (λ a m. ground (arith, is.apart a, off_sl)) is.list;
          new_list = rw joined p.2;
          apart =
              subst (λ zs. Disjoint (nodes sl (links_of ts)) (nodes nl zs)) (sym joined)
                (apart-pushed nl x (links_of ns) (nodes sl (links_of ts)) is.apart off_sl);
          waits =
              Sleeping-frame p.0.owner w.waiter waiter' ts
                (λ q m. ground (
                  arith,
                  apart,
                  has-append o os ps,
                  owners-same w.links.owner p.0.owner (links_of ts) keeps,
                ))
                (Sleeping-owners w.links.owner p.0.owner w.waiter ts keeps is.waits);
          new_waits =
              All-append (Sleeping p.0.owner waiter') ns ((x, (k, t)) ∷ [])
                (Sleeping-frame p.0.owner w.waiter waiter' ns
                  (λ q m. ground (
                    arith,
                    apart,
                    has-append o os ps,
                    owners-same w.links.owner p.0.owner (links_of ns) keeps_new,
                  ))
                  (Sleeping-owners w.links.owner p.0.owner w.waiter ns keeps_new is.new_waits))
                ((ground (arith, p.3), ground (arith, p.3)), tt);
          own =
              rw
                (
                  joined,
                  owners-append p.0.owner (links_of ns) (x ∷ []),
                  owners-same w.links.owner p.0.owner (links_of ts) keeps,
                  owners-same w.links.owner p.0.owner (links_of ns) keeps_new,
                  p.3,
                )
                (Distinct-between os ps o is.own apart);
          time = is.time;
          new_time = All-append HasTime ns ((x, (k, t)) ∷ []) is.new_time (ne, tt);
        },
        p.3,
        refl,
        refl,
        p.4.live,
        refl,
        keeps,
        keeps_new,
      )

  -- A poll of a delay whose time is over and whose waker was taken is ready, one of a delay that
  -- holds a waker is pending, and neither changes anything.
  pub poll_delay-again :
      (j : Option Waker)
      → w.waiter me.intrusive_node.data_at ≡ some (record { time_until_timeout = t; waker = j })
      → (is_some j || (t == 0)) ≡ true
      → poll_delay ops me k w ≡ ok (if is_some j then pending else ready tt) w
  unfolding poll_delay
  poll_delay-again none own e = ground (arith, own, e)
  poll_delay-again (some j) own e = ground (arith, own)
