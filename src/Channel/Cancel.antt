-- ===== src/Channel/Cancel.antt =====
-- src/channel/mod.rs: what a new future and the drop of a future do to the wait lists.
use embedded_async.Base.{
  ◌≡◌, ◌≢◌, refl, [], ◌∷◌, ◌∈◌, ◌∉◌, Disjoint, update, arith, false, Option, none, ok,
}
use embedded_async.Intrusive.Links.{Ptr, null, Heap, LinkList, drop_link}
use embedded_async.Intrusive.Links.Invariant.{nodes, Valid, Outside, IsList-outside, mem-left}
use embedded_async.Intrusive.Links.Lifetime.{with_link, with_link-Outside}
use embedded_async.World.Waits.{Waits, links_of, Waits-frame, Waiting}
use embedded_async.World.Without.{
  without, without-out, mem-without, mem-nodes-without, All-without, drop_link-without,
}
use embedded_async.Channel.{WaitingTask}
use embedded_async.Channel.Notify.{waker_of, Holds}

-- A link that may go: it is live and not in the list `m`, and where the list `l` does not hold it,
-- it is in no list at all; its waiter owns no other link.
pub record Leaves (h : Heap) (l m : LinkList) (ts us : Waits) (p x : Ptr) : Type 0 where
  pub live : Valid h x
  pub alone : x ∉ links_of ts → (x ∉ nodes l (links_of ts)) × (h.next x ≡ null) × (h.prev x ≡ null)
  pub off : x ∉ nodes m (links_of us)
  pub own : (y : Ptr) → y ∈ links_of ts → y ≢ x → h.owner y ≢ p
  pub foreign : (y : Ptr) → y ∈ links_of us → h.owner y ≢ p

module _ (h : Heap) (waiter : Ptr → Option WaitingTask) (l m : LinkList) (ts us : Waits)
    (is : Holds h waiter l ts) (js : Holds h waiter m us)
    (apart : Disjoint (nodes l (links_of ts)) (nodes m (links_of us))) where
  -- The drop of a future takes its link out of the list, if the list holds it, and its waiter out of
  -- memory; the other waiters wait on, on both sides.
  pub drop_one :
      (p x : Ptr)
      → Leaves h l m ts us p x
      → (g : Heap) × (drop_link x h ≡ ok tt g)
        × Holds g (update waiter p none) l (without x ts)
        × Holds g (update waiter p none) m us
        × Disjoint (nodes l (links_of (without x ts))) (nodes m (links_of us))
        × ((a : Ptr) → h.live a ≡ false → g.live a ≡ false)
  drop_one p x leaves =
      let (g, d) = drop_link-without h l ts x is.list leaves.live leaves.alone in
      (
        g,
        d.run,
        record {
          list = d.list;
          waits =
              Waits-frame waker_of h.owner g.owner waiter (update waiter p none) (without x ts)
                (λ y i. (
                  d.owner y,
                  ground (arith, leaves.own y (mem-without x y ts i), i, without-out x ts),
                ))
                (All-without (Waiting waker_of h.owner waiter) x ts is.waits);
        },
        record {
          list =
              IsList-outside d.outside m (links_of us)
                (λ a i. ground (arith, apart a, leaves.off, i)) js.list;
          waits =
              Waits-frame waker_of h.owner g.owner waiter (update waiter p none) us
                (λ y i. (d.owner y, ground (arith, leaves.foreign y i))) js.waits;
        },
        λ a i. apart a (mem-nodes-without l x a ts i),
        λ a dead. ground (arith, dead, d.live a, leaves.live),
      )

  -- A new link is live, and both lists stay as they are.
  pub new_one :
      (x : Ptr)
      → h.live x ≡ false
      → Holds (with_link x h) waiter l ts × Holds (with_link x h) waiter m us
  new_one x dead =
      let g = with_link x h in
      let out : Outside (x ∷ []) h g = with_link-Outside h x in
      (
        record {
          list =
              IsList-outside out l (links_of ts) (λ a i. ground (arith, is.list.valid a, dead))
                is.list;
          waits =
              Waits-frame waker_of h.owner g.owner waiter waiter ts
                (λ y i. (ground (arith, is.list.valid y, mem-left l (links_of ts) y i, dead), refl))
                is.waits;
        },
        record {
          list =
              IsList-outside out m (links_of us) (λ a i. ground (arith, js.list.valid a, dead))
                js.list;
          waits =
              Waits-frame waker_of h.owner g.owner waiter waiter us
                (λ y i. (ground (arith, js.list.valid y, mem-left m (links_of us) y i, dead), refl))
                js.waits;
        },
      )
