-- ===== src/World/Survive.antt =====
-- A wait list that shares no address with a drained one survives the call.
use embedded_async.Base.{refl, List, [], ◌∷◌, All, Disjoint, arith, Option}
use embedded_async.Intrusive.Links.{Ptr, Heap, LinkList}
use embedded_async.Intrusive.Links.Invariant.{nodes, IsList, IsList-outside, mem-left}
use embedded_async.Intrusive.Links.Lifetime.{Fresh}
use embedded_async.World.{Waker}
use embedded_async.World.Waits.{Waits, links_of, Waiting, Waits-frame, Fresh-apart}
use embedded_async.World.Drain.{Drained}

module _ (h g : Heap) (local l m : LinkList) (xs : List Ptr) (ts : Waits)
    (drained : Drained h local l xs g) (fresh : Fresh h local) (is : IsList h m (links_of ts))
    (apart : Disjoint (nodes m (links_of ts)) (nodes l xs)) where
  not_local : Disjoint (nodes m (links_of ts)) (local.head ∷ local.tail ∷ [])
  not_local = Fresh-apart h local m (links_of ts) fresh is

  pub IsList-Drained : IsList g m (links_of ts)
  IsList-Drained =
      IsList-outside drained.outside m (links_of ts) (λ a i. ground (arith, apart a, not_local a))
        is

  pub Waits-Drained :
      {W : Type 0} (waker_of : W → Option Waker) (waiter : Ptr → Option W)
      → All (Waiting waker_of h.owner waiter) ts
      → All (Waiting waker_of g.owner waiter) ts
  Waits-Drained waker_of waiter all =
      Waits-frame waker_of h.owner g.owner waiter waiter ts
        (λ x i. (drained.owner x (not_local x (mem-left m (links_of ts) x i)), refl)) all

-- The call's own memory is fresh again.
pub Fresh-Drained :
    (h g : Heap) (local l : LinkList) (xs : List Ptr)
    → Drained h local l xs g
    → Fresh h local
    → Fresh g local
Fresh-Drained h g local l xs drained fresh = record {
  head = (fresh.head.0, drained.freed.0);
  tail = (fresh.tail.0, drained.freed.1);
  apart = fresh.apart;
}
