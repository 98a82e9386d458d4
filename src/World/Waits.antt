-- ===== src/World/Waits.antt =====
-- The links of a wait list, and the waiters that own them.
use embedded_async.Base.{
  ◌≡◌, refl, ap, ◌≢◌, List, [], ◌∷◌, ◌++◌, arith, ◌∈◌, Disjoint, All, some, Option,
}
use embedded_async.Intrusive.Links.{Ptr, null, Heap, LinkList}
use embedded_async.Intrusive.Links.Invariant.{nodes, IsList}
use embedded_async.Intrusive.Links.Lifetime.{Fresh}
use embedded_async.World.{Waker}

-- The links of a wait list, each with the task that waits behind it.
abbrev pub Waits : Type 0
Waits = List (Ptr × Waker)

abbrev pub links_of : {A : Type 0} → List (Ptr × A) → List Ptr
links_of [] = []
links_of ((x, _) ∷ ts) = x ∷ links_of ts

abbrev pub wakers_of : Waits → List Waker
wakers_of [] = []
wakers_of ((_, k) ∷ ts) = k ∷ wakers_of ts

pub links_of-append :
    {A : Type 0} (ts us : List (Ptr × A)) → links_of (ts ++ us) ≡ links_of ts ++ links_of us
links_of-append [] us = refl
links_of-append ((x, k) ∷ ts) us = ap (◌∷◌ x) (links_of-append ts us)

-- No address of a list is fresh.
pub Fresh-apart :
    (h : Heap) (local l : LinkList) (xs : List Ptr)
    → Fresh h local
    → IsList h l xs
    → Disjoint (nodes l xs) (local.head ∷ local.tail ∷ [])
Fresh-apart h local l xs f is a m = ground (arith, is.valid a, f.head, f.tail)

module _ {W : Type 0} (waker_of : W → Option Waker) where
  -- The link `x` is owned by a waiter that holds the waker `k`.
  abbrev pub Waiting : (Ptr → Ptr) → (Ptr → Option W) → Ptr × Waker → Type 0
  Waiting owner waiter (x, k) =
      (owner x ≢ null) × (v : W) × (waiter (owner x) ≡ some v) × (waker_of v ≡ some k)

  -- Waiters keep waiting while their links keep their owners, and the owners their wakers.
  pub Waits-frame :
      (owner owner' : Ptr → Ptr) (waiter waiter' : Ptr → Option W) (ts : Waits)
      → ((x : Ptr)
          → x ∈ links_of ts
          → (owner' x ≡ owner x) × (waiter' (owner x) ≡ waiter (owner x)))
      → All (Waiting owner waiter) ts
      → All (Waiting owner' waiter') ts
  Waits-frame owner owner' waiter waiter' [] same all = tt
  Waits-frame owner owner' waiter waiter' ((x, k) ∷ ts) same all =
      let (o, m) = same x (ground arith) in
      (
        (rw o all.0.0, all.0.1, rw (o, m) all.0.2, all.0.3),
        Waits-frame owner owner' waiter waiter' ts (λ y i. same y (ground arith)) all.1,
      )
