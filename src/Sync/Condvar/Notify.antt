-- ===== src/Sync/Condvar/Notify.antt =====
-- src/sync/condvar.rs: what the notifications do to a well-formed condition variable.
use embedded_async.Base.{
  ◌≡◌, refl, ◌≢◌, List, [], ◌∷◌, ◌++◌, All, ◌∈◌, Distinct, update, arith, true, false, some, none,
  ok, Option,
}
use embedded_async.Intrusive.Links.{Ptr, null, Heap, pop_front}
use embedded_async.Intrusive.Links.Invariant.{Valid, IsList}
use embedded_async.Intrusive.Links.Unlink.{pop_front-cons}
use embedded_async.World.{World, Waker}
use embedded_async.World.Waits.{Waits, links_of}
use embedded_async.Sync.Condvar.{Waiter, Condvar, notify_owner, try_notify_one}

-- The waiters that own the links of `ts`.
abbrev pub owners_of : (Ptr → Ptr) → Waits → List Ptr
owners_of owner [] = []
owners_of owner ((x, _) ∷ ts) = owner x ∷ owners_of owner ts

abbrev pub asleep : Waker → Waiter
asleep k = record { waker = some k; notified = false }

abbrev pub awake : Waiter
awake = record { waker = none; notified = true }

-- The waiter that owns the link `x` sleeps, with the waker `k`.
abbrev pub Sleeping : (Ptr → Ptr) → (Ptr → Option Waiter) → Ptr × Waker → Type 0
Sleeping owner waiter (x, k) = (owner x ≢ null) × (waiter (owner x) ≡ some (asleep k))

-- The wait list holds the links of `ts` in order, each with a waiter of its own, who sleeps.
pub record IsCondvar (w : World Waiter Condvar) (ts : Waits) : Type 0 where
  pub list : IsList w.links w.self.waiters (links_of ts)
  pub waits : All (Sleeping w.links.owner w.waiter) ts
  pub own : Distinct (owners_of w.links.owner ts)

-- Sleepers sleep on while their links keep their owners, and their waiters are not written.
pub Sleeping-frame :
    (owner owner' : Ptr → Ptr) (waiter waiter' : Ptr → Option Waiter) (ts : Waits)
    → ((x : Ptr) → x ∈ links_of ts → owner' x ≡ owner x)
    → ((p : Ptr) → p ∈ owners_of owner ts → waiter' p ≡ waiter p)
    → All (Sleeping owner waiter) ts
    → All (Sleeping owner' waiter') ts
Sleeping-frame owner owner' waiter waiter' [] keeps same all = tt
Sleeping-frame owner owner' waiter waiter' ((x, k) ∷ ts) keeps same all =
    let o = keeps x (ground arith) in
    let m = same (owner x) (ground arith) in
    (
      (rw o all.0.0, rw (o, m) all.0.1),
      Sleeping-frame owner owner' waiter waiter' ts (λ y i. keeps y (ground arith))
          (λ p i. same p (ground arith)) all.1,
    )

pub owners_of-frame :
    (owner owner' : Ptr → Ptr) (ts : Waits)
    → ((x : Ptr) → x ∈ links_of ts → owner' x ≡ owner x)
    → owners_of owner' ts ≡ owners_of owner ts
owners_of-frame owner owner' [] keeps = refl
owners_of-frame owner owner' ((x, k) ∷ ts) keeps =
    rw (keeps x (ground arith), owners_of-frame owner owner' ts (λ y i. keeps y (ground arith)))

module _ (w : World Waiter Condvar) (x : Ptr) (k : Waker) (ts : Waits)
    (is : IsCondvar w ((x, k) ∷ ts)) where
  -- The memory once the waiter of the first link is notified, with the links `g`.
  abbrev pub notified : Heap → World Waiter Condvar
  notified g = record w {
    links = g;
    waiter = update w.waiter (w.links.owner x) (some awake);
    woken = w.woken ++ k ∷ [];
  }

  -- The first link is taken off the wait list, and its waiter is notified.
  pub first-notified :
      (g : Heap) × (pop_front w.self.waiters w.links ≡ ok (some x) g)
      × (notify_owner x (record w { links = g }) ≡ ok tt (notified g))
      × IsCondvar (notified g) ts
      × ((a : Ptr) → g.owner a ≡ w.links.owner a)
  unfolding notify_owner
  first-notified =
      let p = pop_front-cons w.links w.self.waiters x (links_of ts) is.list in
      let keeps : (a : Ptr) → p.0.owner a ≡ w.links.owner a = λ a. p.5.owner a refl in
      let live : Valid p.0 x = ground (arith, is.list.valid x, p.5.live x) in
      (
        p.0,
        p.1,
        ground (arith, live, is.waits.0, keeps x),
        record {
          list = p.2;
          waits =
              Sleeping-frame w.links.owner p.0.owner w.waiter (notified p.0).waiter ts
                (λ a m. keeps a) (λ q m. ground (arith, is.own.0)) is.waits.1;
          own = rw (owners_of-frame w.links.owner p.0.owner ts (λ a m. keeps a)) is.own.1;
        },
        keeps,
      )

  -- `try_notify_one` on a condition variable with waiters notifies the one that has waited longest
  -- and wakes its task; the others go on to sleep, in order.
  pub try_notify_one-wakes :
      (u : World Waiter Condvar) × (try_notify_one w ≡ ok tt u)
      × IsCondvar u ts
      × (u.self ≡ w.self)
      × (u.woken ≡ w.woken ++ k ∷ [])
      × (u.waiter ≡ update w.waiter (w.links.owner x) (some awake))
  unfolding try_notify_one
  try_notify_one-wakes =
      let p = first-notified in (notified p.0, rw (p.1, p.2), p.3, refl, refl, refl)
