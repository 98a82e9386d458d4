-- ===== src/Sync/Condvar/Await/Joint.antt =====
-- src/sync/condvar.rs: a mutex and a condition variable in one memory, both well formed.
use embedded_async.Base.{
  ◌≡◌, ◌≢◌, sym, subst, List, [], ◌∷◌, ◌++◌, All, ◌∈◌, ◌∉◌, Disjoint, Distinct, Option, some, none,
  arith, refl, has-append,
}
use embedded_async.Intrusive.Links.{Ptr, LinkList}
use embedded_async.Intrusive.Links.Invariant.{nodes, IsList, IsList-outside, Outside, mem-left}
use embedded_async.World.{World, Waker}
use embedded_async.World.Waits.{Waits, Waiting, links_of, links_of-append}
use embedded_async.Sync.Mutex.{MutexWaiter}
use embedded_async.Sync.Mutex.Laws.{IsMutex, waker_of}
use embedded_async.Sync.Condvar.{Waiter, Condvar}
use embedded_async.Sync.Condvar.Notify.{
  IsCondvar, owners_of, Sleeping, Sleeping-frame, owners_of-frame, asleep,
}
use embedded_async.Sync.Condvar.Await.{Shared, mutex_part, condvar_part}

-- The tasks `ts` wait for the lock and `us` for a notification; the two lists share no address.
pub record IsShared {T : Type 0} (w : Shared T) (ts us : Waits) : Type 0 where
  pub mutex : IsMutex (mutex_part w) ts
  pub condvar : IsCondvar (condvar_part w) us
  pub apart :
      Disjoint (nodes w.mutex.waiting_wakers (links_of ts)) (nodes w.condvar.waiters (links_of us))

-- A condition variable stays well formed while its list, its owners and its waiters stay.
pub IsCondvar-frame :
    (w u : World Waiter Condvar) (us : Waits)
    → IsCondvar w us
    → IsList u.links u.self.waiters (links_of us)
    → ((x : Ptr) → x ∈ links_of us → u.links.owner x ≡ w.links.owner x)
    → ((p : Ptr) → p ∈ owners_of w.links.owner us → u.waiter p ≡ w.waiter p)
    → IsCondvar u us
IsCondvar-frame w u us is list owner waiter = record {
  list = list;
  waits = Sleeping-frame w.links.owner u.links.owner w.waiter u.waiter us owner waiter is.waits;
  own = subst Distinct (sym (owners_of-frame w.links.owner u.links.owner us owner)) is.own;
}

-- Where no waiter is stored, none of those that sleep is.
pub not_owner :
    (owner : Ptr → Ptr) (waiter : Ptr → Option Waiter) (us : Waits) (p : Ptr)
    → All (Sleeping owner waiter) us
    → waiter p ≡ none
    → p ∉ owners_of owner us
not_owner owner waiter [] p all unused = refl
not_owner owner waiter ((x, k) ∷ us) p all unused =
    ground (arith, all.0, unused, not_owner owner waiter us p all.1 unused)

-- A list shares no address with a longer one if it has not the address that is new there.
pub longer-apart :
    (ys : List Ptr) (m : LinkList) (us : Waits) (x : Ptr) (k : Waker)
    → Disjoint ys (x ∷ nodes m (links_of us))
    → Disjoint ys (nodes m (links_of (us ++ (x, k) ∷ [])))
longer-apart ys m us x k apart =
    subst (λ zs. Disjoint ys (nodes m zs)) (sym (links_of-append us ((x, k) ∷ [])))
      (λ a i. ground (
        arith,
        apart a i,
        has-append a (links_of us ++ x ∷ []) (m.tail ∷ []),
        has-append a (links_of us) (x ∷ []),
        has-append a (links_of us) (m.tail ∷ []),
      ))

-- Those that wait for the lock wait on while their links keep their owners and no waiter changes.
Waits-keep :
    (owner owner' : Ptr → Ptr) (waiter waiter' : Ptr → Option MutexWaiter) (ts : Waits)
    → ((x : Ptr) → x ∈ links_of ts → owner' x ≡ owner x)
    → ((p : Ptr) (v : MutexWaiter) → waiter p ≡ some v → waiter' p ≡ some v)
    → All (Waiting waker_of owner waiter) ts
    → All (Waiting waker_of owner' waiter') ts
Waits-keep owner owner' waiter waiter' [] keeps same all = tt
Waits-keep owner owner' waiter waiter' ((x, k) ∷ ts) keeps same ((ne, v, stored, wakes), all) =
    let o = keeps x (ground arith) in
    (
      (rw o ne, v, rw o (same (owner x) v stored), wakes),
      Waits-keep owner owner' waiter waiter' ts (λ y i. keeps y (ground arith)) same all,
    )

Sleeping-keep :
    (owner owner' : Ptr → Ptr) (waiter waiter' : Ptr → Option Waiter) (us : Waits)
    → ((x : Ptr) → x ∈ links_of us → owner' x ≡ owner x)
    → ((p : Ptr) (k : Waker) → waiter p ≡ some (asleep k) → waiter' p ≡ some (asleep k))
    → All (Sleeping owner waiter) us
    → All (Sleeping owner' waiter') us
Sleeping-keep owner owner' waiter waiter' [] keeps same all = tt
Sleeping-keep owner owner' waiter waiter' ((x, k) ∷ us) keeps same ((ne, stored), all) =
    let o = keeps x (ground arith) in
    (
      (rw o ne, rw o (same (owner x) k stored)),
      Sleeping-keep owner owner' waiter waiter' us (λ y i. keeps y (ground arith)) same all,
    )

-- Both stay well formed while only links outside their lists are written, and no waiter changes.
pub IsShared-outside :
    {T : Type 0} (w u : Shared T) (ts us : Waits) (ys : List Ptr)
    → IsShared w ts us
    → Outside ys w.links u.links
    → Disjoint (nodes w.mutex.waiting_wakers (links_of ts)) ys
    → Disjoint (nodes w.condvar.waiters (links_of us)) ys
    → u.mutex.waiting_wakers ≡ w.mutex.waiting_wakers
    → u.condvar.waiters ≡ w.condvar.waiters
    → ((p : Ptr) (v : MutexWaiter) → w.locking p ≡ some v → u.locking p ≡ some v)
    → ((p : Ptr) (k : Waker) → w.sleeping p ≡ some (asleep k) → u.sleeping p ≡ some (asleep k))
    → IsShared u ts us
IsShared-outside w u ts us ys is out off_l off_m same_l same_m locking sleeping =
    let l = w.mutex.waiting_wakers in
    let m = w.condvar.waiters in
    let owner : (x : Ptr) → x ∈ links_of us → u.links.owner x ≡ w.links.owner x =
      λ x i. out.owner x (off_m x (mem-left m (links_of us) x i)) in
    record {
      mutex = record {
        list =
            subst (λ z. IsList u.links z (links_of ts)) (sym same_l)
              (IsList-outside out l (links_of ts) off_l is.mutex.list);
        waits =
            Waits-keep w.links.owner u.links.owner w.locking u.locking ts
              (λ x i. out.owner x (off_l x (mem-left l (links_of ts) x i))) locking is.mutex.waits;
      };
      condvar = record {
        list =
            subst (λ z. IsList u.links z (links_of us)) (sym same_m)
              (IsList-outside out m (links_of us) off_m is.condvar.list);
        waits =
            Sleeping-keep w.links.owner u.links.owner w.sleeping u.sleeping us owner sleeping
              is.condvar.waits;
        own =
            subst Distinct (sym (owners_of-frame w.links.owner u.links.owner us owner))
              is.condvar.own;
      };
      apart =
          subst (λ z. Disjoint (nodes z (links_of ts)) (nodes u.condvar.waiters (links_of us)))
            (sym same_l)
            (subst (λ z. Disjoint (nodes l (links_of ts)) (nodes z (links_of us))) (sym same_m)
              is.apart);
    }

-- Where no waiter is stored, none of those that wait for the lock is.
pub not_waiting :
    (owner : Ptr → Ptr) (waiter : Ptr → Option MutexWaiter) (ts : Waits) (p : Ptr)
    → All (Waiting waker_of owner waiter) ts
    → waiter p ≡ none
    → (x : Ptr) → x ∈ links_of ts
    → owner x ≢ p
not_waiting owner waiter [] p all unused x i = absurd (ground (arith, i))
not_waiting owner waiter ((y, k) ∷ ts) p ((ne, v, stored, wakes), all) unused x i =
    λ e. ground (arith, i, e, stored, unused, not_waiting owner waiter ts p all unused x)
