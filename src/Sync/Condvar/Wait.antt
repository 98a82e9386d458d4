-- ===== src/Sync/Condvar/Wait.antt =====
-- src/sync/condvar.rs: the polls of a waiting future, and what the drop of a notifier leaves.
use embedded_async.Base.{
  ◌≡◌, ◌==◌, refl, ◌≢◌, [], ◌∷◌, ◌++◌, All-append, ◌∈◌, ◌∉◌, Distinct-append, update, arith, true,
  false, some, ok, success, failure, Option, ◌||◌, if◌then◌else◌, Bool-cases, inl, inr,
}
use embedded_async.Intrusive.Links.{Ptr, null}
use embedded_async.Intrusive.Links.Invariant.{nodes, Valid, Within, mem-left}
use embedded_async.Intrusive.Links.Push.{push_link_back-append}
use embedded_async.Intrusive.Rc.{decrement_refcount}
use embedded_async.World.{World, Waker, pending, ready}
use embedded_async.World.Waits.{Waits, links_of, links_of-append}
use embedded_async.Sync.Condvar.{
  Waiter, Condvar, WaitFuture, CondvarNotifier, drop_notifier, wait_error, poll_wait,
  try_notify_one,
}
use embedded_async.Sync.Condvar.Notify.{
  owners_of, asleep, awake, Sleeping, Sleeping-frame, owners_of-frame, IsCondvar,
  try_notify_one-wakes,
}

owners_of-append :
    (owner : Ptr → Ptr) (ts us : Waits)
    → owners_of owner (ts ++ us) ≡ owners_of owner ts ++ owners_of owner us
owners_of-append owner [] us = refl
owners_of-append owner ((x, k) ∷ ts) us = rw (owners_of-append owner ts us)

module _ (w : World Waiter Condvar) (ts : Waits) (is : IsCondvar w ts) (me : WaitFuture)
    (k : Waker) where
  -- A poll of a future that has not been notified, while there is a notifier, is pending and puts
  -- the future last in the wait list, with the polling task to be woken; no pointer outside the
  -- list and no other owner changes. The future's link must be in no list, and its waiter its own.
  pub poll_wait-waits :
      {j : Option Waker}
      → w.waiter me.node.data_at ≡ some (record { waker = j; notified = false })
      → w.self.rc_notifier.ref_count ≢ 0
      → Valid w.links me.node.link
      → me.node.link ∉ nodes w.self.waiters (links_of ts)
      → me.node.data_at ≢ null
      → me.node.data_at ∉ owners_of w.links.owner ts
      → (u : World Waiter Condvar) × (poll_wait me k w ≡ ok pending u)
        × (u.self ≡ w.self)
        × (u.woken ≡ w.woken)
        × IsCondvar u (ts ++ (me.node.link, k) ∷ [])
        × (u.links.owner me.node.link ≡ me.node.data_at)
        × (u.waiter ≡ update w.waiter me.node.data_at (some (asleep k)))
        × Within
            (me.node.link ∷ nodes w.self.waiters (links_of ts))
            (me.node.link ∷ [])
            w.links
            u.links
  unfolding poll_wait
  poll_wait-waits {j} own some_notifier live out ne apart =
      let x = me.node.link in
      let o = me.node.data_at in
      let p = push_link_back-append w.links w.self.waiters (links_of ts) o x is.list live out in
      let waiter' = update w.waiter o (some (asleep k)) in
      let keeps : (a : Ptr) → a ∈ links_of ts → p.0.owner a ≡ w.links.owner a =
        λ a m. ground (arith, p.4.owner a, mem-left w.self.waiters (links_of ts) a m) in
      (
        record w { links = p.0; waiter = waiter' },
        ground (arith, own, p.1, some_notifier),
        refl,
        refl,
        record {
          list = rw (links_of-append ts) p.2;
          waits =
              All-append (Sleeping p.0.owner waiter') ts ((x, k) ∷ [])
                (Sleeping-frame w.links.owner p.0.owner w.waiter waiter' ts keeps
                  (λ q m. ground arith) is.waits)
                ((ground (arith, p.3), ground (arith, p.3)), tt);
          own =
              rw (owners_of-append p.0.owner ts, owners_of-frame w.links.owner p.0.owner ts keeps)
                (Distinct-append (owners_of w.links.owner ts) (p.0.owner x ∷ []) is.own (refl, tt)
                  (λ q m. ground (arith, p.3)));
        },
        p.3,
        refl,
        p.4,
      )

-- A poll of a future that has been notified, or that waits without a notifier, is ready at once and
-- changes nothing; a notification counts even if there is no notifier any more.
pub poll_wait-answers :
    (w : World Waiter Condvar) (me : WaitFuture) (k : Waker) (v : Waiter)
    → w.waiter me.node.data_at ≡ some v
    → (v.notified || (w.self.rc_notifier.ref_count == 0)) ≡ true
    → poll_wait me k w ≡ ok (ready (if v.notified then success tt else failure wait_error)) w
unfolding poll_wait
poll_wait-answers w me k v own some_answer = elim (Bool-cases v.notified) [
  | inl is_notified ↦ ground (arith, own, some_answer)
  | inr is_not ↦ ground (arith, own, some_answer)
]

-- The future that has waited longest is ready at its first poll after `try_notify_one`.
pub try_notify_one-ready :
    (w : World Waiter Condvar) (x : Ptr) (k j : Waker) (ts : Waits) (me : WaitFuture)
    → IsCondvar w ((x, k) ∷ ts)
    → me.node.data_at ≡ w.links.owner x
    → (u : World Waiter Condvar) × (try_notify_one w ≡ ok tt u)
      × (poll_wait me j u ≡ ok (ready (success tt)) u)
try_notify_one-ready w x k j ts me is own =
    let p = try_notify_one-wakes w x k ts is in
    let found : p.0.waiter me.node.data_at ≡ some awake = rw (p.5, own) (ground arith) in
    (p.0, p.1, poll_wait-answers p.0 me j awake found refl)

-- The drop of the last notifier wakes nobody, and every waiter sleeps on in the wait list; only a
-- poll that comes for another reason tells it that no notifier is left.
pub drop_notifier-forgets :
    (w : World Waiter Condvar) (ts : Waits) (n : CondvarNotifier) (me : WaitFuture) (j k : Waker)
    → IsCondvar w ts
    → w.self.rc_notifier.ref_count ≡ 1
    → w.waiter me.node.data_at ≡ some (asleep j)
    → (u : World Waiter Condvar) × (drop_notifier n w ≡ ok tt u)
      × IsCondvar u ts
      × (u.woken ≡ w.woken)
      × (poll_wait me k u ≡ ok (ready (failure wait_error)) u)
unfolding drop_notifier
drop_notifier-forgets w ts n me j k is last own =
    let u : World Waiter Condvar = record w {
      self = record w.self { rc_notifier = decrement_refcount w.self.rc_notifier };
    } in
    (
      u,
      refl,
      record { list = is.list; waits = is.waits; own = is.own },
      refl,
      poll_wait-answers u me k (asleep j) own (rw last),
    )
