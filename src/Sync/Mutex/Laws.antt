-- ===== src/Sync/Mutex/Laws.antt =====
-- What the operations of src/sync/mutex.rs do to a well-formed mutex.
use embedded_async.Base.{
  ℕ, ◌<◌, ◌≡◌, refl, ◌≢◌, [], ◌∷◌, ◌++◌, All, All-append, ◌∈◌, ◌∉◌, length, update, arith, true,
  false, Option, some, ok,
}
use embedded_async.Intrusive.Links.{Ptr, null, Heap, LinkList}
use embedded_async.Intrusive.Links.Invariant.{nodes, Valid, IsList, Within, mem-left}
use embedded_async.Intrusive.Links.Push.{push_link_back-append}
use embedded_async.Intrusive.Links.Lifetime.{Fresh}
use embedded_async.Intrusive.Rc.{rc_ref, increment_refcount, decrement_refcount}
use embedded_async.World.{World, Waker, pending, ready, wakes}
use embedded_async.World.Waits.{Waits, links_of, wakers_of, Waiting, Waits-frame, links_of-append}
use embedded_async.World.Drain.{Drained, drain-wakes}
use embedded_async.Sync.Mutex.{
  MutexWaiter, Inner, MutexGuard, LockFuture, wake_waiter, release_lock, poll, drop_guard,
}

abbrev pub waker_of : MutexWaiter → Option Waker
waker_of v = v.waker

module _ {T : Type 0} where
  -- The wait list holds the links of `ts` in order, and behind each a task waits.
  pub record IsMutex (w : World MutexWaiter (Inner T)) (ts : Waits) : Type 0 where
    pub list : IsList w.links w.self.waiting_wakers (links_of ts)
    pub waits : All (Waiting waker_of w.links.owner w.waiter) ts

  wake_waiter-wakes :
      (w : World MutexWaiter (Inner T)) (x : Ptr) (k : Waker)
      → Valid w.links x
      → Waiting waker_of w.links.owner w.waiter (x, k)
      → wake_waiter x w ≡ ok tt (wakes w (k ∷ []))
  unfolding wake_waiter
  wake_waiter-wakes w x k v waiting = ground (arith, v, waiting)

  module _ (w : World MutexWaiter (Inner T)) (ts : Waits) (is : IsMutex w ts) where
    abbrev unlocked : Inner T
    unlocked = record w.self { locked = false }

    -- `release_lock` unlocks the mutex, wakes every waiting task once and in the order in which they
    -- came, and empties the wait list; it needs one round more than there are waiters.
    pub release_lock-wakes :
        (fuel : ℕ) (local : LinkList)
        → Fresh w.links local
        → length ts < fuel
        → (g : Heap) × (release_lock fuel local w
            ≡ ok tt (record w { links = g; woken = w.woken ++ wakers_of ts; self = unlocked }))
          × Drained w.links local w.self.waiting_wakers (links_of ts) g
    unfolding release_lock
    release_lock-wakes fuel local fresh few =
        drain-wakes waker_of wake_waiter wake_waiter-wakes fuel (record w { self = unlocked }) local
          w.self.waiting_wakers ts fresh is.list is.waits few

    -- The drop of a guard, given fresh memory for its own list and one round more than there are
    -- waiters, unlocks the mutex, gives back a reference, wakes every waiting task once in the order
    -- of the wait list and leaves that list empty.
    pub drop_guard-wakes :
        (fuel : ℕ) (local : LinkList) (guard : MutexGuard)
        → Fresh w.links local
        → length ts < fuel
        → (u : World MutexWaiter (Inner T)) × (drop_guard fuel local guard w ≡ ok tt u)
          × IsMutex u []
          × (u.self ≡ record unlocked { rc = decrement_refcount w.self.rc })
          × (u.woken ≡ w.woken ++ wakers_of ts)
          × (u.waiter ≡ w.waiter)
          × Drained w.links local w.self.waiting_wakers (links_of ts) u.links
    unfolding drop_guard
    drop_guard-wakes fuel local guard fresh few =
        let p = release_lock-wakes fuel local fresh few in
        (
          record w {
            links = p.0;
            woken = w.woken ++ wakers_of ts;
            self = record unlocked { rc = decrement_refcount w.self.rc };
          },
          rw p.1,
          record { list = p.2.empty; waits = tt },
          refl,
          refl,
          refl,
          p.2,
        )

    -- A poll of an unlocked mutex takes the lock and a reference; the wait list stays as it is.
    pub poll-unlocked :
        (me : LockFuture) (k : Waker)
        → w.self.locked ≡ false
        → (u : World MutexWaiter (Inner T)) × (poll me k w ≡ ok (ready (record { ref = rc_ref })) u)
          × (u.self ≡ record w.self { locked = true; rc = increment_refcount w.self.rc })
          × (u.woken ≡ w.woken)
          × IsMutex u ts
    unfolding poll
    poll-unlocked me k free = (
      record w { self = record w.self { locked = true; rc = increment_refcount w.self.rc } },
      rw free,
      refl,
      refl,
      record { list = is.list; waits = is.waits },
    )

    -- A poll of a locked mutex is pending and puts the future last in the wait list, with the
    -- polling task to be woken; no pointer outside the list, no other owner and no other waiter
    -- changes. The future's link must be in no list, and its waiter its own.
    pub poll-locked :
        (me : LockFuture) (k : Waker) {v : MutexWaiter}
        → w.self.locked ≡ true
        → Valid w.links me.link
        → me.link ∉ nodes w.self.waiting_wakers (links_of ts)
        → me.waiter ≢ null
        → w.waiter me.waiter ≡ some v
        → ((x : Ptr) → x ∈ links_of ts → w.links.owner x ≢ me.waiter)
        → (u : World MutexWaiter (Inner T)) × (poll me k w ≡ ok pending u)
          × (u.self ≡ w.self)
          × (u.woken ≡ w.woken)
          × IsMutex u (ts ++ (me.link, k) ∷ [])
          × (u.links.owner me.link ≡ me.waiter)
          × Within
              (me.link ∷ nodes w.self.waiting_wakers (links_of ts))
              (me.link ∷ [])
              w.links
              u.links
          × (u.waiter ≡ update w.waiter me.waiter (some (record v { waker = some k })))
    unfolding poll
    poll-locked me k {v} held live out ne own apart =
        let p =
          push_link_back-append w.links w.self.waiting_wakers (links_of ts) me.waiter me.link
            is.list live out in
        let waiter' = update w.waiter me.waiter (some (record v { waker = some k })) in
        (
          record w { links = p.0; waiter = waiter' },
          rw (held, own, p.1),
          refl,
          refl,
          record {
            list = rw (links_of-append ts) p.2;
            waits =
                All-append (Waiting waker_of p.0.owner waiter') ts ((me.link, k) ∷ [])
                  (Waits-frame waker_of w.links.owner p.0.owner w.waiter waiter' ts
                    (λ x m. (
                      ground (arith, p.4.owner x, mem-left w.self.waiting_wakers (links_of ts) x m),
                      ground (arith, apart x m),
                    ))
                    is.waits)
                  (
                    (ground (arith, p.3), record v { waker = some k }, ground (arith, p.3), refl),
                    tt,
                  );
          },
          p.3,
          p.4,
          refl,
        )
