-- ===== src/Sync/Condvar/Await/Relock.antt =====
-- src/sync/condvar.rs: the poll of `wait` after a notification takes the lock again.
use embedded_async.Base.{
  ℕ, ◌≡◌, ◌≢◌, ◌∙◌, refl, sym, ap, subst, [], ◌∷◌, ◌++◌, ◌∉◌, Disjoint, Disjoint-symm, some, none,
  true, false, arith, update, ok, success,
}
use embedded_async.Intrusive.Links.{Ptr, null, Heap, LinkList, new_link, drop_link}
use embedded_async.Intrusive.Links.Invariant.{
  nodes, Outside, Outside-trans, Outside-mono, Valid, IsList-frame, mem-left,
}
use embedded_async.Intrusive.Links.Lifetime.{drop_link-free}
use embedded_async.Intrusive.Rc.{rc_ref, increment_refcount, decrement_refcount}
use embedded_async.World.{Waker, pending, ready}
use embedded_async.World.Waits.{Waits, links_of}
use embedded_async.Sync.Mutex.{
  MutexRef, LockFuture, default_waiter, lock, poll, drop_future, drop_mutex_ref,
}
use embedded_async.Sync.Mutex.Laws.{poll-locked}
use embedded_async.Sync.Condvar.{CondvarWaiter, WaitFuture, drop_wait}
use embedded_async.Sync.Condvar.Notify.{awake}
use embedded_async.Sync.Condvar.Wait.{poll_wait-answers}
use embedded_async.Sync.Condvar.Await.{
  Shared, WaitPlaces, sleeps, relocks, finished, mutex_part, condvar_part, poll_relock, poll_sleep,
  poll_call,
}
use embedded_async.Sync.Condvar.Await.Joint.{
  IsShared, IsCondvar-frame, longer-apart, not_waiting, IsShared-outside,
}

-- The future `me` has been notified: it is awake, and its link is in no list.
pub record IsNotified {T : Type 0} (w : Shared T) (ts us : Waits) (me : WaitFuture) : Type 0 where
  pub waiter : w.sleeping me.node.data_at ≡ some awake
  pub live : Valid w.links me.node.link
  pub next : w.links.next me.node.link ≡ null
  pub prev : w.links.prev me.node.link ≡ null
  pub off_mutex : me.node.link ∉ nodes w.mutex.waiting_wakers (links_of ts)
  pub off_condvar : me.node.link ∉ nodes w.condvar.waiters (links_of us)

-- Memory for the `LockFuture`.
pub record IsFree {T : Type 0} (w : Shared T) (places : WaitPlaces) : Type 0 where
  pub link : (places.lock_link ≢ null) × (w.links.live places.lock_link ≡ false)
  pub waiter : (places.lock_waiter ≢ null) × (w.locking places.lock_waiter ≡ none)

-- The poll of the new `LockFuture` while the mutex is unlocked, from the heap `g` that the drop of
-- its link leaves.
relock_free :
    {T : Type 0} (v : Shared T) (mref : MutexRef) (me : LockFuture) (k : Waker) (g : Heap)
    → v.mutex.locked ≡ false
    → drop_link me.link v.links ≡ ok tt g
    → poll_relock mref me k v
      ≡ ok
          (finished, ready (success (record { ref = rc_ref })))
          (record v {
            links = g;
            locking = update v.locking me.waiter none;
            mutex = record v.mutex {
              locked = true;
              rc = decrement_refcount (decrement_refcount (increment_refcount v.mutex.rc));
            };
          })
unfolding poll_relock poll drop_future drop_mutex_ref
relock_free v mref me k g unlocked e = rw (unlocked, e)

module _ {T : Type 0} (w : Shared T) (ts us : Waits) (is : IsShared w ts us) (places : WaitPlaces)
    (mref : MutexRef) (me : WaitFuture) (k : Waker) (notified : IsNotified w ts us me)
    (free : IsFree w places) where
  abbrev x : Ptr
  x = me.node.link

  abbrev y : Ptr
  y = places.lock_link

  abbrev q : Ptr
  q = places.lock_waiter

  -- The new link, in the heap `g` that the drop of the `WaitFuture` leaves.
  abbrev linked : Heap → Heap
  linked g = record {
    live = update g.live y true;
    owner = update g.owner y null;
    prev = update g.prev y null;
    next = update g.next y null;
  }

  linked-Outside : (g : Heap) → Outside (x ∷ []) w.links g → Outside (x ∷ y ∷ []) w.links (linked g)
  linked-Outside g out = record {
    live = λ a i. ground (arith, out.live a);
    owner = λ a i. ground (arith, out.owner a);
    prev = λ a i. ground (arith, out.prev a);
    next = λ a i. ground (arith, out.next a);
  }

  -- The memory in which the lock is polled first.
  abbrev before : Heap → Shared T
  before g = record w {
    links = linked g;
    locking = update w.locking q (some default_waiter);
    sleeping = update w.sleeping me.node.data_at none;
    mutex = record w.mutex { rc = increment_refcount w.mutex.rc };
    condvar = record w.condvar { rc_waiter = decrement_refcount w.condvar.rc_waiter };
  }

  off_mutex : Disjoint (nodes w.mutex.waiting_wakers (links_of ts)) (x ∷ y ∷ [])
  off_mutex a i = ground (arith, notified.off_mutex, is.mutex.list.valid a, free.link)

  off_condvar : Disjoint (nodes w.condvar.waiters (links_of us)) (x ∷ y ∷ [])
  off_condvar a i = ground (arith, notified.off_condvar, is.condvar.list.valid a, free.link)

  before-IsShared : (g : Heap) → Outside (x ∷ []) w.links g → IsShared (before g) ts us
  before-IsShared g out =
      IsShared-outside w (before g) ts us (x ∷ y ∷ []) is (linked-Outside g out) off_mutex
        off_condvar refl refl (λ p n i. ground (arith, i, free.waiter))
        (λ p j i. ground (arith, i, notified.waiter))

  -- The poll of `wait` once it was notified, while the mutex is unlocked, is ready with a guard:
  -- the mutex is locked again, with the same value, nobody is woken, and those that wait for the
  -- lock or for a notification wait on; the `WaitFuture` is gone, no other memory is taken, and the
  -- number of notifiers is the same. The link of the notified future is in no list, and the future
  -- of the lock lies in fresh memory.
  pub poll_call-locks :
      (fuel : ℕ) (local : LinkList) (from : CondvarWaiter)
      → w.mutex.locked ≡ false
      → (u : Shared T) × (poll_call fuel local from places (sleeps mref me) k w
          ≡ ok (finished, ready (success (record { ref = rc_ref }))) u)
        × IsShared u ts us
        × (u.mutex.locked ≡ true)
        × (u.mutex.value ≡ w.mutex.value)
        × (u.woken ≡ w.woken)
        × (u.links.live x ≡ false)
        × (u.sleeping me.node.data_at ≡ none)
        × (u.condvar.rc_notifier ≡ w.condvar.rc_notifier)
        × ((a : Ptr) → w.links.live a ≡ false → u.links.live a ≡ false)
  unfolding poll_call poll_sleep drop_wait lock new_link
  poll_call-locks fuel local from unlocked =
      let answers = poll_wait-answers (condvar_part w) me k awake notified.waiter refl in
      let (g, d, dead, out, owner) =
        drop_link-free w.links x notified.live notified.next notified.prev in
      let (f, e, gone, only, kept) =
        drop_link-free (linked g) y (ground (arith, free.link)) (ground arith) (ground arith) in
      let rc =
        decrement_refcount
          (decrement_refcount (increment_refcount (increment_refcount w.mutex.rc))) in
      let v = before g in
      let u : Shared T = record w {
        links = f;
        locking = update (update w.locking q (some default_waiter)) q none;
        sleeping = update w.sleeping me.node.data_at none;
        mutex = record w.mutex { locked = true; rc = rc };
        condvar = record w.condvar { rc_waiter = decrement_refcount w.condvar.rc_waiter };
      } in
      (
        u,
        rw (answers, d)
            (relock_free v mref (record { link = y; waiter = q; ref = rc_ref }) k f unlocked e),
        IsShared-outside w u ts us (x ∷ y ∷ []) is
            (Outside-mono (x ∷ y ∷ []) (Outside-trans (linked-Outside g out) only)
              (λ a i. ground (arith, i)))
            off_mutex off_condvar refl refl (λ p v i. ground (arith, i, free.waiter))
            (λ p j i. ground (arith, i, notified.waiter)),
        refl,
        refl,
        refl,
        ground (arith, only.live x, dead, notified.live, free.link),
        ground arith,
        refl,
        λ a i. ground (arith, i, only.live a, gone, out.live a, dead),
      )

  -- The poll of `wait` once it was notified, while the mutex is locked, is pending: the
  -- `WaitFuture` is gone, and the task is last of those that wait for the lock, while those that
  -- wait for a notification wait on; nobody is woken, and the mutex stays locked, with the same
  -- value. The link of the notified future is in no list, and the future of the lock lies in fresh
  -- memory.
  pub poll_call-queues :
      (fuel : ℕ) (local : LinkList) (from : CondvarWaiter)
      → w.mutex.locked ≡ true
      → (u : Shared T) × (poll_call fuel local from places (sleeps mref me) k w
          ≡ ok (relocks mref (record { link = y; waiter = q; ref = rc_ref }), pending) u)
        × IsShared u (ts ++ (y, k) ∷ []) us
        × (u.mutex.locked ≡ true)
        × (u.mutex.value ≡ w.mutex.value)
        × (u.woken ≡ w.woken)
        × (u.links.live x ≡ false)
  unfolding poll_call poll_sleep poll_relock drop_wait lock new_link
  poll_call-queues fuel local from held =
      let answers = poll_wait-answers (condvar_part w) me k awake notified.waiter refl in
      let (g, d, dead, out, owner) =
        drop_link-free w.links x notified.live notified.next notified.prev in
      let v = before g in
      let is_v = before-IsShared g out in
      let l = w.mutex.waiting_wakers in
      let m = w.condvar.waiters in
      let off_l : y ∉ nodes l (links_of ts) = ground (arith, is.mutex.list.valid y, free.link) in
      let off_m : y ∉ nodes m (links_of us) = ground (arith, is.condvar.list.valid y, free.link) in
      let (c, e, self, woken, mutex, own, within, locking) =
        poll-locked (mutex_part v) ts is_v.mutex (record { link = y; waiter = q; ref = rc_ref }) k
          {v = default_waiter} held (ground (arith, free.link)) off_l free.waiter.0 (ground arith)
          (λ a i same.
            not_waiting w.links.owner w.locking ts q is.mutex.waits free.waiter.1 a i
              (ground (arith, same, out.owner a, off_mutex a, mem-left l (links_of ts) a i))) in
      let off_pushed : Disjoint (nodes m (links_of us)) (y ∷ nodes l (links_of ts)) =
        λ a i. ground (arith, is.apart a, off_m, i) in
      (
        record v { links = c.links; locking = c.waiter; woken = c.woken; mutex = c.self },
        rw (answers, d) (rw e),
        record {
          mutex = mutex;
          condvar =
              IsCondvar-frame (condvar_part v)
                (condvar_part (record v {
                  links = c.links;
                  locking = c.waiter;
                  woken = c.woken;
                  mutex = c.self;
                }))
                us is_v.condvar (IsList-frame within m (links_of us) off_pushed is_v.condvar.list)
                (λ a i. within.owner a (ground (arith, mem-left m (links_of us) a i, off_m)))
                (λ p i. refl);
          apart =
              subst
                (λ z.
                  Disjoint (nodes z.waiting_wakers (links_of (ts ++ (y, k) ∷ [])))
                    (nodes m (links_of us)))
                (sym self)
                (Disjoint-symm (nodes m (links_of us)) (nodes l (links_of (ts ++ (y, k) ∷ [])))
                  (longer-apart (nodes m (links_of us)) l ts y k off_pushed));
        },
        ap (λ z. z.locked) self ∙ held,
        ap (λ z. z.value) self,
        woken,
        ground (arith, within.live x, dead, notified.live, free.link),
      )
