-- ===== src/Sync/Condvar/Await/Release.antt =====
-- src/sync/condvar.rs: the first poll of `wait` gives the mutex back and goes to sleep.
use embedded_async.Base.{
  ℕ, ◌<◌, ◌≡◌, ◌≢◌, ◌∙◌, refl, sym, ap, subst, [], ◌∷◌, ◌++◌, length, ◌∉◌, Disjoint, Disjoint-symm,
  some, none, true, false, arith, update, ok, and_then, Cmd, ◌>>=◌,
}
use embedded_async.Intrusive.Links.{Ptr, null, Heap, LinkList, new_link}
use embedded_async.Intrusive.Links.Invariant.{
  nodes, IsList-outside, IsList-frame, Outside, mem-left, mem-tail,
}
use embedded_async.Intrusive.Links.Lifetime.{Fresh}
use embedded_async.Intrusive.Rc.{rc_ref, increment_refcount, decrement_refcount}
use embedded_async.World.{Waker, pending}
use embedded_async.World.Waits.{Waits, links_of, wakers_of, Waits-frame, Fresh-apart}
use embedded_async.World.Survive.{IsList-Drained}
use embedded_async.Sync.Mutex.{MutexRef, MutexGuard, clone, drop_guard}
use embedded_async.Sync.Mutex.Laws.{waker_of, drop_guard-wakes}
use embedded_async.Sync.Condvar.{CondvarWaiter, default_waiter, wait_future}
use embedded_async.Sync.Condvar.Notify.{IsCondvar, owners_of-frame, asleep}
use embedded_async.Sync.Condvar.Wait.{poll_wait-waits}
use embedded_async.Sync.Condvar.Await.{
  Shared, WaitPlaces, WaitCall, WaitResult, starts, sleeps, mutex_part, condvar_part, on_mutex,
  on_condvar, poll_sleep, poll_call,
}
use embedded_async.Sync.Condvar.Await.Joint.{IsShared, IsCondvar-frame, not_owner, longer-apart}

module _ {T : Type 0} where
  -- What `wait` does once the mutex is given back.
  abbrev pub rest :
      CondvarWaiter → WaitPlaces → MutexRef → Waker → Cmd (Shared T) (WaitCall × WaitResult)
  rest from places mref k = do
    me ← on_condvar (wait_future from places.node)
    poll_sleep places mref me k

module _ {T : Type 0} (w : Shared T) (ts us : Waits) (is : IsShared w ts us) where
  -- The drop of a guard leaves the condition variable as it is.
  pub drop_guard-IsShared :
      (fuel : ℕ) (local : LinkList) (guard : MutexGuard)
      → Fresh w.links local
      → length ts < fuel
      → (v : Shared T) × (on_mutex (drop_guard fuel local guard) w ≡ ok tt v)
        × IsShared v [] us
        × (v.mutex ≡ record w.mutex { locked = false; rc = decrement_refcount w.mutex.rc })
        × (v.woken ≡ w.woken ++ wakers_of ts)
        × (v.sleeping ≡ w.sleeping)
        × (v.condvar ≡ w.condvar)
        × ((a : Ptr) → a ∉ (local.head ∷ local.tail ∷ []) → v.links.live a ≡ w.links.live a)
  drop_guard-IsShared fuel local guard fresh few =
      let (u, e, mutex, self, woken, locking, drained) =
        drop_guard-wakes (mutex_part w) ts is.mutex fuel local guard fresh few in
      let l = w.mutex.waiting_wakers in
      let m = w.condvar.waiters in
      let off = Disjoint-symm (nodes l (links_of ts)) (nodes m (links_of us)) is.apart in
      let v : Shared T = record w {
        links = u.links;
        locking = u.waiter;
        woken = u.woken;
        mutex = u.self;
      } in
      (
        v,
        rw e,
        record {
          mutex = mutex;
          condvar =
              IsCondvar-frame (condvar_part w) (condvar_part v) us is.condvar
                (IsList-Drained w.links u.links local l m (links_of ts) us drained fresh
                  is.condvar.list off)
                (λ x i. drained.owner x (
                  Fresh-apart w.links local m (links_of us) fresh is.condvar.list x
                    (mem-left m (links_of us) x i)))
                (λ p i. refl);
          apart =
              subst (λ c. Disjoint (nodes c.waiting_wakers []) (nodes m (links_of us))) (sym self)
                (λ a i. ground (arith, is.apart a, mem-tail l (links_of ts)));
        },
        self,
        woken,
        refl,
        refl,
        drained.live,
      )

  -- A new `WaitFuture` in fresh memory, where a notifier is left, is pending at its first poll and
  -- last among those that wait for a notification; the mutex stays as it is.
  pub rest-IsShared :
      (from : CondvarWaiter) (places : WaitPlaces) (mref : MutexRef) (k : Waker)
      → w.condvar.rc_notifier.ref_count ≢ 0
      → w.links.live places.node.link ≡ false
      → places.node.link ≢ null
      → w.sleeping places.node.data_at ≡ none
      → places.node.data_at ≢ null
      → (u : Shared T) × (rest from places mref k w
          ≡ ok (sleeps mref (record { node = places.node; condvar = rc_ref }), pending) u)
        × IsShared u ts (us ++ (places.node.link, k) ∷ [])
        × (u.mutex ≡ w.mutex)
        × (u.woken ≡ w.woken)
        × (u.sleeping places.node.data_at ≡ some (asleep k))
  unfolding wait_future new_link poll_sleep
  rest-IsShared from places mref k some_notifier dead ne unused o_ne =
      let x = places.node.link in
      let o = places.node.data_at in
      let l = w.mutex.waiting_wakers in
      let m = w.condvar.waiters in
      let g : Heap = record {
        live = update w.links.live x true;
        owner = update w.links.owner x null;
        prev = update w.links.prev x null;
        next = update w.links.next x null;
      } in
      let v : Shared T = record w {
        links = g;
        sleeping = update w.sleeping o (some default_waiter);
        condvar = record w.condvar { rc_waiter = increment_refcount w.condvar.rc_waiter };
      } in
      let apart : Outside (x ∷ []) w.links g = record {
        live = λ a i. ground arith;
        next = λ a i. ground arith;
        prev = λ a i. ground arith;
        owner = λ a i. ground arith;
      } in
      let off_mutex : x ∉ nodes l (links_of ts) = ground (arith, is.mutex.list.valid x, dead) in
      let off_condvar : x ∉ nodes m (links_of us) = ground (arith, is.condvar.list.valid x, dead) in
      let condvar : IsCondvar (condvar_part v) us =
        IsCondvar-frame (condvar_part w) (condvar_part v) us is.condvar
          (IsList-outside apart m (links_of us) (λ a i. ground (arith, i, off_condvar))
            is.condvar.list)
          (λ a i. ground (arith, mem-left m (links_of us) a i, off_condvar))
          (λ p i.
            ground (arith, i, not_owner w.links.owner w.sleeping us o is.condvar.waits unused)) in
      let (c, e, self, woken, condvar', owner, sleeping, within) =
        poll_wait-waits (condvar_part v) us condvar
          (record { node = places.node; condvar = rc_ref }) k {j = none} (ground arith)
          some_notifier (ground (arith, ne)) off_condvar o_ne
          (subst (λ ps. o ∉ ps)
            (sym (
              owners_of-frame w.links.owner g.owner us
                (λ a i. ground (arith, mem-left m (links_of us) a i, off_condvar))))
            (not_owner w.links.owner w.sleeping us o is.condvar.waits unused)) in
      let off_pushed : Disjoint (nodes l (links_of ts)) (x ∷ nodes m (links_of us)) =
        λ a i. ground (arith, is.apart a i, off_mutex, i) in
      (
        record v { links = c.links; sleeping = c.waiter; woken = c.woken; condvar = c.self },
        rw e,
        record {
          mutex = record {
            list = IsList-frame within l (links_of ts) off_pushed (
                IsList-outside apart l (links_of ts) (λ a i. ground (arith, i, off_mutex))
                  is.mutex.list);
            waits =
                Waits-frame waker_of w.links.owner c.links.owner w.locking w.locking ts
                  (λ a i.
                    (ground (arith, within.owner a, mem-left l (links_of ts) a i, off_mutex), refl))
                  is.mutex.waits;
          };
          condvar = condvar';
          apart =
              subst
                (λ z.
                  Disjoint (nodes l (links_of ts)) (nodes z.waiters (links_of (us ++ (x, k) ∷ []))))
                (sym self) (longer-apart (nodes l (links_of ts)) m us x k off_pushed);
        },
        refl,
        woken,
        rw sleeping (ground arith),
      )

-- The first poll of `wait` on a well-formed mutex and condition variable, with the guard and while
-- there is a notifier: it is pending, the mutex is unlocked and its value the same, every task that
-- waited for the lock is woken, in order, and the task waits for a notification behind those that
-- do. The list of the call and the new future lie in fresh memory, and `fuel` is more than the
-- tasks that wait for the lock.
pub poll_call-releases :
    {T : Type 0} (w : Shared T) (ts us : Waits) (fuel : ℕ) (local : LinkList) (from : CondvarWaiter)
    (places : WaitPlaces) (guard : MutexGuard) (k : Waker)
    → IsShared w ts us
    → Fresh w.links local
    → length ts < fuel
    → w.condvar.rc_notifier.ref_count ≢ 0
    → w.links.live places.node.link ≡ false
    → places.node.link ∉ (null ∷ local.head ∷ local.tail ∷ [])
    → w.sleeping places.node.data_at ≡ none
    → places.node.data_at ≢ null
    → (u : Shared T) × (poll_call fuel local from places (starts guard) k w
        ≡ ok
            (
              sleeps (record { ref = rc_ref }) (record { node = places.node; condvar = rc_ref }),
              pending,
            )
            u)
      × IsShared u [] (us ++ (places.node.link, k) ∷ [])
      × (u.mutex.locked ≡ false)
      × (u.mutex.value ≡ w.mutex.value)
      × (u.woken ≡ w.woken ++ wakers_of ts)
      × (u.sleeping places.node.data_at ≡ some (asleep k))
unfolding poll_call clone
poll_call-releases w ts us fuel local from places guard k is fresh few some_notifier dead out unused
      o_ne =
    let w1 : Shared _ = record w {
      mutex = record w.mutex { rc = increment_refcount w.mutex.rc };
    } in
    let is1 : IsShared w1 ts us = record {
      mutex = record { list = is.mutex.list; waits = is.mutex.waits };
      condvar = is.condvar;
      apart = is.apart;
    } in
    let (v, d, is_v, mutex, woken, sleeping, condvar, live) =
      drop_guard-IsShared w1 ts us is1 fuel local guard fresh few in
    let mref : MutexRef = record { ref = rc_ref } in
    let (u, e, is_u, mutex_u, woken_u, asleep_u) =
      rest-IsShared v [] us is_v from places mref k
        (subst (λ c. c.rc_notifier.ref_count ≢ 0) (sym condvar) some_notifier)
        (live places.node.link (ground (arith, out)) ∙ dead) (ground (arith, out))
        (ap (λ f. f places.node.data_at) sleeping ∙ unused) o_ne in
    (
      u,
      ap (λ o. and_then o (λ n. rest from places mref k)) d ∙ e,
      is_u,
      ap (λ c. c.locked) (mutex_u ∙ mutex),
      ap (λ c. c.value) (mutex_u ∙ mutex),
      woken_u ∙ woken,
      asleep_u,
    )
