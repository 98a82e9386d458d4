-- ===== src/Sync/Condvar/Await/Until.antt =====
-- src/sync/condvar.rs: the polls of `wait_until` after a notification.
use embedded_async.Base.{
  ℕ, suc, ◌<◌, ◌≡◌, ◌≢◌, ◌∙◌, refl, sym, ap, subst, Bool, [], ◌∷◌, ◌++◌, ◌∉◌, length, some, none,
  true, false, arith, ok, success,
}
use embedded_async.Intrusive.Links.{null, LinkList}
use embedded_async.Intrusive.Links.Lifetime.{Fresh}
use embedded_async.Intrusive.Rc.{rc_ref}
use embedded_async.World.{Waker, pending, ready}
use embedded_async.World.Waits.{Waits, wakers_of}
use embedded_async.Sync.Mutex.{MutexRef, MutexGuard, read, write}
use embedded_async.Sync.Condvar.{CondvarWaiter, WaitFuture}
use embedded_async.Sync.Condvar.Notify.{asleep}
use embedded_async.Sync.Condvar.Await.{Shared, WaitPlaces, UntilCall, sleeps, finished, poll_until}
use embedded_async.Sync.Condvar.Await.Joint.{IsShared}
use embedded_async.Sync.Condvar.Await.Release.{poll_call-releases}
use embedded_async.Sync.Condvar.Await.Relock.{IsNotified, IsFree, poll_call-locks}

module _ {T C : Type 0} (condition : C → T → Bool × C × T) (w : Shared T) (ts us : Waits)
    (is : IsShared w ts us) (places : WaitPlaces) (mref : MutexRef) (me : WaitFuture) (k : Waker)
    (notified : IsNotified w ts us me) (free : IsFree w places) (unlocked : w.mutex.locked ≡ false)
    (fuel : ℕ) (local : LinkList) (from : CondvarWaiter) (captured : C) (rounds : ℕ) where
  abbrev call : UntilCall C
  call = record { call = sleeps mref me; captured = captured }

  -- A new value of the mutex leaves all that waits as it is.
  written-IsShared :
      (u : Shared T) (v : T)
      → IsShared u ts us
      → IsShared (record u { mutex = record u.mutex { value = v } }) ts us
  written-IsShared u v s = record {
    mutex = record { list = s.mutex.list; waits = s.mutex.waits };
    condvar = s.condvar;
    apart = s.apart;
  }

  -- A poll of `wait_until` once it was notified, while the mutex is unlocked, is ready if the
  -- condition holds of the value of the mutex: the guard is returned, the mutex is locked, with the
  -- value that the condition has left, nobody is woken, and all others wait on. One round of the
  -- loop is enough. The link of the notified future is in no list, and the future of the lock lies
  -- in fresh memory.
  pub poll_until-holds :
      {c : C} {v : T}
      → condition captured w.mutex.value ≡ (true, c, v)
      → (u : Shared T) × (poll_until (suc rounds) condition fuel local from places call k w
          ≡ ok
              (record { call = finished; captured = c }, ready (success (record { ref = rc_ref })))
              u)
        × IsShared u ts us
        × (u.mutex.locked ≡ true)
        × (u.mutex.value ≡ v)
        × (u.woken ≡ w.woken)
  unfolding poll_until read write
  poll_until-holds {c} {v} holds =
      let (u, e, is_u, locked, value, woken, dead, unused, notifier, left) =
        poll_call-locks w ts us is places mref me k notified free fuel local from unlocked in
      let said : condition captured u.mutex.value ≡ (true, c, v) =
        ap (condition captured) value ∙ holds in
      (
        record u { mutex = record u.mutex { value = v } },
        rw (e, said),
        written-IsShared u v is_u,
        locked,
        refl,
        woken,
      )

  -- If the condition does not hold, and a notifier is left, the task goes back to sleep in the same
  -- poll: it is pending, the mutex is unlocked, with the value that the condition has left, every
  -- task that waited for the lock is woken, in order, and the task waits for a notification behind
  -- those that do. Two rounds of the loop are enough. The future lies where it did before; the link
  -- of the notified future is in no list, the list of the call and the future of the lock lie in
  -- fresh memory, and `fuel` is more than the tasks that wait for the lock.
  pub poll_until-sleeps :
      {c : C} {v : T}
      → condition captured w.mutex.value ≡ (false, c, v)
      → me.node ≡ places.node
      → places.node.data_at ≢ null
      → Fresh w.links local
      → length ts < fuel
      → w.condvar.rc_notifier.ref_count ≢ 0
      → (u : Shared T) × (poll_until (suc (suc rounds)) condition fuel local from places call k w
          ≡ ok
              (
                record {
                  call =
                      sleeps
                        (record { ref = rc_ref })
                        (record { node = places.node; condvar = rc_ref });
                  captured = c;
                },
                pending,
              )
              u)
        × IsShared u [] (us ++ (places.node.link, k) ∷ [])
        × (u.mutex.locked ≡ false)
        × (u.mutex.value ≡ v)
        × (u.woken ≡ w.woken ++ wakers_of ts)
        × (u.sleeping places.node.data_at ≡ some (asleep k))
  unfolding poll_until read write
  poll_until-sleeps {c} {v} fails same o_ne fresh few some_notifier =
      let (u, e, is_u, locked, value, woken, dead, unused, notifier, left) =
        poll_call-locks w ts us is places mref me k notified free fuel local from unlocked in
      let said : condition captured u.mutex.value ≡ (false, c, v) =
        ap (condition captured) value ∙ fails in
      let u' : Shared T = record u { mutex = record u.mutex { value = v } } in
      let guard : MutexGuard = record { ref = rc_ref } in
      let still : Fresh u.links local = record {
        head = (fresh.head.0, left local.head fresh.head.1);
        tail = (fresh.tail.0, left local.tail fresh.tail.1);
        apart = fresh.apart;
      } in
      let x_out : me.node.link ∉ (null ∷ local.head ∷ local.tail ∷ []) =
        ground (arith, notified.live, fresh.head, fresh.tail) in
      let (z, d, is_z, free_again, kept, told, asleep_again) =
        poll_call-releases u' ts us fuel local from places guard k (written-IsShared u v is_u) still
          few (subst (λ n. n.ref_count ≢ 0) (sym notifier) some_notifier)
          (subst (λ n. u.links.live n.link ≡ false) same dead)
          (subst (λ n. n.link ∉ (null ∷ local.head ∷ local.tail ∷ [])) same x_out)
          (subst (λ n. u.sleeping n.data_at ≡ none) same unused) o_ne in
      (
        z,
        rw (e, said, d),
        is_z,
        free_again,
        kept,
        told ∙ ap (λ ks. ks ++ wakers_of ts) woken,
        asleep_again,
      )
