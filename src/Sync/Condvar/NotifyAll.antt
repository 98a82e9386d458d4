-- ===== src/Sync/Condvar/NotifyAll.antt =====
-- src/sync/condvar.rs: the loop of `try_notify_all`.
use mathlib.Core.List.{append-nil, append_assoc}
use embedded_async.Base.{
  ℕ, zero, suc, ◌<◌, ◌≡◌, refl, List, [], ◌∷◌, ◌++◌, ◌∙◌, subst, All, ◌∉◌, length, update, arith,
  some, ok,
}
use embedded_async.Intrusive.Links.{Ptr}
use embedded_async.Intrusive.Links.Sentinels.{IsReady-IsList}
use embedded_async.Intrusive.Links.Unlink.{pop_front-nil}
use embedded_async.World.{World, pop_each}
use embedded_async.World.Waits.{Waits, wakers_of}
use embedded_async.Sync.Condvar.{Waiter, Condvar, notify_owner, try_notify_all}
use embedded_async.Sync.Condvar.Notify.{
  owners_of, owners_of-frame, awake, IsCondvar, notified, first-notified,
}

-- From `w` to `u` all of the waiters `ps` have been notified, and no other one has changed.
pub record AllNotified (ps : List Ptr) (w u : World Waiter Condvar) : Type 0 where
  pub awake : All (λ p. u.waiter p ≡ some awake) ps
  pub others : (p : Ptr) → p ∉ ps → u.waiter p ≡ w.waiter p

more-AllNotified :
    (w v u : World Waiter Condvar) (p : Ptr) (ps : List Ptr)
    → (v.waiter ≡ update w.waiter p (some awake))
    → p ∉ ps
    → AllNotified ps v u
    → AllNotified (p ∷ ps) w u
more-AllNotified w v u p ps e out all = record {
  awake = (rw (all.others p out, e) (ground arith), all.awake);
  others = λ q m. rw (all.others q (ground arith), e) (ground arith);
}

loop-wakes :
    (fuel : ℕ) (w : World Waiter Condvar) (ts : Waits)
    → IsCondvar w ts
    → length ts < fuel
    → (u : World Waiter Condvar) × (pop_each fuel w.self.waiters notify_owner w ≡ ok tt u)
      × IsCondvar u []
      × (u.self ≡ w.self)
      × (u.woken ≡ w.woken ++ wakers_of ts)
      × AllNotified (owners_of w.links.owner ts) w u
unfolding pop_each
loop-wakes zero w ts is few = absurd (omega arith)
loop-wakes (suc fuel) w [] is few =
    let p = pop_front-nil w.links w.self.waiters is.list in
    (
      record w { links = p.0 },
      rw p.1,
      record { list = IsReady-IsList p.0 w.self.waiters [] p.2; waits = tt; own = tt },
      refl,
      rw append-nil,
      record { awake = tt; others = λ q m. refl },
    )
loop-wakes (suc fuel) w ((x, k) ∷ ts) is few =
    let p = first-notified w x k ts is in
    let v = notified w x k ts is p.0 in
    let rest = loop-wakes fuel v ts p.3 (omega arith) in
    let same = owners_of-frame w.links.owner p.0.owner ts (λ a m. p.4 a) in
    (
      rest.0,
      rw (p.1, p.2, rest.1),
      rest.2,
      rest.3,
      rest.4 ∙ append_assoc w.woken (k ∷ []) (wakers_of ts),
      more-AllNotified w v rest.0 (w.links.owner x) (owners_of w.links.owner ts) refl is.own.0
          (subst (λ ps. AllNotified ps v rest.0) same rest.5),
    )

-- `try_notify_all` notifies every waiter of a well-formed condition variable, wakes their tasks once
-- each and in the order in which they came, and leaves the wait list empty and every other waiter as
-- it was; it needs one round more than there are waiters.
pub try_notify_all-wakes :
    (fuel : ℕ) (w : World Waiter Condvar) (ts : Waits)
    → IsCondvar w ts
    → length ts < fuel
    → (u : World Waiter Condvar) × (try_notify_all fuel w ≡ ok tt u)
      × IsCondvar u []
      × (u.self ≡ w.self)
      × (u.woken ≡ w.woken ++ wakers_of ts)
      × AllNotified (owners_of w.links.owner ts) w u
unfolding try_notify_all
try_notify_all-wakes = loop-wakes
