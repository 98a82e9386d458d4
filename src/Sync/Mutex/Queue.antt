-- ===== src/Sync/Mutex/Queue.antt =====
-- src/sync/mutex.rs: a poll and the drop of a guard, with all that is alive.
use embedded_async.Base.{
  ℕ, ◌-◌, ◌<◌, ◌≡◌, refl, sym, subst, ap, ◌≢◌, ◌∙◌, ◌==◌, true, false, [], ◌∷◌, ◌++◌, ◌∈◌, ◌∉◌,
  Bool-cases, inl, inr, has, has-append, arith, some, if◌then◌else◌, ◌%◌, ◌^◌, All-mem,
}
use embedded_async.Intrusive.Links.{Ptr, null, LinkList}
use embedded_async.Intrusive.Links.Invariant.{nodes}
use embedded_async.Intrusive.Rc.{rc_ref, increment_refcount}
use embedded_async.World.{World, Waker}
use embedded_async.World.Waits.{links_of, links_of-append, Fresh-apart}
use embedded_async.Sync.Mutex.{MutexWaiter, Inner, poll}
use embedded_async.Sync.Mutex.Laws.{poll-locked, drop_guard-wakes}
use embedded_async.Sync.Mutex.System.{
  System, polls, unlocks, done, guarded, blocked, perform, Allowed,
}
use embedded_async.Sync.Mutex.Steps.{Good, Goes, guarded-Good}
use embedded_async.Sync.Mutex.Cancel.{off_list}

module _ {T : Type 0} (s : System T) (good : Good s) where
  abbrev w : World MutexWaiter (Inner T)
  w = s.mem

  abbrev l : LinkList
  l = w.self.waiting_wakers

  -- A poll of the locked mutex.
  poll_held :
      (x o : Ptr) (k : Waker)
      → w.self.locked ≡ true
      → s.future x ≡ some o
      → x ∉ links_of s.waiting
      → Goes s (polls x o k)
  unfolding perform
  poll_held x o k held f out =
      let own = good.waiter x o f in
      let (u, e, self, woken, is, owner, changed, waiter) =
        poll-locked w s.waiting good.mutex (record { link = x; waiter = o; ref = rc_ref }) k held
          (good.live x o f) (off_list s good x o f out) own.0 own.2
          (λ y m same.
            absurd (ground (arith, good.own x y o f (good.waits y m ∙ ap some same), out, m))) in
      let end_of = subst (λ c. nodes c.waiting_wakers [] ≡ nodes l []) (sym self) refl in
      (
        blocked,
        u,
        rw e,
        record {
          mutex = is;
          idle = λ e. absurd (ground (arith, held, ap (λ c. c.locked) self, e));
          guards = subst (λ c. s.guards ≡ (if c.locked then 1 else 0)) (sym self) good.guards;
          count = subst (λ c. c.rc.ref_count ≡ s.refs % 2 ^ 32) (sym self) good.count;
          anchor = subst (λ c. c.rc.contents ≡ null → s.refs ≡ 0) (sym self) good.anchor;
          live = λ y p h. ground (arith, good.live y p h, changed.live y);
          inner = λ y p h. subst (λ c. y ∉ nodes c.waiting_wakers []) (sym self) (good.inner y p h);
          waiter = λ y p h. elim (Bool-cases (p == o)) [
            | inl same ↦ (
              ground (arith, same, own.0),
              record own.1 { waker = some k },
              rw (waiter) (ground (arith, same)),
            )
            | inr ne ↦ let q = good.waiter y p h in (q.0, q.1, rw waiter (ground (arith, q.2, ne)))
          ];
          own = good.own;
          alone = λ y p h m.
              let i : y ∉ links_of s.waiting ++ x ∷ [] =
                subst (λ ys. y ∉ ys) (links_of-append s.waiting ((x, k) ∷ [])) m in
              ground (
                arith,
                i,
                has-append y (links_of s.waiting) (x ∷ []),
                good.alone y p h,
                changed.next y,
                changed.prev y,
                off_list s good y p h,
              );
          waits = λ y m. elim (Bool-cases (y == x)) [
            | inl same ↦ ground (arith, same, f, owner)
            | inr ne ↦
                let i : y ∈ links_of s.waiting ++ x ∷ [] =
                  subst (λ ys. y ∈ ys) (links_of-append s.waiting ((x, k) ∷ [])) m in
                ground (
                  arith,
                  ne,
                  i,
                  has-append y (links_of s.waiting) (x ∷ []),
                  good.waits y,
                  changed.owner y,
                )
          ];
        },
      )

  -- A poll of the unlocked mutex.
  poll_free : (x o : Ptr) (k : Waker) → 0 < s.refs → w.self.locked ≡ false → Goes s (polls x o k)
  unfolding perform poll
  poll_free x o k some_ref free = (
    guarded,
    record w { self = record w.self { locked = true; rc = increment_refcount w.self.rc } },
    ground (arith, free),
    guarded-Good s good some_ref free,
  )

  pub polls-Good : (x o : Ptr) (k : Waker) → Allowed s (polls x o k) → Goes s (polls x o k)
  polls-Good x o k (some_ref, f, out) = elim (Bool-cases w.self.locked) [
    | inl held ↦ poll_held x o k held f out
    | inr free ↦ poll_free x o k some_ref free
  ]

  pub unlocks-Good :
      (fuel : ℕ) (local : LinkList) → Allowed s (unlocks fuel local) → Goes s (unlocks fuel local)
  unfolding perform
  unlocks-Good fuel local (some_ref, some_guard, fresh, few) =
      let (u, e, is, self, woken, waiter, drained) =
        drop_guard-wakes w s.waiting good.mutex fuel local (record { ref = rc_ref }) fresh few in
      let apart = Fresh-apart w.links local l (links_of s.waiting) fresh good.mutex.list in
      (
        done,
        u,
        rw e,
        record {
          mutex = is;
          idle = λ e. refl;
          guards =
              subst (λ c. s.guards - 1 ≡ (if c.locked then 1 else 0)) (sym self)
                (ground (arith, good.guards, some_guard));
          count =
              subst (λ c. c.rc.ref_count ≡ (s.refs - 1) % 2 ^ 32) (sym self)
                (ground (arith, good.count));
          anchor =
              subst (λ c. c.rc.contents ≡ null → s.refs - 1 ≡ 0) (sym self)
                (λ n. ground (arith, good.anchor n));
          live = λ y p h.
              let v = good.live y p h in ground (arith, v, drained.live y, fresh.head, fresh.tail);
          inner = λ y p h. subst (λ c. y ∉ nodes c.waiting_wakers []) (sym self) (good.inner y p h);
          waiter = λ y p h.
              subst (λ f. (p ≢ null) × (v : MutexWaiter) × (f p ≡ some v)) (sym waiter)
                (good.waiter y p h);
          own = good.own;
          alone = λ y p h m. elim (Bool-cases (has y (links_of s.waiting))) [
            | inl i ↦
                All-mem (λ a. (u.links.next a ≡ null) × (u.links.prev a ≡ null))
                  (links_of s.waiting) y drained.unlinked i
            | inr i ↦
                let v = good.live y p h in
                ground (
                  arith,
                  drained.outside.next y,
                  drained.outside.prev y,
                  good.alone y p h i,
                  off_list s good y p h i,
                  v,
                  fresh.head,
                  fresh.tail,
                )
          ];
          waits = λ y m. absurd (ground (arith, m));
        },
      )
