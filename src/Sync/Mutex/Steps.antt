-- ===== src/Sync/Mutex/Steps.antt =====
-- src/sync/mutex.rs: every operation keeps a well-formed mutex well formed, with all that is alive.
use embedded_async.Base.{
  ℕ, ◌+◌, ◌-◌, ◌<◌, ◌%◌, ◌^◌, ◌≡◌, refl, sym, subst, ◌≢◌, true, false, [], ◌∈◌, ◌∉◌, Bool-cases,
  inl, inr, arith, some, ok, if◌then◌else◌,
}
use embedded_async.Intrusive.Links.{Ptr, null, is_null, LinkList}
use embedded_async.Intrusive.Links.Invariant.{nodes, Valid, IsList}
use embedded_async.Intrusive.Rc.{new_anchor, increment_refcount, decrement_refcount, drop_anchor}
use embedded_async.World.{World}
use embedded_async.World.Waits.{links_of}
use embedded_async.Sync.Mutex.{MutexWaiter, Inner, take_ref, clone, drop_mutex_ref, try_lock, write}
use embedded_async.Sync.Mutex.Laws.{IsMutex}
use embedded_async.Sync.Mutex.System.{
  System, Action, takes, clones, drops, tries, writes, Reply, done, guarded, blocked, perform,
  Allowed, after,
}

module _ {T : Type 0} where
  pub record Good (s : System T) : Type 0 where
    pub mutex : IsMutex s.mem s.waiting
    -- One guard where the mutex is locked, and none where it is not.
    pub guards : s.guards ≡ (if s.mem.self.locked then 1 else 0)
    -- Nobody waits for an unlocked mutex.
    pub idle : s.mem.self.locked ≡ false → s.waiting ≡ []
    pub count : s.mem.self.rc.ref_count ≡ s.refs % 2 ^ 32
    -- Where the anchor is not set up there is no reference.
    pub anchor : s.mem.self.rc.contents ≡ null → s.refs ≡ 0
    -- A future has a live link, which is no sentinel, and a waiter.
    pub live : (x o : Ptr) → s.future x ≡ some o → Valid s.mem.links x
    pub inner : (x o : Ptr) → s.future x ≡ some o → x ∉ nodes s.mem.self.waiting_wakers []
    pub waiter :
        (x o : Ptr)
        → s.future x ≡ some o
        → (o ≢ null) × (v : MutexWaiter) × (s.mem.waiter o ≡ some v)
    -- The waiter is its own.
    pub own : (x y o : Ptr) → s.future x ≡ some o → s.future y ≡ some o → x ≡ y
    -- One that does not wait is in no list.
    pub alone :
        (x o : Ptr)
        → s.future x ≡ some o
        → x ∉ links_of s.waiting
        → (s.mem.links.next x ≡ null) × (s.mem.links.prev x ≡ null)
    -- One that waits owns its link.
    pub waits : (x : Ptr) → x ∈ links_of s.waiting → s.future x ≡ some (s.mem.links.owner x)

  abbrev pub Goes : System T → Action T → Type 0
  Goes s a =
      (r : Reply) × (m : World MutexWaiter (Inner T)) × (perform a s.mem ≡ ok r m)
      × Good (after s a r m)

  module _ (s : System T) (good : Good s) where
    abbrev w : World MutexWaiter (Inner T)
    w = s.mem

    abbrev l : LinkList
    l = w.self.waiting_wakers

    -- An operation that changes neither links nor waiters nor futures.
    self-Good :
        (c : Inner T) (refs guards : ℕ)
        → c.waiting_wakers ≡ w.self.waiting_wakers
        → guards ≡ (if c.locked then 1 else 0)
        → (c.locked ≡ false → w.self.locked ≡ false)
        → c.rc.ref_count ≡ refs % 2 ^ 32
        → (c.rc.contents ≡ null → refs ≡ 0)
        → Good (record s { mem = record w { self = c }; refs = refs; guards = guards })
    self-Good c refs guards same g free n anchor = record {
      mutex = record {
        list = subst (λ m. IsList w.links m (links_of s.waiting)) (sym same) good.mutex.list;
        waits = good.mutex.waits;
      };
      guards = g;
      idle = λ e. good.idle (free e);
      count = n;
      anchor = anchor;
      live = good.live;
      inner = λ x o f. subst (λ m. x ∉ nodes m []) (sym same) (good.inner x o f);
      waiter = good.waiter;
      own = good.own;
      alone = good.alone;
      waits = good.waits;
    }

    pub takes-Good : (me : Ptr) → Allowed s (takes me) → Goes s (takes me)
    unfolding perform take_ref drop_anchor
    takes-Good me ne = elim (Bool-cases (is_null w.self.rc.contents)) [
      | inl unset ↦
          let none_yet : s.refs ≡ 0 = good.anchor (ground arith) in
          let c : Inner T = record w.self { rc = increment_refcount (new_anchor me) } in
          (
            done,
            record w { self = c },
            ground (arith, unset, good.count, none_yet),
            self-Good c (s.refs + 1) s.guards refl good.guards (λ e. e) (ground (arith, none_yet))
                (λ e. ground arith),
          )
      | inr set ↦
          let c : Inner T = record w.self { rc = increment_refcount w.self.rc } in
          (
            done,
            record w { self = c },
            ground (arith, set),
            self-Good c (s.refs + 1) s.guards refl good.guards (λ e. e) (ground (arith, good.count))
                (λ e. ground arith),
          )
    ]

    pub clones-Good : Allowed s clones → Goes s clones
    unfolding perform clone
    clones-Good some_ref =
        let c : Inner T = record w.self { rc = increment_refcount w.self.rc } in
        (
          done,
          record w { self = c },
          refl,
          self-Good c (s.refs + 1) s.guards refl good.guards (λ e. e) (ground (arith, good.count))
              (λ e. ground (arith, good.anchor e)),
        )

    pub drops-Good : Allowed s drops → Goes s drops
    unfolding perform drop_mutex_ref
    drops-Good some_ref =
        let c : Inner T = record w.self { rc = decrement_refcount w.self.rc } in
        (
          done,
          record w { self = c },
          refl,
          self-Good c (s.refs - 1) s.guards refl good.guards (λ e. e) (ground (arith, good.count))
              (λ e. ground (arith, good.anchor e)),
        )

    -- A new guard, on an unlocked mutex.
    pub guarded-Good :
        (0 < s.refs)
        → w.self.locked ≡ false
        → Good (record s {
          mem = record w {
            self = record w.self { locked = true; rc = increment_refcount w.self.rc };
          };
          refs = s.refs + 1;
          guards = s.guards + 1;
        })
    guarded-Good some_ref free =
        self-Good (record w.self { locked = true; rc = increment_refcount w.self.rc }) (s.refs + 1)
          (s.guards + 1) refl (ground (arith, good.guards, free)) (λ e. free)
          (ground (arith, good.count)) (λ e. ground (arith, good.anchor e))

    pub tries-Good : Allowed s tries → Goes s tries
    unfolding perform try_lock
    tries-Good some_ref = elim (Bool-cases w.self.locked) [
      | inl held ↦ (blocked, w, ground (arith, held), good)
      | inr free ↦ (
        guarded,
        record w { self = record w.self { locked = true; rc = increment_refcount w.self.rc } },
        ground (arith, free),
        guarded-Good some_ref free,
      )
    ]

    pub writes-Good : (v : T) → Allowed s (writes v) → Goes s (writes v)
    unfolding perform write
    writes-Good v some_guard =
        let c : Inner T = record w.self { value = v } in
        (
          done,
          record w { self = c },
          refl,
          self-Good c s.refs s.guards refl good.guards (λ e. e) good.count good.anchor,
        )
