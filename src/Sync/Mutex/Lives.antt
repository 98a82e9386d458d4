-- ===== src/Sync/Mutex/Lives.antt =====
-- src/sync/mutex.rs: the start and the drop of a `LockFuture`, with all that is alive.
use embedded_async.Base.{
  ◌-◌, ◌<◌, ◌≡◌, refl, ◌==◌, true, false, [], ◌∷◌, ◌∈◌, ◌∉◌, All, Bool-cases, inl, inr, has-append,
  update, arith, none, some,
}
use embedded_async.Intrusive.Links.{Ptr, null, Heap, LinkList, new_link}
use embedded_async.Intrusive.Links.Invariant.{
  nodes, IsList, Outside, IsList-outside, mem-left, mem-tail,
}
use embedded_async.Intrusive.Rc.{increment_refcount, decrement_refcount}
use embedded_async.World.{World}
use embedded_async.World.Waits.{Waits, links_of, Waiting, Waits-frame}
use embedded_async.Sync.Mutex.{MutexWaiter, Inner, lock, default_waiter}
use embedded_async.Sync.Mutex.Laws.{waker_of}
use embedded_async.Sync.Mutex.System.{System, locks, done, perform, Allowed}
use embedded_async.Sync.Mutex.Steps.{Good, Goes}

module _ {T : Type 0} (s : System T) (good : Good s) where
  abbrev w : World MutexWaiter (Inner T)
  w = s.mem

  abbrev l : LinkList
  l = w.self.waiting_wakers

  pub listed-live : (y : Ptr) → y ∈ nodes l (links_of s.waiting) → w.links.live y ≡ true
  listed-live y m = ground (arith, good.mutex.list.valid y m)

  -- The waiter of a future that waits.
  pub listed-waiter :
      (y : Ptr) → y ∈ links_of s.waiting → (v : MutexWaiter) × (w.waiter (w.links.owner y) ≡ some v)
  listed-waiter y m = let p = good.waiter y (w.links.owner y) (good.waits y m) in (p.1, p.2)

  -- A waiter in fresh memory belongs to the new future alone.
  only : (x o : Ptr) → w.waiter o ≡ none → (y : Ptr) → update s.future x (some o) y ≡ some o → y ≡ x
  only x o unused y f = elim (Bool-cases (y == x)) [
    | inl e ↦ ground (arith, e)
    | inr ne ↦
        let q = good.waiter y o (ground (arith, f, ne)) in absurd (ground (arith, q.2, unused))
  ]

  pub locks-Good : (x o : Ptr) → Allowed s (locks x o) → Goes s (locks x o)
  unfolding perform lock new_link
  locks-Good x o (some_ref, x_ne, dead, o_ne, unused) =
      let g : Heap = record {
        live = update w.links.live x true;
        owner = update w.links.owner x null;
        prev = update w.links.prev x null;
        next = update w.links.next x null;
      } in
      let waiter' = update w.waiter o (some default_waiter) in
      let c : Inner T = record w.self { rc = increment_refcount w.self.rc } in
      let apart : Outside (x ∷ []) w.links g = record {
        live = λ a m. ground arith;
        next = λ a m. ground arith;
        prev = λ a m. ground arith;
        owner = λ a m. ground arith;
      } in
      (
        done,
        record w { links = g; waiter = waiter'; self = c },
        refl,
        record {
          mutex = record {
            list =
                IsList-outside apart l (links_of s.waiting)
                  (λ a m. ground (arith, listed-live a m, dead)) good.mutex.list;
            waits =
                Waits-frame waker_of w.links.owner g.owner w.waiter waiter' s.waiting
                  (λ y m.
                    let p = listed-waiter y m in
                    (
                      ground (arith, listed-live y (mem-left l (links_of s.waiting) y m), dead),
                      ground (arith, p.1, unused),
                    ))
                  good.mutex.waits;
          };
          idle = good.idle;
          guards = good.guards;
          count = ground (arith, good.count);
          anchor = λ e. ground (arith, good.anchor e, some_ref);
          live = λ y p f. ground (arith, good.live y p);
          inner = λ y p f. ground (
            arith,
            good.inner y p,
            listed-live l.head,
            listed-live l.tail,
            mem-tail l (links_of s.waiting),
            dead,
          );
          waiter = λ y p f. elim (Bool-cases (p == o)) [
            | inl e ↦ (ground (arith, e, o_ne), default_waiter, ground (arith, e))
            | inr ne ↦
                let q = good.waiter y p (ground (arith, f, ne)) in
                (q.0, q.1, ground (arith, q.2, ne))
          ];
          own = λ y z p f e. elim (Bool-cases (p == o)) [
            | inl same ↦ ground (arith, same, only x o unused y, only x o unused z, f, e)
            | inr ne ↦ good.own y z p (ground (arith, f, ne)) (ground (arith, e, ne))
          ];
          alone = λ y p f out. ground (arith, good.alone y p);
          waits = λ y m.
              ground
                (arith, good.waits y m, listed-live y (mem-left l (links_of s.waiting) y m), dead);
        },
      )

  -- A future that goes leaves its waiter to nobody else.
  pub other-waiter :
      (x o : Ptr)
      → s.future x ≡ some o
      → (y p : Ptr) → s.future y ≡ some p
      → (y == x) ≡ false
      → (p == o) ≡ false
  other-waiter x o f y p e ne = elim (Bool-cases (p == o)) [
    | inl same ↦ absurd (ground (arith, ne, good.own y x o (ground (arith, e, same)) f))
    | inr differ ↦ differ
  ]

  -- What is well formed once the link `x` is freed, from the heap `g` that is left.
  pub cancelled-Good :
      (x o : Ptr) (g : Heap) (ts : Waits)
      → s.future x ≡ some o
      → 0 < s.refs
      → (s.waiting ≡ [] → ts ≡ [])
      → IsList g l (links_of ts)
      → All (Waiting waker_of g.owner w.waiter) ts
      → ((y : Ptr) → y ∈ links_of ts → (y ∈ links_of s.waiting) × ((y == x) ≡ false))
      → ((y : Ptr) → y ∉ links_of ts → (y == x) ≡ false → y ∉ links_of s.waiting)
      → ((a : Ptr) → (a == x) ≡ false → g.live a ≡ w.links.live a)
      → ((a : Ptr) → g.owner a ≡ w.links.owner a)
      → ((a : Ptr)
          → a ∉ nodes l (links_of s.waiting)
          → (a == x) ≡ false
          → (g.next a ≡ w.links.next a) × (g.prev a ≡ w.links.prev a))
      → Good (record s {
        mem = record w {
          links = g;
          waiter = update w.waiter o none;
          self = record w.self { rc = decrement_refcount w.self.rc };
        };
        refs = s.refs - 1;
        future = update s.future x none;
        waiting = ts;
      })
  cancelled-Good x o g ts f some_ref none_left list waits within out live owner rest = record {
    mutex = record {
      list = list;
      waits =
          Waits-frame waker_of g.owner g.owner w.waiter (update w.waiter o none) ts
            (λ y m.
              let p = within y m in
              (
                refl,
                ground
                    (arith, owner y, other-waiter x o f y (w.links.owner y) (good.waits y p.0) p.1),
              ))
            waits;
    };
    idle = λ e. none_left (good.idle e);
    guards = good.guards;
    count = ground (arith, good.count);
    anchor = λ e. ground (arith, good.anchor e);
    live = λ y p e. ground (arith, e, live y, good.live y p);
    inner = λ y p e. ground (arith, e, good.inner y p);
    waiter = λ y p e.
        let ne : (y == x) ≡ false = ground (arith, e) in
        let old : s.future y ≡ some p = ground (arith, e, ne) in
        let q = good.waiter y p old in
        (q.0, q.1, ground (arith, q.2, other-waiter x o f y p old ne));
    own = λ y z p e d. good.own y z p (ground (arith, e)) (ground (arith, d));
    alone = λ y p e m.
        let ne : (y == x) ≡ false = ground (arith, e) in
        let old : s.future y ≡ some p = ground (arith, e, ne) in
        let off = out y m ne in
        ground (
          arith,
          good.alone y p old off,
          rest y,
          ne,
          has-append y (links_of s.waiting) (l.tail ∷ []),
          off,
          good.inner y p old,
        );
    waits = λ y m. let p = within y m in ground (arith, good.waits y p.0, owner y, p.1);
  }
