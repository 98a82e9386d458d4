-- ===== src/Sync/Mutex/Cancel.antt =====
-- src/sync/mutex.rs: the drop of a future, with all that is alive.
use embedded_async.Base.{◌≡◌, refl, ap, [], ◌∷◌, ◌∉◌, has-append, update, arith, none, some}
use embedded_async.Intrusive.Links.{Ptr, LinkList}
use embedded_async.Intrusive.Links.Invariant.{nodes}
use embedded_async.Intrusive.Rc.{decrement_refcount}
use embedded_async.World.{World}
use embedded_async.World.Waits.{links_of, Waiting, Waits-frame}
use embedded_async.World.Without.{
  without, without-out, mem-without, not-mem-without, All-without, drop_link-without,
}
use embedded_async.Sync.Mutex.{MutexWaiter, Inner, drop_future}
use embedded_async.Sync.Mutex.Laws.{waker_of}
use embedded_async.Sync.Mutex.System.{System, cancels, done, perform, Allowed}
use embedded_async.Sync.Mutex.Steps.{Good, Goes}
use embedded_async.Sync.Mutex.Lives.{cancelled-Good}

module _ {T : Type 0} (s : System T) (good : Good s) where
  abbrev w : World MutexWaiter (Inner T)
  w = s.mem

  abbrev l : LinkList
  l = w.self.waiting_wakers

  -- A future that does not wait has a link outside the wait list.
  pub off_list :
      (x o : Ptr) → s.future x ≡ some o → x ∉ links_of s.waiting → x ∉ nodes l (links_of s.waiting)
  off_list x o f out =
      ground (arith, good.inner x o f, out, has-append x (links_of s.waiting) (l.tail ∷ []))

  -- The drop of a future takes it out of the wait list, if it waits.
  pub cancels-Good : (x o : Ptr) → Allowed s (cancels x o) → Goes s (cancels x o)
  unfolding perform drop_future
  cancels-Good x o (some_ref, f) =
      let ts = s.waiting in
      let (g, d) =
        drop_link-without w.links l ts x good.mutex.list (good.live x o f)
          (λ out. let (n, p) = good.alone x o f out in (off_list x o f out, n, p)) in
      (
        done,
        record w {
          links = g;
          waiter = update w.waiter o none;
          self = record w.self { rc = decrement_refcount w.self.rc };
        },
        ground (arith, d.run),
        cancelled-Good s good x o g (without x ts) f some_ref (λ e. ap (without x) e) d.list
            (Waits-frame waker_of w.links.owner g.owner w.waiter w.waiter (without x ts)
              (λ y m. (d.owner y, refl))
              (All-without (Waiting waker_of w.links.owner w.waiter) x ts good.mutex.waits))
            (λ y m. (mem-without x y ts m, ground (arith, m, without-out x ts)))
            (λ y m ne. not-mem-without x y ts m ne) d.live d.owner
            (λ a out ne. (
              d.outside.next a (ground (arith, out, ne)),
              d.outside.prev a (ground (arith, out, ne)),
            )),
      )
