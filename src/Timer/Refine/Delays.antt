-- ===== src/Timer/Refine/Delays.antt =====
-- src/timer/mod.rs: making and dropping a delay refines the clock.
use mathlib.Core.List.{append-nil}
use embedded_async.Base.{
  ◌∉◌, ℕ, ◌-◌, ◌<◌, ◌≡◌, ◌==◌, refl, sym, ap, ◌∙◌, [], ◌∷◌, ◌++◌, List, none, some, ok, true, false,
  update, arith, Bool-cases, inl, inr,
}
use embedded_async.Intrusive.Links.{Heap, LinkList, Node, new_link, drop_link}
use embedded_async.Intrusive.Links.Lifetime.{with_link, with_link-Outside}
use embedded_async.Intrusive.Rc.{increment_refcount}
use embedded_async.World.{Waker}
use embedded_async.World.Without.{without}
use embedded_async.Timer.{TimerBackend, WaitingTimer, clone_handle, drop_handle, delay, drop_delay}
use embedded_async.Timer.Loop.{Memory}
use embedded_async.Timer.Cancel.{drop_link-Gone, Gone-IsTimer}
use embedded_async.Timer.Delay.{to_wake, wake_if_some-to_wake}
use embedded_async.Timer.Sleepers.{Sleepers, links_of, Keeps}
use embedded_async.Intrusive.Links.Invariant.{mem-left}
use embedded_async.Timer.Stages.{
  idle, value, awake, awake-off, values-update, places-update, Placed-Keeps, Placed-without,
}
use embedded_async.Timer.Spec.{Clock, makes, cancels}
use embedded_async.Timer.Refine.{perform, Models, Leaves, Allowed, Refines, still-IsTimer}
use embedded_async.Timer.Refine.Polls.{dropped, dropped-Models}

module _ (ops : TimerBackend) (fuel : ℕ) (local : LinkList) where
  pub makes-Refines :
      (w : Memory ops) (s : Clock ops)
      → Models ops fuel local w s
      → (t : ℕ) (node : Node) → Allowed ops fuel local w s (makes t node)
      → Refines ops fuel local w s (makes t node)
  unfolding perform delay clone_handle new_link
  makes-Refines w s models t node (some_left, few, ne, dead, off, unused) =
      let x = node.link in
      let rc = increment_refcount w.self.rc_delays in
      let is = models.timer in
      let quiet : awake (w.waiter node.data_at) ≡ true =
        ap awake (models.values node.data_at ∙ ap value unused) in
      let free = awake-off w.links.owner w.waiter node.data_at s.sleeping is.waits quiet in
      let free_new = awake-off w.links.owner w.waiter node.data_at s.starting is.new_waits quiet in
      let keeps : (ts : Sleepers)
          → x ∉ links_of ts
          → Keeps w.links.owner (with_link x w.links).owner ts =
        λ ts out y i. ground (arith, i, out) in
      let v : WaitingTimer = record { time_until_timeout = t; waker = none } in
      let waiter = update w.waiter node.data_at (some v) in
      let u : Memory ops = record w {
        links = with_link x w.links;
        waiter = waiter;
        self = record w.self { rc_delays = rc };
      } in
      (
        u,
        refl,
        record {
          timer =
              still-IsTimer ops w s.sleeping s.starting is (x ∷ []) (with_link x w.links) waiter rc
                w.woken (with_link-Outside w.links x) (λ a i. ground (arith, is.list.valid a, dead))
                (λ a i. ground (arith, is.new_list.valid a, dead)) (λ p i. ground (arith, i, free))
                (λ p i. ground (arith, i, free_new));
          fresh = record {
            head = ground (arith, models.fresh.head, off);
            tail = ground (arith, models.fresh.tail, off);
            apart = models.fresh.apart;
          };
          handles = ground (arith, models.handles, few);
          few = few;
          runner = models.runner;
          backend = models.backend;
          woken = models.woken;
          values = values-update w.waiter s.delays node.data_at (some (idle t)) models.values;
          places =
              places-update w.links.owner (with_link x w.links).owner s.sleeping s.starting
                s.sleeping s.starting s.delays node.data_at (some (idle t)) tt
                (λ p ne st m.
                  Placed-Keeps w.links.owner (with_link x w.links).owner s.sleeping s.starting
                    (keeps s.sleeping (
                      ground (
                        arith,
                        is.list.valid x,
                        dead,
                        mem-left w.self.sleeping_timers (links_of s.sleeping) x,
                      )))
                    (keeps s.starting (
                      ground (
                        arith,
                        is.new_list.valid x,
                        dead,
                        mem-left w.self.new_timers (links_of s.starting) x,
                      )))
                    p st m)
                models.places;
        },
      )

  -- What the drop of a delay's node leaves.
  gone-Models :
      (w : Memory ops) (s : Clock ops) (node : Node)
      → Models ops fuel local w s
      → Leaves ops fuel local w s node
      → (g : Heap) × (drop_link node.link w.links ≡ ok tt g)
        × Models ops fuel local
            (record w { links = g; waiter = update w.waiter node.data_at none })
            (record s {
              sleeping = without node.link s.sleeping;
              starting = without node.link s.starting;
              delays = update s.delays node.data_at none;
            })
  gone-Models w s node models leaves =
      let is = models.timer in
      let (g, gone) =
        drop_link-Gone w.links w.self.sleeping_timers w.self.new_timers s.sleeping s.starting
          node.link is.list is.new_list is.apart leaves.live leaves.alone in
      (
        g,
        gone.run,
        record {
          timer =
              Gone-IsTimer ops w s.sleeping s.starting node.link node.data_at g is gone leaves.own.0
                leaves.own.1;
          fresh = record {
            head = (models.fresh.head.0, gone.dead local.head models.fresh.head.1);
            tail = (models.fresh.tail.0, gone.dead local.tail models.fresh.tail.1);
            apart = models.fresh.apart;
          };
          handles = models.handles;
          few = models.few;
          runner = models.runner;
          backend = models.backend;
          woken = models.woken;
          values = values-update w.waiter s.delays node.data_at none models.values;
          places =
              places-update w.links.owner g.owner s.sleeping s.starting
                (without node.link s.sleeping) (without node.link s.starting) s.delays node.data_at
                none tt
                (λ p ne st m.
                  Placed-Keeps w.links.owner g.owner (without node.link s.sleeping)
                    (without node.link s.starting) (λ y i. gone.owner y) (λ y i. gone.owner y) p st
                    (Placed-without w.links.owner s.sleeping s.starting node.link p
                      (λ i e. ground (arith, leaves.owns i, e, ne))
                      (λ i e. ground (arith, leaves.owns_new i, e, ne)) st m))
                models.places;
        },
      )

  module _ (w : Memory ops) (s : Clock ops) (models : Models ops fuel local w s) (node : Node)
      (some_left : 0 < s.handles) (leaves : Leaves ops fuel local w s node) where
    -- The same, after the drop of its handle.
    node_gone :
        (ks us : List Waker)
        → us ≡ s.woken ++ ks
        → (g : Heap) × (drop_link node.link w.links ≡ ok tt g)
          × Models ops fuel local
              (record (dropped ops fuel local w s models ks) {
                links = g;
                waiter = update w.waiter node.data_at none;
              })
              (record s {
                sleeping = without node.link s.sleeping;
                starting = without node.link s.starting;
                delays = update s.delays node.data_at none;
                handles = s.handles - 1;
                woken = us;
              })
    node_gone ks us e =
        let t : Clock ops = record s { handles = s.handles - 1; woken = us } in
        gone-Models (dropped ops fuel local w s models ks) t node
          (dropped-Models ops fuel local w s models ks t some_left (
            ap (λ js. let t : Clock ops = record s { handles = s.handles - 1; woken = js } in t) e))
          (record {
            live = leaves.live;
            alone = leaves.alone;
            owns = leaves.owns;
            owns_new = leaves.owns_new;
            own = leaves.own;
          })

    pub cancels-Refines : Refines ops fuel local w s (cancels node)
    unfolding perform drop_delay drop_handle
    cancels-Refines = elim (Bool-cases (s.handles == 1)) [
      | inl last ↦
          let test : (w.self.rc_delays.ref_count == 1) ≡ true =
            ap (λ n. n == 1) models.handles ∙ last in
          let (g, e, holds) = node_gone (to_wake s.runner) (s.woken ++ to_wake s.runner) refl in
          (
            record (dropped ops fuel local w s models (to_wake s.runner)) {
              links = g;
              waiter = update w.waiter node.data_at none;
            },
            rw (test, wake_if_some-to_wake ops w.self.waker w, models.runner, e),
            rw last holds,
          )
      | inr more ↦
          let test : (w.self.rc_delays.ref_count == 1) ≡ false =
            ap (λ n. n == 1) models.handles ∙ more in
          let (g, e, holds) = node_gone [] s.woken (sym (append-nil s.woken)) in
          (
            record (dropped ops fuel local w s models []) {
              links = g;
              waiter = update w.waiter node.data_at none;
            },
            rw (test, e, append-nil w.woken),
            rw more holds,
          )
    ]
