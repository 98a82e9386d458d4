-- ===== src/Timer/Refine/Polls.antt =====
-- src/timer/mod.rs: handles, the polls of a delay and those of the runner refine the clock.
use mathlib.Core.List.{append-nil}
use embedded_async.Base.{
  ◌∉◌, ◌≢◌, ◌∷◌, Option, some, none, ok, ℕ, ◌-◌, ◌<◌, ◌≡◌, ◌==◌, refl, sym, ap, ◌∙◌, [], ◌++◌,
  length, List, true, false, arith, Bool-cases, inl, inr, has-append,
}
use embedded_async.Intrusive.Links.{LinkList, Node, Ptr, null}
use embedded_async.Intrusive.Links.Invariant.{Valid, nodes}
use embedded_async.Intrusive.Rc.{RcAnchor, increment_refcount, decrement_refcount}
use embedded_async.World.{Waker, pending}
use embedded_async.Timer.{TimerBackend, is_zero, poll_delay, clone_handle, drop_handle}
use embedded_async.Timer.Sleepers.{links_of, owners}
use embedded_async.Timer.Loop.{Memory}
use embedded_async.Timer.Delay.{to_wake, wake_if_some-to_wake, poll_delay-starts, poll_delay-again}
use embedded_async.Timer.Runner.{poll_runner-serves, closed_poll}
use embedded_async.Timer.Stages.{
  Stage, idle, queued, asleep, value, awake, awake-off, values-update, places-update, Placed-Keeps,
  Placed-more, Entry-right, passes-Passed,
}
use embedded_async.Timer.Spec.{Clock, clones, drops, polls, runs, poll_stage}
use embedded_async.Timer.Refine.{future, perform, Models, Polled, Allowed, Refines, counted-IsTimer}

module _ (ops : TimerBackend) (fuel : ℕ) (local : LinkList) (w : Memory ops) (s : Clock ops)
    (models : Models ops fuel local w s) where
  abbrev rc : RcAnchor Ptr
  rc = w.self.rc_delays

  pub clones-Refines : Allowed ops fuel local w s clones → Refines ops fuel local w s clones
  unfolding perform clone_handle
  clones-Refines (some_left, few) = (
    record w { self = record w.self { rc_delays = increment_refcount rc } },
    refl,
    record {
      timer =
          counted-IsTimer ops w s.sleeping s.starting (increment_refcount rc) w.woken models.timer;
      fresh = models.fresh;
      handles = ground (arith, models.handles, few);
      few = few;
      runner = models.runner;
      backend = models.backend;
      woken = models.woken;
      values = models.values;
      places = models.places;
    },
  )

  -- The memory after the drop of a handle that wakes the tasks `ks`.
  abbrev pub dropped : List Waker → Memory ops
  dropped ks = record w {
    woken = w.woken ++ ks;
    self = record w.self { rc_delays = decrement_refcount rc };
  }

  pub dropped-Models :
      (ks : List Waker) (t : Clock ops)
      → 0 < s.handles
      → t ≡ record s { handles = s.handles - 1; woken = s.woken ++ ks }
      → Models ops fuel local (dropped ks) t
  dropped-Models ks t some_left e = rw e (record {
    timer =
        counted-IsTimer ops w s.sleeping s.starting (decrement_refcount rc) (w.woken ++ ks)
          models.timer;
    fresh = models.fresh;
    handles = ground (arith, models.handles, models.few);
    few = omega (arith, models.few);
    runner = models.runner;
    backend = models.backend;
    woken = ap (λ us. us ++ ks) models.woken;
    values = models.values;
    places = models.places;
  })

  pub drops-Refines : Allowed ops fuel local w s drops → Refines ops fuel local w s drops
  unfolding perform drop_handle
  drops-Refines some_left = elim (Bool-cases (s.handles == 1)) [
    | inl last ↦
        let test : (rc.ref_count == 1) ≡ true = ap (λ n. n == 1) models.handles ∙ last in
        (
          dropped (to_wake w.self.waker),
          rw (test, wake_if_some-to_wake ops w.self.waker w),
          rw last (
              dropped-Models (to_wake w.self.waker)
                (record s { handles = s.handles - 1; woken = s.woken ++ to_wake s.runner })
                some_left
                (ap
                  (λ k.
                    let t : Clock ops = record s {
                      handles = s.handles - 1;
                      woken = s.woken ++ to_wake k;
                    } in
                    t)
                  (sym models.runner))),
        )
    | inr more ↦
        let test : (rc.ref_count == 1) ≡ false = ap (λ n. n == 1) models.handles ∙ more in
        (
          dropped [],
          rw (test, append-nil),
          rw more
              (dropped-Models [] (record s { handles = s.handles - 1 }) some_left (rw append-nil)),
        )
  ]

  -- The first poll of a delay with time left.
  first-Refines :
      (t : ℕ) (node : Node) (k : Waker)
      → s.delays node.data_at ≡ some (idle t)
      → t ≢ 0
      → Valid w.links node.link
      → node.link ∉ nodes w.self.sleeping_timers (links_of s.sleeping)
      → node.link ∉ nodes w.self.new_timers (links_of s.starting)
      → node.data_at ≢ null
      → (u : Memory ops) × (poll_delay ops (future node) k w ≡ ok pending u)
        × Models ops fuel local u (poll_stage (some (idle t)) node k s).1
  first-Refines t node k at ne live off_sl off_nl o_ne =
      let x = node.link in
      let is = models.timer in
      let own = models.values node.data_at ∙ ap value at in
      let free = awake-off w.links.owner w.waiter node.data_at s.sleeping is.waits (ap awake own) in
      let free_new =
        awake-off w.links.owner w.waiter node.data_at s.starting is.new_waits (ap awake own) in
      let p =
        poll_delay-starts ops w (future node) k t s.sleeping s.starting is own ne live off_sl off_nl
          o_ne
          (ground (
            arith,
            free,
            free_new,
            has-append node.data_at (owners w.links.owner (links_of s.sleeping))
                (owners w.links.owner (links_of s.starting)),
          )) in
      let more = s.starting ++ (x, (k, t)) ∷ [] in
      let test : is_zero t ≡ false = ground (arith, ne) in
      let o = p.0.links.owner in
      (
        p.0,
        p.1,
        rw test (record {
          timer = p.2;
          fresh = record {
            head = (models.fresh.head.0, p.6 local.head ∙ models.fresh.head.1);
            tail = (models.fresh.tail.0, p.6 local.tail ∙ models.fresh.tail.1);
            apart = models.fresh.apart;
          };
          handles = ap (λ c. c.rc_delays.ref_count) p.4 ∙ models.handles;
          few = models.few;
          runner = ap (λ c. c.waker) p.4 ∙ models.runner;
          backend = ap (λ c. c.backend) p.4 ∙ models.backend;
          woken = rw (p.5, models.woken, models.runner);
          values = λ q.
              ap (λ f. f q) p.7
              ∙ values-update w.waiter s.delays node.data_at (some (queued t k)) models.values q;
          places =
              places-update w.links.owner o s.sleeping s.starting s.sleeping more s.delays
                node.data_at (some (queued t k))
                (Entry-right o node.data_at t k s.starting ((x, (k, t)) ∷ [])
                  (inl (p.3, refl, refl)))
                (λ q other st m.
                  Placed-more o s.sleeping s.starting x q ((x, (k, t)) ∷ []) st
                    (Placed-Keeps w.links.owner o s.sleeping s.starting p.8 p.9 q st m))
                models.places;
        }),
      )

  -- What the clock answers to a poll, by how far the delay has come.
  stage-Refines :
      (node : Node) (k : Waker) (st : Option Stage)
      → s.delays node.data_at ≡ st
      → Polled ops fuel local w s node st
      → (u : Memory ops) × (perform ops fuel local (polls node k) w
          ≡ ok (poll_stage st node k s).0 u)
        × Models ops fuel local u (poll_stage st node k s).1
  unfolding perform
  stage-Refines node k none at may = absurd may
  stage-Refines node k (some (queued t j)) at may =
      let own = models.values node.data_at ∙ ap value at in
      (w, rw (poll_delay-again ops w (future node) k t (some j) own refl) refl, models)
  stage-Refines node k (some (asleep t j)) at may =
      let own = models.values node.data_at ∙ ap value at in
      (w, rw (poll_delay-again ops w (future node) k t (some j) own refl) refl, models)
  stage-Refines node k (some (idle t)) at may = elim (Bool-cases (is_zero t)) [
    | inl over ↦
        let own = models.values node.data_at ∙ ap value at in
        (
          w,
          rw (over, poll_delay-again ops w (future node) k t none own (ground (arith, over))),
          rw over models,
        )
    | inr more ↦ elim may [
      | inl none_left ↦ absurd (cc)
      | inr (live, off_sl, off_nl, o_ne) ↦
          let p = first-Refines t node k at (ground (arith, more)) live off_sl off_nl o_ne in
          (p.0, rw (more, p.1), p.2)
    ]
  ]

  pub polls-Refines :
      (node : Node) (k : Waker)
      → Allowed ops fuel local w s (polls node k)
      → Refines ops fuel local w s (polls node k)
  polls-Refines node k may = stage-Refines node k (s.delays node.data_at) refl may

  pub runs-Refines :
      (k : Waker)
      → length s.sleeping < fuel
      → length s.starting < fuel
      → Refines ops fuel local w s (runs k)
  unfolding perform
  runs-Refines k few few_new = elim (Bool-cases (s.handles == 0)) [
    | inl gone ↦
        let test : (rc.ref_count == 0) ≡ true = ap (λ n. n == 0) models.handles ∙ gone in
        (w, rw (gone, closed_poll ops fuel local w k test), rw gone models)
    | inr alive ↦
        let p =
          poll_runner-serves ops fuel local w s.sleeping s.starting k s.backend models.fresh
            models.timer models.backend (ground (arith, models.handles, alive)) few few_new in
        let now =
          passes-Passed w.links.owner p.0.links.owner w.waiter p.0.waiter s.sleeping s.starting
            (ops.pause s.backend).1 models.timer.waits models.timer.own p.7 p.8 p.9 in
        (
          p.0,
          rw (alive, p.1),
          rw alive (record {
            timer = p.2;
            fresh = p.6;
            handles = ap (λ c. c.rc_delays.ref_count) p.4 ∙ models.handles;
            few = models.few;
            runner = ap (λ c. c.waker) p.4;
            backend = ap (λ c. c.backend) p.4;
            woken = rw (p.5, models.woken);
            values = λ q. (now q (s.delays q) (models.values q) (models.places q)).0;
            places = λ q. (now q (s.delays q) (models.values q) (models.places q)).1;
          }),
        )
  ]
