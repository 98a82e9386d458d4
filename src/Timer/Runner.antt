-- ===== src/Timer/Runner.antt =====
-- src/timer/mod.rs: one poll of the runner.
use mathlib.Core.List.{append-nil}
use embedded_async.Base.{
  ℕ, zero, suc, ◌<◌, ◌≡◌, ◌≢◌, ◌==◌, refl, sym, subst, All, ◌∙◌, ap, [], ◌∷◌, ◌++◌, length, arith,
  ◌∉◌, true, false, not, Bool-cases, inl, inr, Option, some, none, ok, ◌>>=◌, if◌then◌else◌,
}
use embedded_async.Intrusive.Links.{Ptr, LinkList, iter}
use embedded_async.Intrusive.Links.Invariant.{Within, init_heap, IsList-frame, mem-tail}
use embedded_async.Intrusive.Links.Sentinels.{init_heap-Within, IsReady-IsList}
use embedded_async.Intrusive.Links.Lifetime.{Fresh}
use embedded_async.Intrusive.Links.Iterate.{iter-IsAt}
use embedded_async.World.{Waker, pending, ready, on_links}
use embedded_async.Timer.{
  Timer, TimerBackend, TimerCmd, start_backend, is_zero, soonest, update_sleeping_timers,
  least_time, poll_runner, poll_run, TimerTask,
}
use embedded_async.Timer.Sleepers.{
  Sleepers, links_of, owners-same, remaining, expired, least_of, remaining_zero, expired_zero,
  Sleeping-owners, Settled, Settled-zero, owners, Keeps, Keeps-append,
}
use embedded_async.Timer.Loop.{Memory}
use embedded_async.Timer.Elapse.{
  IsTimer, update_sleeping_timers-remaining, append_new_timers-append,
}
use embedded_async.Timer.Least.{IsLeast, soonest-IsLeast}
use embedded_async.Timer.Iterate.{least_time-least_of}

-- The backend once it is told to wake `k` at the time given, if there is one.
abbrev pub started : (ops : TimerBackend) → Waker → Option ℕ → ops.B → ops.B
started ops k none b = b
started ops k (some t) b = ops.wake_in k t b

-- The least time of those that sleep on and of the new ones.
abbrev pub next_time : ℕ → Sleepers → Sleepers → Option ℕ
next_time elapsed ts ns = soonest (least_of none (remaining elapsed ts)) (least_of none ns)

module _ (ops : TimerBackend) (fuel : ℕ) (local : LinkList) where
  -- The part of the poll that treats the timers that sleep.
  abbrev treat : LinkList → ℕ → TimerCmd ops (Option ℕ)
  treat sl elapsed =
      if not (is_zero elapsed)
      then update_sleeping_timers ops fuel local elapsed
      else (do it ← on_links (iter sl); least_time ops fuel it none)

  abbrev Treated : Memory ops → Sleepers → Sleepers → ℕ → Type 0
  Treated w ts ns elapsed =
      (u : Memory ops) × (treat w.self.sleeping_timers elapsed w
        ≡ ok (least_of none (remaining elapsed ts)) u)
      × IsTimer ops u (remaining elapsed ts) ns
      × (u.self ≡ w.self)
      × (u.woken ≡ w.woken ++ expired elapsed ts)
      × Fresh u.links local
      × All (Settled w.links.owner u.waiter elapsed) ts
      × Keeps w.links.owner u.links.owner (remaining elapsed ts)
      × Keeps w.links.owner u.links.owner ns
      × ((p : Ptr) → p ∉ owners w.links.owner (links_of ts) → u.waiter p ≡ w.waiter p)

  module _ (w : Memory ops) (ts ns : Sleepers) (fresh : Fresh w.links local)
      (is : IsTimer ops w ts ns) (few : length ts < fuel) where
    abbrev sl : LinkList
    sl = w.self.sleeping_timers

    set_up : Within (sl.head ∷ sl.tail ∷ []) [] w.links (init_heap sl w.links)
    set_up = init_heap-Within w.links sl (links_of ts)

    abbrev after_iter : Memory ops
    after_iter = record w { links = init_heap sl w.links }

    after_iter-IsTimer : IsTimer ops after_iter ts ns
    after_iter-IsTimer =
        let keeps : (x : Ptr) → after_iter.links.owner x ≡ w.links.owner x =
          λ x. set_up.owner x refl in
        record {
          list = IsReady-IsList (init_heap sl w.links) sl (links_of ts) is.list;
          new_list =
              IsList-frame set_up w.self.new_timers (links_of ns)
                (λ a i. ground (arith, is.apart a, i, mem-tail sl (links_of ts))) is.new_list;
          apart = is.apart;
          waits =
              Sleeping-owners w.links.owner after_iter.links.owner w.waiter ts (λ x i. keeps x)
                is.waits;
          new_waits =
              Sleeping-owners w.links.owner after_iter.links.owner w.waiter ns (λ x i. keeps x)
                is.new_waits;
          own =
              rw
                (
                  owners-same w.links.owner after_iter.links.owner (links_of ts) (λ x i. keeps x),
                  owners-same w.links.owner after_iter.links.owner (links_of ns) (λ x i. keeps x),
                )
                is.own;
          time = is.time;
          new_time = is.new_time;
        }

    treat_zero : Treated w ts ns 0
    treat_zero =
        let p = iter-IsAt w.links sl (links_of ts) is.list in
        let after = after_iter-IsTimer in
        (
          after_iter,
          rw (remaining_zero ts is.time, p.1)
              (least_time-least_of ops fuel after_iter sl p.0 none ts p.2 after.waits few),
          rw (remaining_zero ts is.time) after,
          refl,
          rw (expired_zero ts is.time, append-nil),
          record {
            head = ground (arith, fresh.head, set_up.live local.head);
            tail = ground (arith, fresh.tail, set_up.live local.tail);
            apart = fresh.apart;
          },
          Settled-zero w.links.owner w.waiter ts is.time is.waits,
          λ x i. set_up.owner x refl,
          λ x i. set_up.owner x refl,
          λ q off. refl,
        )

    treated : (elapsed : ℕ) → Treated w ts ns elapsed
    treated zero = treat_zero
    treated (suc e) =
        let p = update_sleeping_timers-remaining ops fuel local w ts ns fresh is (suc e) few in
        (p.0, rw (ne) p.1, p.2, p.3, p.4, p.5, p.6, p.7, p.8, p.9)
      where
        ne : is_zero (suc e) ≡ false
        ne = ground arith

  start-started :
      (k : Waker) (t : Option ℕ) (b : ops.B) (w : Memory ops)
      → w.self.backend ≡ some b
      → start_backend ops k t w
        ≡ ok tt (record w { self = record w.self { backend = some (started ops k t b) } })
  start-started k none b w e =
      ap (λ (t : Option ops.B). ok tt (record w { self = record w.self { backend = t } })) e
  start-started k (some t) b w e = rw e

  IsTimer-self :
      (w : Memory ops) (ts ns : Sleepers) (waker : Option Waker) (backend : Option ops.B)
      → IsTimer ops w ts ns
      → IsTimer ops (record w { self = record w.self { waker = waker; backend = backend } }) ts ns
  IsTimer-self w ts ns waker backend is = record {
    list = is.list;
    new_list = is.new_list;
    apart = is.apart;
    waits = is.waits;
    new_waits = is.new_waits;
    own = is.own;
    time = is.time;
    new_time = is.new_time;
  }

  -- A poll of the runner of a well-formed timer that has handles and a backend, given fresh memory
  -- for the lists of its calls and one round more than there are timers, is pending. It pauses the
  -- backend, takes the time that has elapsed from every timer that sleeps, wakes those that have
  -- none left, once each and in order, puts the new timers behind the others, and starts the
  -- backend for the least time that is left: that time is not zero, some timer has it, and none has
  -- less. Without a timer the backend stays paused. The waiter of each timer that slept holds the
  -- time that is left, and no waker if there is none; no other waiter changes, and the links of
  -- the timers left keep their owners.
  pub poll_runner-serves :
      (w : Memory ops) (ts ns : Sleepers) (k : Waker) (b : ops.B)
      → Fresh w.links local
      → IsTimer ops w ts ns
      → w.self.backend ≡ some b
      → w.self.rc_delays.ref_count ≢ 0
      → length ts < fuel
      → length ns < fuel
      → (u : Memory ops) × (poll_runner ops fuel local local k w ≡ ok pending u)
        × IsTimer ops u (remaining (ops.pause b).1 ts ++ ns) []
        × IsLeast (remaining (ops.pause b).1 ts ++ ns) (next_time (ops.pause b).1 ts ns)
        × (u.self ≡ record w.self {
          waker = some k;
          backend = some (started ops k (next_time (ops.pause b).1 ts ns) (ops.pause b).0);
        })
        × (u.woken ≡ w.woken ++ expired (ops.pause b).1 ts)
        × Fresh u.links local
        × All (Settled w.links.owner u.waiter (ops.pause b).1) ts
        × Keeps w.links.owner u.links.owner (remaining (ops.pause b).1 ts ++ ns)
        × ((p : Ptr) → p ∉ owners w.links.owner (links_of ts) → u.waiter p ≡ w.waiter p)
  unfolding poll_runner
  poll_runner-serves w ts ns k b fresh is backend handles few few_new =
      let elapsed = (ops.pause b).1 in
      let b1 = (ops.pause b).0 in
      let rest = remaining elapsed ts in
      let next = next_time elapsed ts ns in
      let paused : Timer ops = record w.self { waker = some k; backend = some b1 } in
      let w1 : Memory ops = record w { self = paused } in
      let p = treated w1 ts ns fresh (IsTimer-self w ts ns (some k) (some b1) is) few elapsed in
      let q = append_new_timers-append ops fuel local p.0 rest ns p.5 p.2 few_new in
      let self_eq : q.0.self ≡ paused = q.3 ∙ p.3 in
      let some_handle : (w.self.rc_delays.ref_count == 0) ≡ false = ground (arith, handles) in
      let s = start-started k next b1 q.0 (ap (λ c. c.backend) self_eq) in
      let started_self : Timer ops = record q.0.self { backend = some (started ops k next b1) } in
      (
        record q.0 { self = started_self },
        simp (some_handle, backend) (rw (p.1, q.1, s)),
        IsTimer-self q.0 (rest ++ ns) [] q.0.self.waker (some (started ops k next b1)) q.2,
        soonest-IsLeast rest ns p.2.time is.new_time,
        ap (λ (c : Timer ops). record c { backend = some (started ops k next b1) }) self_eq,
        q.4 ∙ p.4,
        q.5,
        subst (λ f. All (Settled w.links.owner f elapsed) ts) (sym q.6) p.6,
        λ x i. q.7 x i ∙ Keeps-append w.links.owner p.0.links.owner rest ns p.7 p.8 x i,
        λ r off. ap (λ f. f r) q.6 ∙ p.9 r off,
      )

  pub closed_poll :
      (w : Memory ops) (k : Waker)
      → (w.self.rc_delays.ref_count == 0) ≡ true
      → poll_runner ops fuel local local k w ≡ ok (ready tt) w
  unfolding poll_runner
  closed_poll w k closed = rw closed

  -- The task of a timer ends at its first poll after the last handle was dropped, with the task
  -- given back; before that it never does.
  pub poll_run-ends :
      (w : Memory ops) (ts ns : Sleepers) (task : TimerTask) (k : Waker) (b : ops.B)
      → Fresh w.links local
      → IsTimer ops w ts ns
      → w.self.backend ≡ some b
      → length ts < fuel
      → length ns < fuel
      → (u : Memory ops) × (poll_run ops fuel local local task k w
          ≡ ok (if w.self.rc_delays.ref_count == 0 then ready task else pending) u)
  unfolding poll_run
  poll_run-ends w ts ns task k b fresh is backend few few_new =
      elim (Bool-cases (w.self.rc_delays.ref_count == 0)) [
        | inl closed ↦ (w, rw (closed, closed_poll w k closed))
        | inr open_still ↦
            let p =
              poll_runner-serves w ts ns k b fresh is backend (ground (arith, open_still)) few
                few_new in
            (p.0, rw (open_still, p.1))
      ]
