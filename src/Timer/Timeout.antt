-- ===== src/Timer/Timeout.antt =====
-- src/prelude/mod.rs and src/timer/mod.rs: the combinator `timeout` with delays of one timer, after
-- a poll of the timer's runner.
use embedded_async.Base.{
  ℕ, ◌<◌, ◌≡◌, ◌≢◌, refl, ◌∷◌, ◌++◌, length, some, ok, Bool-cases, inl, inr, if◌then◌else◌, pure,
  ◌>>=◌,
}
use embedded_async.Intrusive.Links.{LinkList, Node}
use embedded_async.Intrusive.Links.Lifetime.{Fresh}
use embedded_async.World.{Waker, Poll, pending, ready}
use embedded_async.Timer.{
  TimerBackend, DelayFuture, is_zero, saturating_sub, poll_delay, poll_runner, TimerHandle, delay,
  drop_delay, drop_handle,
}
use embedded_async.Timer.Sleepers.{Sleepers}
use embedded_async.Timer.Loop.{Memory}
use embedded_async.Timer.Elapse.{IsTimer}
use embedded_async.Timer.Runner.{poll_runner-serves}
use embedded_async.Timer.Ready.{over_or_not, slept-poll}
use embedded_async.Futures.{
  TimerHandles, Poller, Timed, in_time, timeout_error, timed_by, poll_race, poll_timeout,
}

module _ (ops : TimerBackend) where
  -- The poll of the timer's delay as a future of the combinators.
  abbrev pub timer_delay : Poller (Memory ops) DelayFuture (Unit {0})
  timer_delay me k = do r ← poll_delay ops me k; pure (me, r)

  -- What the combinators use of this timer.
  abbrev pub timer_handles : TimerHandles (Memory ops)
  timer_handles = record {
    Handle = TimerHandle;
    Delay = DelayFuture;
    Duration = ℕ;
    Place = Node;
    make = delay ops;
    poll = timer_delay;
    drop_delay = drop_delay ops;
    drop_handle = drop_handle ops;
  }

  -- What the timeout says of two delays with `s` and `t` units left.
  abbrev pub first_over : ℕ → ℕ → Poll (Timed (Unit {0}))
  first_over s t =
      if is_zero s then ready (in_time tt) else if is_zero t then ready timeout_error else pending

  timeout-polls :
      (u : Memory ops) (me by : DelayFuture) (i : Waker) (s t : ℕ)
      → poll_delay ops me i u ≡ ok (over_or_not s) u
      → poll_delay ops by i u ≡ ok (over_or_not t) u
      → poll_timeout timer_delay timer_delay (timed_by me by) i u
        ≡ ok (timed_by me by, first_over s t) u
  unfolding poll_timeout poll_race
  timeout-polls u me by i s t first second = elim (Bool-cases (is_zero s)) [
    | inl over ↦ rw first (rw over refl)
    | inr more ↦ rw first (
        rw more (
          rw second (elim (Bool-cases (is_zero t)) [
            | inl late ↦ rw late refl
            | inr early ↦ rw early refl
          ])))
  ]

  -- The timeout of a delay that sleeps by another delay that sleeps on the same timer, at its first
  -- poll after a poll of the runner: it is ready in time if no more time was left of the first delay
  -- than the backend says has passed, also if the second one is over too; else ready with the error
  -- if so of the second one; else pending. Its poll changes nothing. The timer is well formed, with
  -- handles and a backend, the lists of the runner's calls lie in fresh memory, and a loop has one
  -- round more than there are timers.
  pub poll_timeout-poll_runner :
      (fuel : ℕ) (local : LinkList) (w : Memory ops) (ts ns : Sleepers) (i k : Waker) (b : ops.B)
      → Fresh w.links local
      → IsTimer ops w ts ns
      → w.self.backend ≡ some b
      → w.self.rc_delays.ref_count ≢ 0
      → length ts < fuel
      → length ns < fuel
      → (before after : Sleepers) (me : DelayFuture) (j : Waker) (s : ℕ)
      → ts ≡ before ++ (me.intrusive_node.link, (j, s)) ∷ after
      → w.links.owner me.intrusive_node.link ≡ me.intrusive_node.data_at
      → (before2 after2 : Sleepers) (by : DelayFuture) (l : Waker) (t : ℕ)
      → ts ≡ before2 ++ (by.intrusive_node.link, (l, t)) ∷ after2
      → w.links.owner by.intrusive_node.link ≡ by.intrusive_node.data_at
      → (u : Memory ops) × (poll_runner ops fuel local local k w ≡ ok pending u)
        × (poll_timeout timer_delay timer_delay (timed_by me by) i u
            ≡ ok
                (
                  timed_by me by,
                  first_over (saturating_sub s (ops.pause b).1) (saturating_sub t (ops.pause b).1),
                )
                u)
  poll_timeout-poll_runner fuel local w ts ns i k b fresh is backend handles few few_new before
        after me j s at1 own before2 after2 by l t at2 own2 =
      let e = (ops.pause b).1 in
      let p = poll_runner-serves ops fuel local w ts ns k b fresh is backend handles few few_new in
      let o = w.links.owner in
      (
        p.0,
        p.1,
        timeout-polls p.0 me by i (saturating_sub s e) (saturating_sub t e)
            (slept-poll ops o p.0 e ts before after me i j s p.7 at1 own)
            (slept-poll ops o p.0 e ts before2 after2 by i l t p.7 at2 own2),
      )
