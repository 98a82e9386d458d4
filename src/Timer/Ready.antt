-- ===== src/Timer/Ready.antt =====
-- src/timer/mod.rs: the poll of a delay after one of the runner.
use embedded_async.Base.{
  ℕ, ◌<◌, ◌≡◌, ◌≢◌, refl, sym, subst, ap, ◌∙◌, ◌∷◌, ◌++◌, length, All, All-middle, some, none, ok,
  Bool-cases, inl, inr, arith, if◌then◌else◌,
}
use embedded_async.Intrusive.Links.{Ptr, LinkList}
use embedded_async.Intrusive.Links.Lifetime.{Fresh}
use embedded_async.World.{Waker, Poll, pending, ready}
use embedded_async.Timer.{
  TimerBackend, DelayFuture, is_zero, saturating_sub, poll_delay, poll_runner,
}
use embedded_async.Timer.Sleepers.{Sleepers, Settled}
use embedded_async.Timer.Loop.{Memory}
use embedded_async.Timer.Elapse.{IsTimer}
use embedded_async.Timer.Delay.{poll_delay-again}
use embedded_async.Timer.Runner.{poll_runner-serves}

-- What a poll says with so much time left.
abbrev pub over_or_not : ℕ → Poll (Unit {0})
over_or_not left = if is_zero left then ready tt else pending

module _ (ops : TimerBackend) where
  settled-poll :
      (u : Memory ops) (me : DelayFuture) (i j : Waker) (left : ℕ)
      → u.waiter me.intrusive_node.data_at
        ≡ some (record { time_until_timeout = left; waker = if is_zero left then none else some j })
      → poll_delay ops me i u ≡ ok (over_or_not left) u
  settled-poll u me i j left own = elim (Bool-cases (is_zero left)) [
    | inl over ↦
        rw over (poll_delay-again ops u me i left none (rw over at own) (ground (arith, over)))
    | inr more ↦ rw more (poll_delay-again ops u me i left (some j) (rw more at own) refl)
  ]

  -- The poll of a delay that slept when the timers had `e` more units left, as the waiters say.
  pub slept-poll :
      (owners : Ptr → Ptr) (u : Memory ops) (e : ℕ) (ts before after : Sleepers) (me : DelayFuture)
      (i j : Waker) (t : ℕ)
      → All (Settled owners u.waiter e) ts
      → ts ≡ before ++ (me.intrusive_node.link, (j, t)) ∷ after
      → owners me.intrusive_node.link ≡ me.intrusive_node.data_at
      → poll_delay ops me i u ≡ ok (over_or_not (saturating_sub t e)) u
  slept-poll owners u e ts before after me i j t all is own =
      settled-poll u me i j (saturating_sub t e) (
        ap u.waiter (sym own)
        ∙ All-middle (Settled owners u.waiter e) before (me.intrusive_node.link, (j, t)) after
            (subst (All (Settled owners u.waiter e)) is all))

  -- A delay that sleeps is ready at its first poll after a poll of the runner if no more time was
  -- left of it than the backend says has passed, and still pending if more was; its poll changes
  -- nothing. The timer is well formed, with handles and a backend, the lists of the runner's calls
  -- lie in fresh memory, and a loop has one round more than there are timers.
  pub poll_delay-poll_runner :
      (fuel : ℕ) (local : LinkList) (w : Memory ops) (before after ns : Sleepers) (me : DelayFuture)
      (i j k : Waker) (t : ℕ) (b : ops.B)
      → Fresh w.links local
      → IsTimer ops w (before ++ (me.intrusive_node.link, (j, t)) ∷ after) ns
      → w.links.owner me.intrusive_node.link ≡ me.intrusive_node.data_at
      → w.self.backend ≡ some b
      → w.self.rc_delays.ref_count ≢ 0
      → length (before ++ (me.intrusive_node.link, (j, t)) ∷ after) < fuel
      → length ns < fuel
      → (u : Memory ops) × (poll_runner ops fuel local local k w ≡ ok pending u)
        × (poll_delay ops me i u
            ≡ ok (if is_zero (saturating_sub t (ops.pause b).1) then ready tt else pending) u)
  poll_delay-poll_runner fuel local w before after ns me i j k t b fresh is own backend handles few
        few_new =
      let ts = before ++ (me.intrusive_node.link, (j, t)) ∷ after in
      let e = (ops.pause b).1 in
      let p = poll_runner-serves ops fuel local w ts ns k b fresh is backend handles few few_new in
      (p.0, p.1, slept-poll w.links.owner p.0 e ts before after me i j t p.7 refl own)
