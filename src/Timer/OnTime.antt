-- ===== src/Timer/OnTime.antt =====
-- src/timer/mod.rs: the polls of the runner, one after the other, and the time that passes.
use mathlib.Core.List.{append-nil}
use embedded_async.Base.{
  ℕ, ◌+◌, ◌<◌, ◌≤◌, ◌≡◌, ◌≢◌, refl, sym, ap, ◌∙◌, subst, List, [], ◌∷◌, ◌++◌, length, length-append,
  count, count-append, arith, some, ok, pure, ◌>>=◌, Bool-cases, inl, inr,
}
use embedded_async.Intrusive.Links.{LinkList}
use embedded_async.Intrusive.Links.Lifetime.{Fresh}
use embedded_async.World.{Waker}
use embedded_async.Timer.{TimerBackend, TimerCmd, poll_runner, is_zero, saturating_sub}
use embedded_async.Timer.Sleepers.{Sleepers, remaining, expired, remaining_zero, expired_zero}
use embedded_async.Timer.Loop.{Memory}
use embedded_async.Timer.Elapse.{IsTimer}
use embedded_async.Timer.Runner.{started, next_time, poll_runner-serves}

-- The passing of time in two parts is its passing at once.
remaining_add : (a b : ℕ) (ts : Sleepers) → remaining b (remaining a ts) ≡ remaining (a + b) ts
remaining_add a b [] = refl
remaining_add a b ((x, (k, t)) ∷ ts) = elim (Bool-cases (is_zero (saturating_sub t a))) [
  | inl over ↦ ground (arith, over, remaining_add a b ts)
  | inr left ↦ ground (arith, left, remaining_add a b ts)
]

count-expired_add :
    (j a b : ℕ) (ts : Sleepers)
    → count j (expired a ts) + count j (expired b (remaining a ts)) ≡ count j (expired (a + b) ts)
count-expired_add j a b [] = refl
count-expired_add j a b ((x, (k, t)) ∷ ts) = elim (Bool-cases (is_zero (saturating_sub t a))) [
  | inl over ↦ ground (arith, over, count-expired_add j a b ts)
  | inr left ↦ ground (arith, left, count-expired_add j a b ts)
]

remaining-append :
    (e : ℕ) (ts us : Sleepers) → remaining e (ts ++ us) ≡ remaining e ts ++ remaining e us
remaining-append e [] us = refl
remaining-append e ((x, (k, t)) ∷ ts) us = ground (arith, remaining-append e ts us)

count-expired-append :
    (j e : ℕ) (ts us : Sleepers)
    → count j (expired e (ts ++ us)) ≡ count j (expired e ts) + count j (expired e us)
count-expired-append j e [] us = omega arith
count-expired-append j e ((x, (k, t)) ∷ ts) us = ground (arith, count-expired-append j e ts us)

pub length-remaining : (e : ℕ) (ts : Sleepers) → length (remaining e ts) ≤ length ts
length-remaining e [] = omega arith
length-remaining e ((x, (k, t)) ∷ ts) = ground (arith, length-remaining e ts)

module _ (ops : TimerBackend) (fuel : ℕ) (local : LinkList) where
  -- The runner is polled again and again, in tasks that the wakers given wake.
  unfoldable pub poll_each : List Waker → TimerCmd ops (Unit {0})
  poll_each [] = pure tt
  poll_each (k ∷ ks) = do r ← poll_runner ops fuel local local k; poll_each ks

  -- The backend after a poll of the runner.
  abbrev pub served : Waker → ops.B → Sleepers → Sleepers → ops.B
  served k b ts ns = started ops k (next_time (ops.pause b).1 ts ns) (ops.pause b).0

  -- The time that the backend says has passed, over polls while no new timer comes.
  abbrev pub passed : List Waker → ops.B → Sleepers → ℕ
  passed [] b ts = 0
  passed (k ∷ ks) b ts =
      let rest = passed ks (served k b ts []) (remaining (ops.pause b).1 ts) in
      (ops.pause b).1 + rest

  -- The same from the second poll on, after a first one that takes new timers over.
  abbrev pub later : Waker → List Waker → ops.B → Sleepers → Sleepers → ℕ
  later k ks b ts ns = passed ks (served k b ts ns) (remaining (ops.pause b).1 ts ++ ns)

  polls-remaining :
      (ks : List Waker) (w : Memory ops) (ts : Sleepers) (b : ops.B)
      → Fresh w.links local
      → IsTimer ops w ts []
      → w.self.backend ≡ some b
      → w.self.rc_delays.ref_count ≢ 0
      → length ts < fuel
      → (u : Memory ops) × (poll_each ks w ≡ ok tt u)
        × IsTimer ops u (remaining (passed ks b ts) ts) []
        × ((j : Waker) → count j u.woken ≡ count j w.woken + count j (expired (passed ks b ts) ts))
  unfolding poll_each
  polls-remaining [] w ts b fresh is backend handles few =
      (w, refl, rw (remaining_zero ts is.time) is, λ j. rw (expired_zero ts is.time) (omega arith))
  polls-remaining (k ∷ ks) w ts b fresh is backend handles few =
      let e = (ops.pause b).1 in
      let rest = remaining e ts in
      let p =
        poll_runner-serves ops fuel local w ts [] k b fresh is backend handles few (omega arith) in
      let is' = subst (λ us. IsTimer ops p.0 us []) (append-nil rest) p.2 in
      let q =
        polls-remaining ks p.0 rest (served k b ts []) p.6 is' (ap (λ c. c.backend) p.4)
          (λ z. handles (ap (λ c. c.rc_delays.ref_count) (sym p.4) ∙ z))
          (omega (arith, length-remaining e ts)) in
      let more = passed ks (served k b ts []) rest in
      (
        q.0,
        rw (p.1, q.1),
        subst (λ us. IsTimer ops q.0 us []) (remaining_add e more ts) q.2,
        λ j. omega (
          arith,
          q.3 j,
          ap (count j) p.5,
          count-append j w.woken (expired e ts),
          count-expired_add j e more ts,
        ),
      )

  -- However often the runner of a well-formed timer with handles and a backend is polled, once at
  -- least: the timers that slept are those, in order, that had more time left than has passed in
  -- all the polls, with what is left of it, and behind them those of the new ones that had more
  -- than has passed since the first poll, which takes them over; and of the others every task was
  -- woken as often as it has timers among them, and no other. The time is what the backend says at
  -- each poll; the call's own lists lie in fresh memory, and a loop has one round more than there
  -- are timers.
  pub poll_each-on_time :
      (k : Waker) (ks : List Waker) (w : Memory ops) (ts ns : Sleepers) (b : ops.B)
      → Fresh w.links local
      → IsTimer ops w ts ns
      → w.self.backend ≡ some b
      → w.self.rc_delays.ref_count ≢ 0
      → length ts + length ns < fuel
      → (u : Memory ops) × (poll_each (k ∷ ks) w ≡ ok tt u)
        × IsTimer ops u
            (remaining ((ops.pause b).1 + later k ks b ts ns) ts
              ++ remaining (later k ks b ts ns) ns)
            []
        × ((j : Waker)
            → count j u.woken
              ≡ count j w.woken
                + (count j (expired ((ops.pause b).1 + later k ks b ts ns) ts)
                    + count j (expired (later k ks b ts ns) ns)))
  unfolding poll_each
  poll_each-on_time k ks w ts ns b fresh is backend handles few =
      let e1 = (ops.pause b).1 in
      let rest = remaining e1 ts in
      let p =
        poll_runner-serves ops fuel local w ts ns k b fresh is backend handles (omega arith)
          (omega arith) in
      let e = later k ks b ts ns in
      let q =
        polls-remaining ks p.0 (rest ++ ns) (served k b ts ns) p.6 p.2 (ap (λ c. c.backend) p.4)
          (λ z. handles (ap (λ c. c.rc_delays.ref_count) (sym p.4) ∙ z))
          (omega (arith, length-append {0} rest ns, length-remaining e1 ts)) in
      (
        q.0,
        rw (p.1, q.1),
        subst (λ us. IsTimer ops q.0 us [])
            (remaining-append e rest ns ∙ ap (λ us. us ++ remaining e ns) (remaining_add e1 e ts))
            q.2,
        λ j. omega (
          arith,
          q.3 j,
          ap (count j) p.5,
          count-append j w.woken (expired e1 ts),
          count-expired-append j e rest ns,
          count-expired_add j e1 e ts,
        ),
      )
