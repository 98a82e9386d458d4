-- ===== src/Task/Yield.antt =====
-- src/task/mod.rs: a task that yields is run again, and then goes on.
use embedded_async.Base.{
  ℕ, zero, suc, ◌≡◌, refl, Bool, true, false, List, [], ◌∷◌, ◌++◌, ok, some, arith,
}
use embedded_async.World.{Waker}
use embedded_async.Futures.Turns.{Polls, run}
use embedded_async.Task.{YieldNow, poll_yield, yield_now}

-- The polls that are left.
abbrev pub YieldDue : ℕ → YieldNow → Type 0
YieldDue zero me = ⊥
YieldDue (suc zero) me = me.yielded ≡ true
YieldDue (suc (suc n)) me = Unit {0}

pub yield-Polls :
    (n : ℕ) (me : YieldNow) (k : Waker) (woken : List Waker)
    → YieldDue (suc n) me
    → Polls (λ _. Unit {0}) (YieldDue n) (λ _. Unit {0}) (poll_yield me k woken)
unfolding poll_yield
yield-Polls n me k woken due = go n me.yielded due
  where
    go :
        (n : ℕ) (b : Bool)
        → YieldDue (suc n) (record { yielded = b })
        → Polls
            (λ _. Unit {0})
            (YieldDue n)
            (λ _. Unit {0})
            (poll_yield (record { yielded = b }) k woken)
    go n true due = (tt, tt)
    go zero false due = ground arith
    go (suc zero) false due = (tt, refl)
    go (suc (suc n)) false due = (tt, tt)

-- A task that yields wakes itself at the first poll, so that it is polled again, and goes on at the
-- second one, having woken nobody else.
pub yield_now-wakes :
    (k j : Waker) (ks woken : List Waker)
    → run poll_yield yield_now (k ∷ j ∷ ks) woken ≡ ok (some tt) (woken ++ k ∷ [])
unfolding poll_yield run
yield_now-wakes k j ks woken = refl
