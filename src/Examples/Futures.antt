-- ===== src/Examples/Futures.antt =====
-- The theorems on the combinators of futures at concrete inputs: tasks that yield.
use embedded_async.Base.{◌≡◌, refl, ◌++◌, Cmd, List, [], ◌∷◌, Option, none, some, ok}
use embedded_async.World.{Waker}
use embedded_async.Futures.{Join, join, poll_join, race, poll_race, timed_by, poll_timeout}
use embedded_async.Futures.Turns.{Polls, run}
use embedded_async.Futures.Both.{BothStill, GivesBoth, poll_join-Polls, join-ready}
use embedded_async.Futures.First.{
  RaceStill, GivesOne, GivesTimed, IsPending, race-ready, poll_timeout-Polls,
}
use embedded_async.Task.{YieldNow, poll_yield, yield_now}
use embedded_async.Task.Yield.{YieldDue, yield-Polls}

abbrev Any : {A : Type 0} → A → Type 0
Any a = Unit {0}

never : (me : YieldNow) → YieldDue 0 me → ⊥
never me due = due

join-ready_example :
    (ab : Unit {0} × Unit {0}) × (u : List Waker) × (run
        (poll_join poll_yield poll_yield)
        (join yield_now yield_now)
        (4 ∷ 5 ∷ [])
        []
      ≡ ok (some ab) u)
    × Any u
    × Any ab.0
    × Any ab.1
join-ready_example =
    join-ready poll_yield poll_yield Any Any Any YieldDue YieldDue never never
      (λ n f k w _ due. yield-Polls n f k w due) (λ n f k w _ due. yield-Polls n f k w due)
      (4 ∷ 5 ∷ []) yield_now yield_now [] tt tt tt

abbrev half_done : Join YieldNow YieldNow (Unit {0}) (Unit {0})
half_done = record { fut1 = yield_now; fut2 = yield_now; res = (some tt, none) }

poll_join-Polls_example :
    Polls Any
      (BothStill (YieldDue 1) (YieldDue 1) Any Any)
      (GivesBoth Any Any)
      (poll_join poll_yield poll_yield half_done 7 [])
poll_join-Polls_example =
    poll_join-Polls poll_yield poll_yield Any Any Any (YieldDue 2) (YieldDue 1) (YieldDue 2)
      (YieldDue 1) (λ f k w _ due. yield-Polls 1 f k w due) (λ f k w _ due. yield-Polls 1 f k w due)
      half_done 7 [] tt (tt, tt, refl)

race-ready_example :
    (ab : Option (Unit {0}) × Option (Unit {0})) × (u : List Waker) × (run
        (poll_race poll_yield poll_yield)
        (race yield_now yield_now)
        (4 ∷ 5 ∷ [])
        []
      ≡ ok (some ab) u)
    × Any u
    × GivesOne Any Any ab
race-ready_example =
    race-ready poll_yield poll_yield Any Any Any YieldDue YieldDue (λ f g due _. due)
      (λ n f k w _ due. yield-Polls n f k w due) (λ n f k w _ due. yield-Polls n f k w due)
      (4 ∷ 5 ∷ []) yield_now yield_now [] tt tt tt

poll_timeout-Polls_example :
    Polls Any
      (λ u. RaceStill (YieldDue 1) (YieldDue 1) u.fut)
      (GivesTimed Any (IsPending poll_yield yield_now 7 [] × Unit {0}))
      (poll_timeout poll_yield poll_yield (timed_by yield_now yield_now) 7 [])
poll_timeout-Polls_example =
    poll_timeout-Polls poll_yield poll_yield Any Any (Unit {0}) (YieldDue 2) (YieldDue 1)
      (YieldDue 2) (YieldDue 1) (λ f k w _ due. yield-Polls 1 f k w due)
      (λ f k w _ due. yield-Polls 1 f k w due) (timed_by yield_now yield_now) 7 [] tt (tt, tt, refl)

-- The drop of a delay wakes the task 9.
abbrev note : YieldNow → Cmd (List Waker) (Unit {0})
note me ws = ok tt (ws ++ 9 ∷ [])
