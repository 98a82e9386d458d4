-- ===== src/Futures/First.antt =====
-- src/prelude/mod.rs: `Race` is ready with the first result, and `TimeoutFuture` is a race with a
-- delay.
use embedded_async.Base.{
  ℕ, suc, ◌≡◌, refl, sym, subst, List, length, Option, none, some, Outcome, ok, fault, panic,
  out_of_fuel, pure, and_then,
}
use embedded_async.World.{Waker, Poll, pending, ready}
use embedded_async.Futures.{
  poll_to_option, Poller, Race, race, race_result, race_second, poll_race, Timed, in_time,
  timeout_error, TimeoutFuture, timed, poll_timeout,
}
use embedded_async.Futures.Turns.{After, Polls, then-Polls, run, run-ready}

-- Both futures go on, and there is no result yet.
abbrev pub RaceStill : {F G A B : Type 0} (X : F → Type 0) (Y : G → Type 0) → Race F G A B → Type 0
RaceStill X Y r = X r.fut1 × Y r.fut2 × (r.res ≡ (none, none))

-- One result, and only one.
abbrev pub GivesOne : {A B : Type 0} → (A → Type 0) → (B → Type 0) → Option A × Option B → Type 0
GivesOne X Y (some a, none) = X a
GivesOne X Y (none, some b) = Y b
GivesOne X Y (none, none) = ⊥
GivesOne X Y (some _, some _) = ⊥

module _ {S F G A B : Type 0} (p : Poller S F A) (q : Poller S G B) (Inv : S → Type 0)
    (GA : A → Type 0) (GB : B → Type 0) (X X' : F → Type 0) (Y Y' : G → Type 0)
    (turn1 : (f : F) (k : Waker) (w : S) → Inv w → X f → Polls Inv X' GA (p f k w))
    (turn2 : (g : G) (k : Waker) (w : S) → Inv w → Y g → Polls Inv Y' GB (q g k w)) where
  abbrev Goal : Outcome S (Race F G A B × Poll (Option A × Option B)) → Type 0
  Goal = Polls Inv (RaceStill X' Y') (GivesOne GA GB)

  answered : Outcome S (Race F G A B) → Outcome S (Race F G A B × Poll (Option A × Option B))
  answered o = and_then o (λ me. pure (race_result me))

  second-Goal :
      (f : F) (g : G) (r : Poll B) (w : S)
      → X' f
      → After Inv Y' GB g r w
      → Goal (ok (race_result (record { fut1 = f; fut2 = g; res = (none, poll_to_option r) })) w)
  second-Goal f g pending w x (i, y) = (i, (x, y, refl))
  second-Goal f g (ready b) w x (i, y) = (i, y)

  first-Goal :
      (g : G) (k : Waker)
      → Y g
      → (f : F) (r : Poll A) (w : S) → After Inv X' GA f r w
      → Goal (answered (race_second p q (race f g) k (f, poll_to_option r) w))
  unfolding answered
  first-Goal g k y f (ready a) w (i, x) = (i, x)
  first-Goal g k y f pending w (i, x) =
      then-Polls Inv Y' GB (λ o. Goal (answered o))
        (λ gy. pure (record { fut1 = f; fut2 = gy.0; res = (none, poll_to_option gy.1) })) (q g k w)
        (turn2 g k w i y) (λ g2 r u after. second-Goal f g2 r u x after)

  -- If a poll of each future, when it is as `X` or `Y` says, ends without a stop and leaves it ready
  -- or as `X'` or `Y'` says, then so does a poll of their race: it is ready with exactly one result,
  -- or both futures are left as `X'` and `Y'` say.
  pub poll_race-Polls :
      (j : Race F G A B) (k : Waker) (w : S)
      → Inv w
      → RaceStill X Y j
      → Polls Inv (RaceStill X' Y') (GivesOne GA GB) (poll_race p q j k w)
  unfolding poll_race answered
  poll_race-Polls j k w i (x, y, e) =
      subst (λ r. Goal (poll_race p q (record { fut1 = j.fut1; fut2 = j.fut2; res = r }) k w))
        (sym e)
        (then-Polls Inv X' GA (λ o. Goal (answered o))
          (λ fx. race_second p q (race j.fut1 j.fut2) k (fx.0, poll_to_option fx.1)) (p j.fut1 k w)
          (turn1 j.fut1 k w i x) (first-Goal j.fut2 k y))

module _ {S F G A B : Type 0} (p : Poller S F A) (q : Poller S G B) (Inv : S → Type 0)
    (GA : A → Type 0) (GB : B → Type 0) (X : ℕ → F → Type 0) (Y : ℕ → G → Type 0)
    (late : (f : F) (g : G) → X 0 f → Y 0 g → ⊥)
    (turn1 : (n : ℕ) (f : F) (k : Waker) (w : S)
      → Inv w
      → X (suc n) f
      → Polls Inv (X n) GA (p f k w))
    (turn2 : (n : ℕ) (g : G) (k : Waker) (w : S)
      → Inv w
      → Y (suc n) g
      → Polls Inv (Y n) GB (q g k w)) where
  -- If one of two futures at least is ready within as many polls as there are wakers, whatever
  -- happens to the shared memory in between, and the other one can be polled as often, then their
  -- race is ready by then with exactly one result.
  pub race-ready :
      (ks : List Waker) (f : F) (g : G) (w : S)
      → Inv w
      → X (length ks) f
      → Y (length ks) g
      → (ab : Option A × Option B) × (u : S) × (run (poll_race p q) (race f g) ks w
          ≡ ok (some ab) u)
        × Inv u
        × GivesOne GA GB ab
  race-ready ks f g w i x y =
      run-ready (poll_race p q) Inv (λ n. RaceStill (X n) (Y n)) (GivesOne GA GB)
        (λ j s. late j.fut1 j.fut2 s.0 s.1)
        (λ n. poll_race-Polls p q Inv GA GB (X (suc n)) (X n) (Y (suc n)) (Y n) (turn1 n) (turn2 n))
        ks (race f g) w i (x, y, refl)

-- A result in time is as `GA` says; a timeout is one because of `Late`.
abbrev pub GivesTimed : {A : Type 0} → (A → Type 0) → Type 0 → Timed A → Type 0
GivesTimed GA Late (in_time a) = GA a
GivesTimed GA Late timeout_error = Late

-- The poll of the future ends, and the future is pending.
abbrev pub IsPending : {S F A : Type 0} → Poller S F A → F → Waker → S → Type 0
IsPending {S} {F} p f k w = (g : F) × (u : S) × (p f k w ≡ ok (g, pending) u)

module _ {S F D A : Type 0} (p : Poller S F A) (d : Poller S D (Unit {0})) (Inv : S → Type 0)
    (GA : A → Type 0) (Elapsed : Type 0) (X X' : F → Type 0) (Y Y' : D → Type 0)
    (turn1 : (f : F) (k : Waker) (w : S) → Inv w → X f → Polls Inv X' GA (p f k w))
    (turn2 : (g : D) (k : Waker) (w : S)
      → Inv w
      → Y g
      → Polls Inv Y' (λ _. Elapsed) (d g k w)) where
  abbrev TimedGoal : F → Waker → S → Outcome S (TimeoutFuture F D A × Poll (Timed A)) → Type 0
  TimedGoal f k w =
      Polls Inv (λ t. RaceStill X' Y' t.fut) (GivesTimed GA (IsPending p f k w × Elapsed))

  -- The end of a poll of the timeout, from the outcome of the race's polls on.
  timed_end : Outcome S (Race F D A (Unit {0})) → Outcome S (TimeoutFuture F D A × Poll (Timed A))
  timed_end o =
      and_then (and_then o (λ me. pure (race_result me)))
        (λ jr. pure (record { fut = jr.0 }, timed jr.1))

  delay-Goal :
      (f f' : F) (k : Waker) (w : S)
      → IsPending p f k w
      → X' f'
      → (g : D) (r : Poll (Unit {0})) (u : S) → After Inv Y' (λ _. Elapsed) g r u
      → TimedGoal f k w
          (timed_end (ok (record { fut1 = f'; fut2 = g; res = (none, poll_to_option r) }) u))
  unfolding timed_end
  delay-Goal f f' k w late x g pending u (i, y) = (i, (x, y, refl))
  delay-Goal f f' k w late x g (ready _) u (i, e) = (i, (late, e))

  future-Goal :
      (f : F) (g : D) (k : Waker) (w : S)
      → Y g
      → (o : Outcome S (F × Poll A)) → p f k w ≡ o
      → Polls Inv X' GA o
      → TimedGoal f k w
          (timed_end (and_then o (λ fx. race_second p d (race f g) k (fx.0, poll_to_option fx.1))))
  unfolding timed_end
  future-Goal f g k w y (ok (f', ready a) u) e (i, a_ok) = (i, a_ok)
  future-Goal f g k w y (ok (f', pending) u) e (i, x) =
      then-Polls Inv Y' (λ _. Elapsed) (λ o. TimedGoal f k w (timed_end o))
        (λ gy. pure (record { fut1 = f'; fut2 = gy.0; res = (none, poll_to_option gy.1) }))
        (d g k u) (turn2 g k u i y) (delay-Goal f f' k w (f', u, e) x)
  future-Goal f g k w y fault e polls = absurd polls
  future-Goal f g k w y panic e polls = absurd polls
  future-Goal f g k w y out_of_fuel e polls = absurd polls

  -- If a poll of the future and one of the delay, when they are as `X` and `Y` say, end without a
  -- stop and leave them ready or as `X'` and `Y'` say, then so does a poll of the timeout: it is
  -- ready with the future's result, or with an error, and then the future was pending in that poll
  -- and the delay has elapsed.
  pub poll_timeout-Polls :
      (t : TimeoutFuture F D A) (k : Waker) (w : S)
      → Inv w
      → RaceStill X Y t.fut
      → Polls Inv
          (λ u. RaceStill X' Y' u.fut)
          (GivesTimed GA (IsPending p t.fut.fut1 k w × Elapsed))
          (poll_timeout p d t k w)
  unfolding poll_timeout poll_race timed_end
  poll_timeout-Polls t k w i (x, y, e) =
      let f = t.fut.fut1 in
      let g = t.fut.fut2 in
      subst
        (λ r.
          TimedGoal f k w
            (poll_timeout p d (record { fut = record { fut1 = f; fut2 = g; res = r } }) k w))
        (sym e) (future-Goal f g k w y (p f k w) refl (turn1 f k w i x))
