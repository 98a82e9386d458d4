-- ===== src/Futures/Both.antt =====
-- src/prelude/mod.rs: `Join` polls each future until it is ready, and is ready once both are.
use embedded_async.Base.{
  ℕ, suc, ◌≡◌, refl, List, length, true, ◌||◌, arith, Option, none, some, is_none, Outcome, ok, Cmd,
  pure, ◌>>=◌, and_then,
}
use embedded_async.World.{Waker, Poll, pending, ready}
use embedded_async.Futures.{
  poll_to_option, Poller, Join, join, join_result, poll_if_none, poll_join,
}
use embedded_async.Futures.Turns.{After, Polls, then-Polls, run, run-ready}

-- A half of a join: the future goes on as `Still` says, or its result is as `Gives` says.
abbrev pub Half : {F A : Type 0} → (F → Type 0) → (A → Type 0) → F → Option A → Type 0
Half Still Gives f none = Still f
Half Still Gives f (some a) = Gives a

abbrev pub GivesBoth : {A B : Type 0} → (A → Type 0) → (B → Type 0) → A × B → Type 0
GivesBoth X Y ab = X ab.0 × Y ab.1

-- Both halves, and a result of at least one of them is not there.
abbrev pub BothStill :
    {F G A B : Type 0} (X : F → Type 0) (Y : G → Type 0) (GA : A → Type 0) (GB : B → Type 0)
    → Join F G A B
    → Type 0
BothStill X Y GA GB j =
    Half X GA j.fut1 j.res.0
    × Half Y GB j.fut2 j.res.1
    × ((is_none j.res.0 || is_none j.res.1) ≡ true)

module _ {S F A : Type 0} (p : Poller S F A) (Inv : S → Type 0) (Gives : A → Type 0)
    (X X' : F → Type 0)
    (turn : (f : F) (k : Waker) (w : S) → Inv w → X f → Polls Inv X' Gives (p f k w)) where
  half-Polls :
      {B : Type 0} (Q : Outcome S B → Type 0) (c : F × Option A → Cmd S B)
      → (f : F) (a : Option A) (k : Waker) (w : S) → Inv w
      → Half X Gives f a
      → ((g : F) (b : Option A) (u : S) → Inv u → Half X' Gives g b → Q (c (g, b) u))
      → Q (and_then (poll_if_none p f a k w) c)
  unfolding poll_if_none
  half-Polls Q c f (some a) k w i x next = next f (some a) w i x
  half-Polls Q c f none k w i x next =
      then-Polls Inv X' Gives (λ o. Q (and_then o c)) (λ g. pure (g.0, poll_to_option g.1))
        (p f k w) (turn f k w i x) after
    where
      after :
          (g : F) (r : Poll A) (u : S) → After Inv X' Gives g r u → Q (c (g, poll_to_option r) u)
      after g pending u (j, y) = next g none u j y
      after g (ready b) u (j, y) = next g (some b) u j y

module _ {S F G A B : Type 0} (p : Poller S F A) (q : Poller S G B) (Inv : S → Type 0)
    (GA : A → Type 0) (GB : B → Type 0) where
  result-Polls :
      (X : F → Type 0) (Y : G → Type 0) (f : F) (g : G) (a : Option A) (b : Option B) (w : S)
      → Inv w
      → Half X GA f a
      → Half Y GB g b
      → Polls Inv (BothStill X Y GA GB) (GivesBoth GA GB) (ok (join_result f g a b) w)
  result-Polls X Y f g (some a) (some b) w i x y = (i, (x, y))
  result-Polls X Y f g (some a) none w i x y = (i, (x, y, refl))
  result-Polls X Y f g none b w i x y = (i, (x, y, refl))

  module _ (X X' : F → Type 0) (Y Y' : G → Type 0)
      (turn1 : (f : F) (k : Waker) (w : S) → Inv w → X f → Polls Inv X' GA (p f k w))
      (turn2 : (g : G) (k : Waker) (w : S) → Inv w → Y g → Polls Inv Y' GB (q g k w)) where
    -- If a poll of each future, when it is as `X` or `Y` says, ends without a stop and leaves it
    -- ready or as `X'` or `Y'` says, then a poll of their join does so for each half that has no
    -- result yet, whatever a future that had one would do if it was polled again; the join is ready
    -- with both results once both are there, and keeps the first one until then.
    pub poll_join-Polls :
        (j : Join F G A B) (k : Waker) (w : S)
        → Inv w
        → BothStill X Y GA GB j
        → Polls Inv (BothStill X' Y' GA GB) (GivesBoth GA GB) (poll_join p q j k w)
    unfolding poll_join
    poll_join-Polls j k w i (x, y, some_left) =
        half-Polls p Inv GA X X' turn1 Goal then_second j.fut1 j.res.0 k w i x (λ f a u i2 x2.
          half-Polls q Inv GB Y Y' turn2 Goal (λ gb. pure (join_result f gb.0 a gb.1)) j.fut2
            j.res.1 k u i2 y (λ g b v i3 y2. result-Polls X' Y' f g a b v i3 x2 y2))
      where
        Goal : Outcome S (Join F G A B × Poll (A × B)) → Type 0
        Goal = Polls Inv (BothStill X' Y' GA GB) (GivesBoth GA GB)

        then_second : F × Option A → Cmd S (Join F G A B × Poll (A × B))
        then_second fa =
            poll_if_none q j.fut2 j.res.1 k >>= λ gb. pure (join_result fa.0 gb.0 fa.1 gb.1)

module _ {S F G A B : Type 0} (p : Poller S F A) (q : Poller S G B) (Inv : S → Type 0)
    (GA : A → Type 0) (GB : B → Type 0) (X : ℕ → F → Type 0) (Y : ℕ → G → Type 0)
    (late1 : (f : F) → X 0 f → ⊥) (late2 : (g : G) → Y 0 g → ⊥)
    (turn1 : (n : ℕ) (f : F) (k : Waker) (w : S)
      → Inv w
      → X (suc n) f
      → Polls Inv (X n) GA (p f k w))
    (turn2 : (n : ℕ) (g : G) (k : Waker) (w : S)
      → Inv w
      → Y (suc n) g
      → Polls Inv (Y n) GB (q g k w)) where
  abbrev Due : ℕ → Join F G A B → Type 0
  Due n = BothStill (X n) (Y n) GA GB

  late : (j : Join F G A B) → Due 0 j → ⊥
  late j = go j.fut1 j.fut2 j.res.0 j.res.1
    where
      go :
          (f : F) (g : G) (a : Option A) (b : Option B)
          → Half (X 0) GA f a × Half (Y 0) GB g b × ((is_none a || is_none b) ≡ true)
          → ⊥
      go f g none b (x, _, _) = late1 f x
      go f g (some a) none (_, y, _) = late2 g y
      go f g (some a) (some b) (_, _, e) = ground arith

  -- If each of two futures is ready within as many polls as there are wakers, whatever happens to
  -- the shared memory in between, then so is their join, with the results of both.
  pub join-ready :
      (ks : List Waker) (f : F) (g : G) (w : S)
      → Inv w
      → X (length ks) f
      → Y (length ks) g
      → (ab : A × B) × (u : S) × (run (poll_join p q) (join f g) ks w ≡ ok (some ab) u)
        × Inv u
        × GA ab.0
        × GB ab.1
  join-ready ks f g w i x y =
      let done =
        run-ready (poll_join p q) Inv Due (GivesBoth GA GB) late
          (λ n.
            poll_join-Polls p q Inv GA GB (X (suc n)) (X n) (Y (suc n)) (Y n) (turn1 n) (turn2 n))
          ks (join f g) w i (x, y, refl) in
      (done.0, done.1, done.2, done.3, done.4.0, done.4.1)
