-- ===== src/Futures/Late.antt =====
-- src/prelude/mod.rs: `DelayFuture` polls its future only once its delay has elapsed, from then on
-- every time, and never the delay again, which goes as soon as it has elapsed.
use embedded_async.Base.{ℕ, zero, suc, ◌+◌, ◌≤◌, Option, none, some, arith, pure, Cmd}
use embedded_async.World.{Waker, Poll, pending, ready}
use embedded_async.Futures.{Poller, DelayFuture, poll_taking, poll_inner, after_delay, poll_delay}
use embedded_async.Futures.Turns.{After, Polls, then-Polls}

module _ {S F D A : Type 0} (p : Poller S F A) (d : Poller S D (Unit {0}))
    (drop : D → Cmd S (Unit {0})) (Inv : S → Type 0) (GA : A → Type 0) (X : ℕ → F → Type 0)
    (Y : ℕ → D → Type 0) (late1 : (f : F) → X 0 f → ⊥) (late2 : (g : D) → Y 0 g → ⊥)
    (turn1 : (n : ℕ) (f : F) (k : Waker) (w : S)
      → Inv w
      → X (suc n) f
      → Polls Inv (X n) GA (p f k w))
    (turn2 : (n : ℕ) (g : D) (k : Waker) (w : S)
      → Inv w
      → Y (suc n) g
      → Polls Inv (Y n) (λ _. Unit {0}) (poll_taking d drop g k w)) where
  -- The polls that are left to the delay, if it has not elapsed, and to the future are `n` together;
  -- the poll that ends the delay is also the first one of the future.
  abbrev LateDue : ℕ → F → Option D → Type 0
  LateDue n f none = (b : ℕ) × (b ≤ n) × X b f
  LateDue n f (some g) = (a b : ℕ) × (a + b ≤ suc n) × Y a g × X b f

  abbrev Due : ℕ → DelayFuture F D → Type 0
  Due n me = LateDue n me.fut me.delay

  inner-Polls :
      (n b : ℕ) (f : F) (k : Waker) (w : S)
      → Inv w
      → X b f
      → b ≤ suc n
      → Polls Inv (Due n) GA (poll_inner p d drop none f k w)
  unfolding poll_inner
  inner-Polls n zero f k w i x few = absurd (late1 f x)
  inner-Polls n (suc b) f k w i x few =
      then-Polls Inv (X b) GA (Polls Inv (Due n) GA)
        (λ fr. pure (record { fut = fr.0; delay = none }, fr.1)) (p f k w) (turn1 b f k w i x) after
    where
      after :
          (g : F) (r : Poll A) (u : S)
          → After Inv (X b) GA g r u
          → After Inv (Due n) GA (record { fut = g; delay = none }) r u
      after g pending u (j, y) = (j, (b, omega arith, y))
      after g (ready a) u (j, y) = (j, y)

  pub poll_delay-Polls :
      (n : ℕ) (me : DelayFuture F D) (k : Waker) (w : S)
      → Inv w
      → Due (suc n) me
      → Polls Inv (Due n) GA (poll_delay p d drop me k w)
  unfolding poll_delay
  poll_delay-Polls n me k w i due = go me.fut me.delay due
    where
      after :
          (a b : ℕ) (f : F)
          → X b f
          → a + b ≤ suc n
          → b ≤ suc n
          → (g : D) (r : Poll (Unit {0})) (u : S) → After Inv (Y a) (λ _. Unit {0}) g r u
          → Polls Inv (Due n) GA (after_delay p d drop f k (g, r) u)
      after a b f x few small g pending u (j, y) = (j, (a, b, omega arith, y, x))
      after a b f x few small g (ready _) u (j, _) = inner-Polls n b f k u j x small

      go :
          (f : F) (rest : Option D)
          → LateDue (suc n) f rest
          → Polls Inv (Due n) GA (poll_delay p d drop (record { fut = f; delay = rest }) k w)
      go f none (b, few, x) = inner-Polls n b f k w i x few
      go f (some g) (zero, b, few, y, x) = absurd (late2 g y)
      go f (some g) (suc a, b, few, y, x) =
          then-Polls Inv (Y a) (λ _. Unit {0}) (Polls Inv (Due n) GA) (after_delay p d drop f k)
            (poll_taking d drop g k w) (turn2 a g k w i y)
            (after a b f x (omega arith) (omega arith))
