-- ===== src/Futures/Turns.antt =====
-- What a poll of a future gives, as a predicate on its outcome, and what follows for many polls.
use embedded_async.Base.{
  ℕ, suc, ◌≡◌, refl, List, [], ◌∷◌, length, Option, none, some, Outcome, ok, fault, panic,
  out_of_fuel, Cmd, pure, ◌>>=◌, and_then,
}
use embedded_async.World.{Waker, Poll, pending, ready}
use embedded_async.Futures.{Poller}

module _ {S F A : Type 0} (Inv : S → Type 0) (Still : F → Type 0) (Gives : A → Type 0) where
  -- A pending future is as `Still` says, a result as `Gives` says.
  abbrev pub After : F → Poll A → S → Type 0
  After f pending w = Inv w × Still f
  After f (ready a) w = Inv w × Gives a

  -- The poll ends without a stop.
  abbrev pub Polls : Outcome S (F × Poll A) → Type 0
  Polls (ok (f, r) w) = After f r w
  Polls fault = ⊥
  Polls panic = ⊥
  Polls out_of_fuel = ⊥

  pub then-Polls :
      {B : Type 0} (Q : Outcome S B → Type 0) (c : F × Poll A → Cmd S B)
      → (o : Outcome S (F × Poll A)) → Polls o
      → ((f : F) (r : Poll A) (w : S) → After f r w → Q (c (f, r) w))
      → Q (and_then o c)
  then-Polls Q c (ok (f, r) w) polls next = next f r w polls
  then-Polls Q c fault polls next = absurd polls
  then-Polls Q c panic polls next = absurd polls
  then-Polls Q c out_of_fuel polls next = absurd polls

module _ {S F A : Type 0} (p : Poller S F A) where
  abbrev pub or_else : (F → Cmd S (Option A)) → F × Poll A → Cmd S (Option A)
  or_else rest (f, pending) = rest f
  or_else rest (f, ready a) = pure (some a)

  -- One poll for each waker, until the future is ready.
  unfoldable pub run : F → List Waker → Cmd S (Option A)
  run f [] = pure none
  run f (k ∷ ks) = p f k >>= or_else (λ g. run g ks)

-- A future that is `Due n` is ready within `n` polls.
module _ {S F A : Type 0} (p : Poller S F A) (Inv : S → Type 0) (Due : ℕ → F → Type 0)
    (Gives : A → Type 0) (late : (f : F) → Due 0 f → ⊥)
    (turn : (n : ℕ) (f : F) (k : Waker) (w : S)
      → Inv w
      → Due (suc n) f
      → Polls Inv (Due n) Gives (p f k w)) where
  abbrev Ended : Outcome S (Option A) → Type 0
  Ended o = (a : A) × (w : S) × (o ≡ ok (some a) w) × Inv w × Gives a

  after :
      (n : ℕ) (rest : F → Cmd S (Option A))
      → ((g : F) (u : S) → Inv u → Due n g → Ended (rest g u))
      → (g : F) (r : Poll A) (u : S) → After Inv (Due n) Gives g r u
      → Ended (or_else p rest (g, r) u)
  after n rest go g pending u (i, d) = go g u i d
  after n rest go g (ready a) u (i, d) = (a, u, refl, i, d)

  pub run-ready :
      (ks : List Waker) (f : F) (w : S) → Inv w → Due (length ks) f → Ended (run p f ks w)
  unfolding run
  run-ready [] f w inv due = absurd (late f due)
  run-ready (k ∷ ks) f w inv due =
      then-Polls Inv (Due (length ks)) Gives Ended (or_else p (λ g. run p g ks)) (p f k w)
        (turn (length ks) f k w inv due)
        (after (length ks) (λ g. run p g ks) (λ g u i d. run-ready ks g u i d))
