-- ===== src/Futures.antt =====
-- src/prelude/mod.rs: the combinators of futures. A future is a state and a poll, which may work on
-- any shared memory `S`; the poll of a user's future is a parameter.
pub mod Turns
pub mod Both
pub mod First
pub mod Late
use embedded_async.Base.{is_none, ◌&&◌, Option, none, some, if◌then◌else◌, Cmd, pure, ◌>>=◌, ◌>>◌}
use embedded_async.World.{Waker, Poll, pending, ready}

-- `Future::poll`: the future as it is left, and the result.
abbrev pub Poller : Type 0 → Type 0 → Type 0 → Type 0
Poller S F A = F → Waker → Cmd S (F × Poll A)

abbrev pub poll_to_option : {A : Type 0} → Poll A → Option A
poll_to_option (ready x) = some x
poll_to_option pending = none

pub record Race (F G A B : Type 0) : Type 0 where
  pub fut1 : F
  pub fut2 : G
  pub res : Option A × Option B

pub record Join (F G A B : Type 0) : Type 0 where
  pub fut1 : F
  pub fut2 : G
  pub res : Option A × Option B

-- `Result<T, TimeoutError>`
pub data Timed (A : Type 0) : Type 0 where
  in_time : A → Timed A
  timeout_error : Timed A

pub record TimeoutFuture (F D A : Type 0) : Type 0 where
  pub fut : Race F D A (Unit {0})

pub record DelayFuture (F D : Type 0) : Type 0 where
  pub fut : F
  pub delay : Option D

-- `FutureExt::race` and `join`
abbrev pub race : {F G A B : Type 0} → F → G → Race F G A B
race f g = record { fut1 = f; fut2 = g; res = (none, none) }

abbrev pub join : {F G A B : Type 0} → F → G → Join F G A B
join f g = record { fut1 = f; fut2 = g; res = (none, none) }

-- The futures that `FutureExt::timeout` and `delay` build, given the timer's delay.
abbrev pub timed_by : {F D A : Type 0} → F → D → TimeoutFuture F D A
timed_by f d = record { fut = race f d }

abbrev pub delayed_by : {F D : Type 0} → F → D → DelayFuture F D
delayed_by f d = record { fut = f; delay = some d }

-- What the combinators use of a timer whose delays and handles work on the memory `S`.
pub record TimerHandles (S : Type 0) : Type 1 where
  pub Handle : Type 0
  pub Delay : Type 0
  pub Duration : Type 0
  -- Where a new delay lies.
  pub Place : Type 0
  pub make : Handle → Duration → Place → Cmd S Delay
  pub poll : Poller S Delay (Unit {0})
  pub drop_delay : Delay → Cmd S (Unit {0})
  pub drop_handle : Handle → Cmd S (Unit {0})

module _ {S : Type 0} (ops : TimerHandles S) where
  open ops use {Handle, Delay, Duration, Place, make, drop_handle}

  -- `FutureExt::timeout`; the handle goes at its end.
  unfoldable pub timeout :
      {F A : Type 0} → F → Handle → Duration → Place → Cmd S (TimeoutFuture F Delay A)
  timeout f timer dur place = do d ← make timer dur place; drop_handle timer; pure (timed_by f d)

  -- `FutureExt::delay`, in the same way.
  unfoldable pub delay : {F : Type 0} → F → Handle → Duration → Place → Cmd S (DelayFuture F Delay)
  delay f timer dur place = do d ← make timer dur place; drop_handle timer; pure (delayed_by f d)

-- The end of `Race::poll`: the results are taken out if there is one.
abbrev pub race_result :
    {F G A B : Type 0} → Race F G A B → Race F G A B × Poll (Option A × Option B)
race_result me =
    if is_none me.res.0 && is_none me.res.1
    then (me, pending)
    else (record me { res = (none, none) }, ready me.res)

-- The end of `Join::poll`: both results are taken out once both are there.
abbrev pub join_result :
    {F G A B : Type 0} → F → G → Option A → Option B → Join F G A B × Poll (A × B)
join_result f g (some a) (some b) =
    (record { fut1 = f; fut2 = g; res = (none, none) }, ready (a, b))
join_result f g (some a) none = (record { fut1 = f; fut2 = g; res = (some a, none) }, pending)
join_result f g none b = (record { fut1 = f; fut2 = g; res = (none, b) }, pending)

module _ {S F G A B : Type 0} (p : Poller S F A) (q : Poller S G B) where
  -- The second part of `Race::poll`'s first half: `fut2` is polled unless `fut1` has a result.
  abbrev pub race_second : Race F G A B → Waker → F × Option A → Cmd S (Race F G A B)
  race_second me k fx =
      if is_none fx.1
      then (do
        (g, y) ← q me.fut2 k
        pure (record { fut1 = fx.0; fut2 = g; res = (none, poll_to_option y) }))
      else pure (record me { fut1 = fx.0; res = (fx.1, me.res.1) })

  -- `Race::poll`
  unfoldable pub poll_race : Poller S (Race F G A B) (Option A × Option B)
  poll_race me k = do
    me ←
        if is_none me.res.0 && is_none me.res.1
        then (do (f, x) ← p me.fut1 k; race_second me k (f, poll_to_option x))
        else pure me
    pure (race_result me)

module _ {S F A : Type 0} (p : Poller S F A) where
  -- One half of `Join::poll`: the future is polled unless its result is there.
  unfoldable pub poll_if_none : F → Option A → Waker → Cmd S (F × Option A)
  poll_if_none f none k = do (f', x) ← p f k; pure (f', poll_to_option x)
  poll_if_none f (some a) k = pure (f, some a)

module _ {S F G A B : Type 0} (p : Poller S F A) (q : Poller S G B) where
  -- `Join::poll`
  unfoldable pub poll_join : Poller S (Join F G A B) (A × B)
  unfolding poll_if_none
  poll_join me k = do
    (f, a) ← poll_if_none p me.fut1 me.res.0 k
    (g, b) ← poll_if_none q me.fut2 me.res.1 k
    pure (join_result f g a b)

abbrev pub timed : {A : Type 0} → Poll (Option A × Option (Unit {0})) → Poll (Timed A)
timed pending = pending
timed (ready (some x, _)) = ready (in_time x)
timed (ready (none, _)) = ready timeout_error

module _ {S F D A : Type 0} (p : Poller S F A) (d : Poller S D (Unit {0})) where
  -- `TimeoutFuture::poll`
  unfoldable pub poll_timeout : Poller S (TimeoutFuture F D A) (Timed A)
  unfolding poll_race
  poll_timeout me k = do (fut, r) ← poll_race p d me.fut k; pure (record { fut = fut }, timed r)

module _ {S D : Type 0} (d : Poller S D (Unit {0})) (drop : D → Cmd S (Unit {0})) where
  -- `me.delay.take()` once the delay has elapsed, which drops it.
  abbrev pub take_delay : D × Poll (Unit {0}) → Cmd S (D × Poll (Unit {0}))
  take_delay (d', pending) = pure (d', pending)
  take_delay (d', ready _) = do drop d'; pure (d', ready tt)

  -- The poll of the delay in `DelayFuture::poll`.
  unfoldable pub poll_taking : Poller S D (Unit {0})
  poll_taking wait k = d wait k >>= take_delay

module _ {S F D A : Type 0} (p : Poller S F A) (d : Poller S D (Unit {0}))
    (drop : D → Cmd S (Unit {0})) where
  -- `DelayFuture::poll_fut`
  unfoldable pub poll_inner : Option D → F → Waker → Cmd S (DelayFuture F D × Poll A)
  poll_inner rest f k = do (f', r) ← p f k; pure (record { fut = f'; delay = rest }, r)

  -- What `DelayFuture::poll` does after that.
  abbrev pub after_delay : F → Waker → D × Poll (Unit {0}) → Cmd S (DelayFuture F D × Poll A)
  unfolding poll_inner
  after_delay f k (d', pending) = pure (record { fut = f; delay = some d' }, pending)
  after_delay f k (d', ready _) = poll_inner none f k

  -- `DelayFuture::poll`
  unfoldable pub poll_delay : Poller S (DelayFuture F D) A
  unfolding poll_inner poll_taking
  poll_delay me k = elim me.delay [
    | some wait ↦ poll_taking d drop wait k >>= after_delay me.fut k
    | none ↦ poll_inner none me.fut k
  ]
