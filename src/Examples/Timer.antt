-- ===== src/Examples/Timer.antt =====
-- The theorems on the timer at concrete inputs: two timers sleep, and a delay starts.
use embedded_async.Base.{
  ℕ, ◌≡◌, ◌==◌, refl, [], ◌∷◌, ◌++◌, List, ok, some, none, arith, Option, if◌then◌else◌, All, ◌∉◌,
  count, ◌+◌,
}
use embedded_async.Intrusive.Links.{Ptr}
use embedded_async.Intrusive.Rc.{rc_ref}
use embedded_async.World.{Waker, pending, ready}
use embedded_async.Timer.{TimerBackend, WaitingTimer, DelayFuture, poll_runner, poll_delay}
use embedded_async.Timer.Sleepers.{Sleepers, Settled, Keeps, owners}
use embedded_async.Timer.Ready.{poll_delay-poll_runner}
use embedded_async.Intrusive.Links.Lifetime.{Fresh}
use embedded_async.Timer.Loop.{Memory}
use embedded_async.Timer.Least.{IsLeast}
use embedded_async.Timer.Runner.{started, poll_runner-serves}
use embedded_async.Timer.OnTime.{poll_each, poll_each-on_time}
use embedded_async.Timer.Elapse.{IsTimer}
use embedded_async.Timer.Timeout.{timer_delay, poll_timeout-poll_runner}
use embedded_async.Futures.{timeout_error, timed_by, poll_timeout}
use embedded_async.Examples.Memory.{
  heap, first, second, local, first-IsList, second-IsList, apart, local-Fresh,
}

-- A backend that records what it was asked to do, and always says that 40 units have passed.
abbrev pub recorder : TimerBackend
recorder = record {
  B = List (Waker × ℕ);
  wake_in = λ k t b. b ++ (k, t) ∷ [];
  pause = λ b. (b, 40);
}

abbrev waiters : Ptr → Option WaitingTimer
waiters p =
    if p == 15
    then some (record { time_until_timeout = 30; waker = some 50 })
    else if p == 18
    then some (record { time_until_timeout = 100; waker = some 80 })
    else if p == 16
    then some (record { time_until_timeout = 20; waker = some 60 })
    else if p == 17
    then some (record { time_until_timeout = 25; waker = none })
    else none

abbrev pub memory : Memory recorder
memory = record {
  links = heap;
  waiter = waiters;
  woken = 9 ∷ [];
  self = record {
    backend = some [];
    waker = some 40;
    sleeping_timers = first;
    new_timers = second;
    rc_delays = record { ref_count = 4; contents = 100 };
    rc_runner = record { ref_count = 1; contents = 100 };
  };
}

abbrev pub sleepers : Sleepers
sleepers = (5, (50, 30)) ∷ (8, (80, 100)) ∷ []

abbrev pub newcomers : Sleepers
newcomers = (6, (60, 20)) ∷ []

pub memory-IsTimer : IsTimer recorder memory sleepers newcomers
memory-IsTimer = record {
  list = first-IsList;
  new_list = second-IsList;
  apart = apart;
  waits = ((omega arith, refl), ((omega arith, refl), tt));
  new_waits = ((omega arith, refl), tt);
  own = ground arith;
  time = omega arith;
  new_time = omega arith;
}

poll_runner-serves_example :
    (u : Memory recorder) × (poll_runner recorder 3 local local 41 memory ≡ ok pending u)
    × IsTimer recorder u ((8, (80, 60)) ∷ (6, (60, 20)) ∷ []) []
    × IsLeast ((8, (80, 60)) ∷ (6, (60, 20)) ∷ []) (some 20)
    × (u.self
        ≡ record memory.self { waker = some 41; backend = some (started recorder 41 (some 20) []) })
    × (u.woken ≡ 9 ∷ 50 ∷ [])
    × Fresh u.links local
    × All (Settled memory.links.owner u.waiter 40) sleepers
    × Keeps memory.links.owner u.links.owner ((8, (80, 60)) ∷ (6, (60, 20)) ∷ [])
    × ((p : Ptr) → p ∉ owners memory.links.owner (5 ∷ 8 ∷ []) → u.waiter p ≡ memory.waiter p)
poll_runner-serves_example =
    poll_runner-serves recorder 3 local memory sleepers newcomers 41 [] local-Fresh memory-IsTimer
      refl (omega arith) (omega arith) (omega arith)

-- The runner is polled twice, each time after 40 units: the new timer of 20 is over at the second.
poll_each-on_time_example :
    (u : Memory recorder) × (poll_each recorder 4 local (41 ∷ 42 ∷ []) memory ≡ ok tt u)
    × IsTimer recorder u ((8, (80, 20)) ∷ []) []
    × ((j : Waker) → count j u.woken ≡ count j (9 ∷ []) + (count j (50 ∷ []) + count j (60 ∷ [])))
poll_each-on_time_example =
    poll_each-on_time recorder 4 local 41 (42 ∷ []) memory sleepers newcomers [] local-Fresh
      memory-IsTimer refl (omega arith) (omega arith)

abbrev starting : DelayFuture
starting = record {
  timer = record { rc = rc_ref };
  intrusive_node = record { data_at = 17; link = 7 };
}

abbrev sleeping_delay : DelayFuture
sleeping_delay = record {
  timer = record { rc = rc_ref };
  intrusive_node = record { data_at = 15; link = 5 };
}

-- The timer of 30 units is over after 40.
poll_delay-poll_runner_example :
    (u : Memory recorder) × (poll_runner recorder 3 local local 41 memory ≡ ok pending u)
    × (poll_delay recorder sleeping_delay 50 u ≡ ok (ready tt) u)
poll_delay-poll_runner_example =
    poll_delay-poll_runner recorder 3 local memory [] ((8, (80, 100)) ∷ []) newcomers sleeping_delay
      50 50 41 30 [] local-Fresh memory-IsTimer refl refl (omega arith) (omega arith) (omega arith)

abbrev longer_delay : DelayFuture
longer_delay = record {
  timer = record { rc = rc_ref };
  intrusive_node = record { data_at = 18; link = 8 };
}

-- A wait of 100 units, by one of 30, after 40.
poll_timeout-poll_runner_example :
    (u : Memory recorder) × (poll_runner recorder 3 local local 41 memory ≡ ok pending u)
    × (poll_timeout
          (timer_delay recorder)
          (timer_delay recorder)
          (timed_by longer_delay sleeping_delay)
          80
          u
        ≡ ok (timed_by longer_delay sleeping_delay, ready timeout_error) u)
poll_timeout-poll_runner_example =
    poll_timeout-poll_runner recorder 3 local memory sleepers newcomers 80 41 [] local-Fresh
      memory-IsTimer refl (omega arith) (omega arith) (omega arith) ((5, (50, 30)) ∷ []) []
      longer_delay 80 100 refl refl [] ((8, (80, 100)) ∷ []) sleeping_delay 50 30 refl refl
