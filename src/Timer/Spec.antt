-- ===== src/Timer/Spec.antt =====
-- What a timer promises, without links, anchors and memory: how far every delay has come, who sleeps
-- and for how long, who is new, how many handles there are, and the backend.
use embedded_async.Base.{
  ℕ, ◌+◌, ◌-◌, ◌==◌, if◌then◌else◌, List, [], ◌∷◌, ◌++◌, Option, some, none, update,
}
use embedded_async.Intrusive.Links.{Node, Ptr}
use embedded_async.World.{Waker, Poll, pending, ready}
use embedded_async.World.Without.{without}
use embedded_async.Timer.{TimerBackend, is_zero}
use embedded_async.Timer.Sleepers.{Sleepers, remaining, expired}
use embedded_async.Timer.Stages.{Stage, idle, queued, asleep, passes}
use embedded_async.Timer.Delay.{to_wake}
use embedded_async.Timer.Runner.{started, next_time}

pub record Clock (ops : TimerBackend) : Type 0 where
  pub sleeping : Sleepers
  pub starting : Sleepers
  -- The delays that are alive, each by the address of its value.
  pub delays : Ptr → Option Stage
  pub handles : ℕ
  -- The task of the runner, once it was polled.
  pub runner : Option Waker
  pub backend : ops.B
  pub woken : List Waker

pub data Request : Type 0 where
  clones : Request  -- `TimerHandle::clone`
  drops : Request  -- the drop of a `TimerHandle`
  makes : (t : ℕ) (node : Node) → Request  -- `TimerHandle::delay`
  polls : (node : Node) (k : Waker) → Request  -- a poll of a `DelayFuture`
  cancels : (node : Node) → Request  -- the drop of a `DelayFuture`
  runs : (k : Waker) → Request  -- a poll of the runner

pub data Answer : Type 0 where
  done : Answer
  polled : Poll (Unit {0}) → Answer

module _ {ops : TimerBackend} where
  abbrev pub lose_handle : Clock ops → Clock ops
  lose_handle s =
      let t = record s { handles = s.handles - 1 } in
      if s.handles == 1 then record t { woken = s.woken ++ to_wake s.runner } else t

  -- What a poll of the runner makes of the clock, while there are handles.
  abbrev pub serve : Waker → Clock ops → Clock ops
  serve k s =
      let e = (ops.pause s.backend).1 in
      record s {
        sleeping = remaining e s.sleeping ++ s.starting;
        starting = [];
        delays = λ p. passes e (s.delays p);
        runner = some k;
        backend = started ops k (next_time e s.sleeping s.starting) (ops.pause s.backend).0;
        woken = s.woken ++ expired e s.sleeping;
      }

  -- A delay with time left is queued at its first poll, and the runner is told; from then on it is
  -- pending until it is over.
  abbrev pub poll_stage : Option Stage → Node → Waker → Clock ops → Answer × Clock ops
  poll_stage (some (idle t)) node k s = if is_zero t then (polled (ready tt), s) else (
    polled pending,
    record s {
      starting = s.starting ++ (node.link, (k, t)) ∷ [];
      delays = update s.delays node.data_at (some (queued t k));
      woken = s.woken ++ to_wake s.runner;
    },
  )
  poll_stage (some (queued t j)) node k s = (polled pending, s)
  poll_stage (some (asleep t j)) node k s = (polled pending, s)
  poll_stage none node k s = (polled pending, s)

  abbrev pub answer : Request → Clock ops → Answer × Clock ops
  answer clones s = (done, record s { handles = s.handles + 1 })
  answer drops s = (done, lose_handle s)
  answer (makes t node) s = (
    done,
    record s { handles = s.handles + 1; delays = update s.delays node.data_at (some (idle t)) },
  )
  answer (polls node k) s = poll_stage (s.delays node.data_at) node k s
  answer (cancels node) s = (
    done,
    lose_handle (record s {
      sleeping = without node.link s.sleeping;
      starting = without node.link s.starting;
      delays = update s.delays node.data_at none;
    }),
  )
  answer (runs k) s = if s.handles == 0 then (polled (ready tt), s) else (polled pending, serve k s)
