-- ===== src/Examples/Clock.antt =====
-- The refinement of the timer at concrete inputs, and a `core::time::Duration`: a delay starts while
-- two timers sleep and one is new, the runner is polled, and one of the two is over.
use embedded_async.Base.{
  ℕ, ◌≡◌, ◌==◌, refl, [], ◌∷◌, List, ok, some, none, arith, Option, if◌then◌else◌, ◌-◌, ◌*◌, ◌≤◌,
  ◌<◌, ltb, Bool-cases, inl, inr,
}
use embedded_async.Intrusive.Links.{Node, Ptr}
use embedded_async.World.{pending, ready}
use embedded_async.Timer.Loop.{Memory}
use embedded_async.Timer.Duration.{CoreDuration, Counts, core_duration, core_duration-Counts}
use embedded_async.Timer.Stages.{Stage, idle, queued, asleep, value, Placed}
use embedded_async.Timer.Spec.{Clock, Request, polls, runs, Answer, polled, answer}
use embedded_async.Timer.Refine.{perform, Models, Allowed}
use embedded_async.Timer.Trace.{Run, stop, next, answers, perform-Models, Run-Models}
use embedded_async.Examples.Memory.{local, local-Fresh, free-Valid}
use embedded_async.Examples.Timer.{recorder, memory, sleepers, newcomers, memory-IsTimer}

abbrev stages : Ptr → Option Stage
stages p =
    if p == 15
    then some (asleep 30 50)
    else if p == 18
    then some (asleep 100 80)
    else if p == 16
    then some (queued 20 60)
    else if p == 17
    then some (idle 25)
    else none

abbrev clock : Clock recorder
clock = record {
  sleeping = sleepers;
  starting = newcomers;
  delays = stages;
  handles = 4;
  runner = some 40;
  backend = [];
  woken = 9 ∷ [];
}

values : (p : Ptr) → memory.waiter p ≡ value (stages p)
values p = elim (Bool-cases (p == 15)) [
  | inl e ↦ rw e refl
  | inr e ↦ rw e (elim (Bool-cases (p == 18)) [
    | inl e ↦ rw e refl
    | inr e ↦ rw e (elim (Bool-cases (p == 16)) [
      | inl e ↦ rw e refl
      | inr e ↦ rw e (elim (Bool-cases (p == 17)) [ inl e ↦ rw e refl | inr e ↦ rw e refl ])
    ])
  ])
]

places : (p : Ptr) → Placed memory.links.owner sleepers newcomers p (stages p)
places p = elim (Bool-cases (p == 15)) [
  | inl e ↦ rw e (inl (ground (arith, e), refl, refl))
  | inr e ↦ rw e (elim (Bool-cases (p == 18)) [
    | inl e ↦ rw e (inr (inl (ground (arith, e), refl, refl)))
    | inr e ↦ rw e (elim (Bool-cases (p == 16)) [
      | inl e ↦ rw e (inl (ground (arith, e), refl, refl))
      | inr e ↦ rw e (elim (Bool-cases (p == 17)) [ inl e ↦ rw e tt | inr e ↦ rw e tt ])
    ])
  ])
]

memory-Models : Models recorder 7 local memory clock
memory-Models = record {
  timer = memory-IsTimer;
  fresh = local-Fresh;
  handles = refl;
  few = omega arith;
  runner = refl;
  backend = refl;
  woken = refl;
  values = values;
  places = places;
}

abbrev node : Node
node = record { data_at = 17; link = 7 }

may_start : Allowed recorder 7 local memory clock (polls node 70)
may_start = inr (free-Valid, refl, refl, omega arith)

perform-Models_example :
    (u : Memory recorder) × (perform recorder 7 local (polls node 70) memory
      ≡ ok (polled pending) u)
    × Models recorder 7 local u (answer (polls node 70) clock).1
perform-Models_example =
    perform-Models recorder 7 local memory clock (polls node 70) memory-Models (omega arith)
      may_start

started_delay :
    (u : Memory recorder) × (perform recorder 7 local (polls node 70) memory
      ≡ ok (polled pending) u)
    × Models recorder 7 local u (answer (polls node 70) clock).1
started_delay =
    perform-Models recorder 7 local memory clock (polls node 70) memory-Models (omega arith)
      may_start

abbrev ticking : Clock recorder
ticking = (answer (polls node 70) clock).1

served_once :
    (u : Memory recorder) × (perform recorder 7 local (runs 41) started_delay.0
      ≡ ok (polled pending) u)
    × Models recorder 7 local u (answer (runs 41) ticking).1
served_once =
    perform-Models recorder 7 local started_delay.0 ticking (runs 41) started_delay.2 (omega arith)
      tt

abbrev served : Clock recorder
served = (answer (runs 41) ticking).1

-- The delay of 30 units is over then.
abbrev over : Node
over = record { data_at = 15; link = 5 }

may_poll_again : Allowed recorder 7 local served_once.0 served (polls over 50)
may_poll_again = inl refl

answered :
    (u : Memory recorder) × (perform recorder 7 local (polls over 50) served_once.0
      ≡ ok (polled (ready tt)) u)
    × Models recorder 7 local u (answer (polls over 50) served).1
answered =
    perform-Models recorder 7 local served_once.0 served (polls over 50) served_once.2 (omega arith)
      may_poll_again

abbrev asked : List Request
asked = polls node 70 ∷ runs 41 ∷ polls over 50 ∷ []

abbrev heard : List Answer
heard = polled pending ∷ polled pending ∷ polled (ready tt) ∷ []

asked-Run : Run recorder 7 local memory clock asked heard answered.0
asked-Run =
    next {w = memory} {v = started_delay.0} {u = answered.0} {s = clock} (polls node 70)
      {a = polled pending} may_start started_delay.1
      (next {w = started_delay.0} {v = served_once.0} {u = answered.0} {s = ticking} (runs 41)
        {a = polled pending} tt served_once.1
        (next {w = served_once.0} {v = answered.0} {u = answered.0} {s = served} (polls over 50)
          {a = polled (ready tt)} may_poll_again answered.1
          (stop answered.0 (answer (polls over 50) served).1)))

Run-Models_example :
    (heard ≡ (answers asked clock).0) × Models recorder 7 local answered.0 (answers asked clock).1
Run-Models_example = Run-Models recorder 7 local memory-Models (omega arith) asked-Run

-- The clock has woken the runner and the timer of 30 units then, and 60 and 20 and 25 are left.
answers_sleeping :
    ((answers asked clock).1.sleeping ≡ (8, (80, 60)) ∷ (6, (60, 20)) ∷ (7, (70, 25)) ∷ [])
    × ((answers asked clock).1.woken ≡ 9 ∷ 40 ∷ 50 ∷ [])
answers_sleeping = (refl, refl)

-- A `core::time::Duration` that is its number of nanoseconds.
abbrev nano_sub : ℕ → ℕ → Option ℕ
nano_sub a b = if ltb a b then none else some (a - b)

nano_sub-some : (a b : ℕ) → b ≤ a → (d : ℕ) × (nano_sub a b ≡ some d) × (d ≡ a - b)
nano_sub-some a b h = (a - b, ground arith, refl)

nano_sub-none : (a b : ℕ) → a < b → nano_sub a b ≡ none
nano_sub-none a b h = ground arith

abbrev nanos : CoreDuration
nanos = record {
  D = ℕ;
  nanos = λ a. a;
  from_secs = λ s. s * 1000000000;
  checked_sub = nano_sub;
  eq = ◌==◌;
  lt = ltb;
  min = λ a b. if ltb b a then b else a;
  from_secs_nanos = λ s. refl;
  checked_sub_nanos = nano_sub-some;
  checked_sub_less = nano_sub-none;
  eq_nanos = λ a b. refl;
  lt_nanos = λ a b. refl;
  min_lt = λ a b. refl;
}

core_duration-Counts_example : Counts (core_duration nanos) (λ a. a)
core_duration-Counts_example = core_duration-Counts nanos
