-- ===== src/Timer/Trace.antt =====
-- src/timer/mod.rs refines the clock of Timer/Spec, over any sequence of operations.
use embedded_async.Base.{
  ℕ, ◌+◌, ◌<◌, ◌≤◌, ◌≡◌, refl, sym, ◌∙◌, subst, ◌==◌, List, [], ◌∷◌, length, length-append, ok,
  arith, Bool-cases, inl, inr, some, none, ap, Option, update,
}
use embedded_async.Intrusive.Links.{Ptr, LinkList, Node}
use embedded_async.Intrusive.Links.Lifetime.{Fresh}
use embedded_async.Intrusive.Rc.{rc_ref, get_ref, new_anchor}
use embedded_async.World.{Waker}
use embedded_async.World.Without.{without, length-without}
use embedded_async.Timer.{TimerBackend, Timer, is_zero, new, split}
use embedded_async.Timer.Stages.{Stage, idle, queued, asleep}
use embedded_async.Timer.Elapse.{IsTimer}
use embedded_async.Timer.Sleepers.{remaining}
use embedded_async.Timer.Loop.{Memory}
use embedded_async.Timer.OnTime.{length-remaining}
use embedded_async.Timer.Spec.{
  Clock, Request, clones, drops, makes, polls, cancels, runs, Answer, lose_handle, poll_stage,
  answer,
}
use embedded_async.Timer.Refine.{perform, Models, Allowed}
use embedded_async.Timer.Refine.Polls.{clones-Refines, drops-Refines, polls-Refines, runs-Refines}
use embedded_async.Timer.Refine.Delays.{makes-Refines, cancels-Refines}

-- How many timers there are.
abbrev pub timers : {ops : TimerBackend} → Clock ops → ℕ
timers s = length s.sleeping + length s.starting

-- The answers of the clock to requests, and how it is left.
abbrev pub answers : {ops : TimerBackend} → List Request → Clock ops → List Answer × Clock ops
answers [] s = ([], s)
answers (r ∷ rs) s = let (a, t) = answer r s in let (said, u) = answers rs t in (a ∷ said, u)

module _ (ops : TimerBackend) where
  lose_handle-timers : (s : Clock ops) → timers (lose_handle s) ≡ timers s
  lose_handle-timers s = elim (Bool-cases (s.handles == 1)) [
    | inl last ↦ rw last refl
    | inr more ↦ rw more refl
  ]

  poll_stage-timers :
      (st : Option Stage) (node : Node) (k : Waker) (s : Clock ops)
      → timers (poll_stage st node k s).1 ≤ timers s + 1
  poll_stage-timers none node k s = omega arith
  poll_stage-timers (some (queued t j)) node k s = omega arith
  poll_stage-timers (some (asleep t j)) node k s = omega arith
  poll_stage-timers (some (idle t)) node k s = elim (Bool-cases (is_zero t)) [
    | inl over ↦ rw over (omega arith)
    | inr more ↦ rw more (omega (arith, length-append {0} s.starting ((node.link, (k, t)) ∷ [])))
  ]

  -- No operation makes more than one timer.
  answer-timers : (r : Request) (s : Clock ops) → timers (answer r s).1 ≤ timers s + 1
  answer-timers clones s = omega arith
  answer-timers drops s = omega (arith, lose_handle-timers s)
  answer-timers (makes t node) s = omega arith
  answer-timers (polls node k) s = poll_stage-timers (s.delays node.data_at) node k s
  answer-timers (cancels node) s = omega (
    arith,
    lose_handle-timers (record s {
      sleeping = without node.link s.sleeping;
      starting = without node.link s.starting;
      delays = update s.delays node.data_at none;
    }),
    length-without node.link s.sleeping,
    length-without node.link s.starting,
  )
  answer-timers (runs k) s = elim (Bool-cases (s.handles == 0)) [
    | inl gone ↦ rw gone (omega arith)
    | inr alive ↦
        let e = (ops.pause s.backend).1 in
        rw alive (
          omega (
            arith,
            length-append {0} (remaining e s.sleeping) s.starting,
            length-remaining e s.sleeping,
          ))
  ]

  module _ (fuel : ℕ) (local : LinkList) where
    -- A run of the code: each operation is allowed where it starts, and ends with an answer.
    pub data Run : Memory ops → Clock ops → List Request → List Answer → Memory ops → Type 0 where
      stop : (w : Memory ops) (s : Clock ops) → Run w s [] [] w
      next :
          {w v u : Memory ops} {s : Clock ops} (r : Request) {a : Answer} {rs : List Request}
          {said : List Answer}
          → Allowed ops fuel local w s r
          → perform ops fuel local r w ≡ ok a v
          → Run v (answer r s).1 rs said u
          → Run w s (r ∷ rs) (a ∷ said) u

    -- Of any operation on a memory that holds the clock `s`, with more rounds of fuel than there
    -- are timers, the answer is that of the clock, and the memory that it leaves holds what the
    -- clock becomes: no operation has undefined behaviour, panics or runs out of fuel. A handle is
    -- there that is cloned or dropped, less than 2 ^ 32 are made, a new delay lies in unused
    -- memory, one that is polled was made before and is in no list unless it waits, and the value of
    -- each is its own.
    pub perform-Models :
        (w : Memory ops) (s : Clock ops) (r : Request)
        → Models ops fuel local w s
        → timers s < fuel
        → Allowed ops fuel local w s r
        → (u : Memory ops) × (perform ops fuel local r w ≡ ok (answer r s).0 u)
          × Models ops fuel local u (answer r s).1
    perform-Models w s clones models few may = clones-Refines ops fuel local w s models may
    perform-Models w s drops models few may = drops-Refines ops fuel local w s models may
    perform-Models w s (makes t node) models few may =
        makes-Refines ops fuel local w s models t node may
    perform-Models w s (polls node k) models few may =
        polls-Refines ops fuel local w s models node k may
    perform-Models w s (cancels node) models few (some_left, leaves) =
        cancels-Refines ops fuel local w s models node some_left leaves
    perform-Models w s (runs k) models few may =
        runs-Refines ops fuel local w s models k (omega arith) (omega arith)

    -- The answers of any run on a memory that holds the clock `s` are those of the clock to the same
    -- requests, and the memory that it leaves holds what the clock becomes. In the run a handle is
    -- there that is cloned or dropped, less than 2 ^ 32 are made, a new delay lies in unused memory,
    -- one that is polled was made before and is in no list unless it waits, and the value of each is
    -- its own. Fuel is more than the timers and the requests together.
    pub Run-Models :
        {w u : Memory ops} {s : Clock ops} {rs : List Request} {said : List Answer}
        → Models ops fuel local w s
        → timers s + length rs < fuel
        → Run w s rs said u
        → (said ≡ (answers rs s).0) × Models ops fuel local u (answers rs s).1
    Run-Models models few (stop w s) = (refl, models)
    Run-Models models few (next {w} {v} {u} {s} r {a} {rs} {said} may e run) =
        let (x, d, holds) = perform-Models w s r models (omega arith) may in
        let eq : ok (answer r s).0 x ≡ ok a v = sym d ∙ e in
        let said_same : (answer r s).0 ≡ a = (cc) in
        let left_same : x ≡ v = (cc) in
        let more = answer-timers r s in
        let (rest, left) =
          Run-Models (subst (λ m. Models ops fuel local m (answer r s).1) left_same holds)
            (omega arith) run in
        (cc, left)

    -- The first `split` of a new timer, whose lists are set up and empty, gives a task and a handle,
    -- and the memory holds the clock that has no timer then; `local` is fresh memory, and no
    -- delay is there.
    pub split-Clock :
        (w : Memory ops) (me : Ptr) (b : ops.B) (sleeping_timers new_timers : LinkList)
        → w.self ≡ new ops b sleeping_timers new_timers
        → IsTimer ops w [] []
        → Fresh w.links local
        → ((p : Ptr) → w.waiter p ≡ none)
        → (u : Memory ops) × (split ops me w
            ≡ ok (some (record { timer = rc_ref }, record { rc = rc_ref })) u)
          × Models ops fuel local u (record {
            sleeping = [];
            starting = [];
            delays = λ p. none;
            handles = 1;
            runner = none;
            backend = b;
            woken = w.woken;
          })
    unfolding split
    split-Clock w me b sleeping_timers new_timers is_new is fresh unused =
        let once = (get_ref (new_anchor me)).0 in
        let left : Timer ops = record w.self { rc_delays = once; rc_runner = once } in
        (
          record w { self = left },
          rw is_new refl,
          record {
            timer = record {
              list = is.list;
              new_list = is.new_list;
              apart = is.apart;
              waits = is.waits;
              new_waits = is.new_waits;
              own = is.own;
              time = is.time;
              new_time = is.new_time;
            };
            fresh = fresh;
            handles = refl;
            few = omega arith;
            runner = ap (λ c. c.waker) is_new;
            backend = ap (λ c. c.backend) is_new;
            woken = refl;
            values = unused;
            places = λ p. tt;
          },
        )
