-- ===== src/Examples/Bounded.antt =====
-- The refinement of the channel at concrete inputs: a receiver goes to sleep behind two others, and
-- a value that is sent wakes them all.
use embedded_async.Base.{ℕ, ◌≡◌, refl, List, [], ◌∷◌, ok, arith}
use embedded_async.World.{pending}
use embedded_async.Channel.{success}
use embedded_async.Channel.Notify.{Memory}
use embedded_async.Channel.Spec.{
  Bounded, Request, polls_recv, puts, Answer, recv_polled, sent, answer,
}
use embedded_async.Channel.Refine.{Models, perform}
use embedded_async.Channel.Trace.{Run, stop, next, answers, perform-Refines, Run-answers}
use embedded_async.Examples.Memory.{local, local-Fresh}
use embedded_async.Examples.Channel.{
  ops, memory, anchor, receivers, senders, memory-IsChannel, free-receiver,
}

abbrev bounded : Bounded ℕ
bounded = record {
  items = [];
  senders = 1;
  receivers = 1;
  asleep_receivers = receivers;
  asleep_senders = senders;
  woken = [];
}

bounded-Models : Models ops 9 local (memory [] 1 1) bounded
bounded-Models = record {
  channel = memory-IsChannel [] 1 1;
  fresh = local-Fresh;
  queue = refl;
  woken = refl;
  tx = anchor 1;
  rx = anchor 1;
  split = refl;
  senders = refl;
  receivers = refl;
  few_senders = omega arith;
  few_receivers = omega arith;
}

perform-Refines_example :
    (u : Memory ops) × (perform ops 9 local (polls_recv 17 7 70) (memory [] 1 1)
      ≡ ok (recv_polled pending) u)
    × Models ops 9 local u (answer 3 (polls_recv 17 7 70) bounded).1
perform-Refines_example =
    perform-Refines ops 9 local (memory [] 1 1) bounded (polls_recv 17 7 70) bounded-Models
      (omega arith) (omega arith) free-receiver

abbrev asked : List (Request ℕ)
asked = polls_recv 17 7 70 ∷ puts 4 ∷ []

abbrev heard : List (Answer ℕ)
heard = recv_polled pending ∷ sent (success tt) ∷ []

polled :
    (u : Memory ops) × (perform ops 9 local (polls_recv 17 7 70) (memory [] 1 1)
      ≡ ok (recv_polled pending) u)
    × Models ops 9 local u (answer 3 (polls_recv 17 7 70) bounded).1
polled =
    perform-Refines ops 9 local (memory [] 1 1) bounded (polls_recv 17 7 70) bounded-Models
      (omega arith) (omega arith) free-receiver

abbrev sleeping : Bounded ℕ
sleeping = (answer 3 (polls_recv 17 7 70) bounded).1

put_4 :
    (u : Memory ops) × (perform ops 9 local (puts 4) polled.0 ≡ ok (sent (success tt)) u)
    × Models ops 9 local u (answer 3 (puts 4) sleeping).1
put_4 =
    perform-Refines ops 9 local polled.0 sleeping (puts 4) polled.2 (omega arith) (omega arith)
      (omega arith)

last-Run : Run ops 9 local polled.0 sleeping (puts 4 ∷ []) (sent (success tt) ∷ []) put_4.0
last-Run =
    next {w = polled.0} {v = put_4.0} {u = put_4.0} {s = sleeping} (puts 4) {a = sent (success tt)}
      (omega arith) put_4.1 (stop put_4.0 (answer 3 (puts 4) sleeping).1)

asked-Run : Run ops 9 local (memory [] 1 1) bounded asked heard put_4.0
asked-Run =
    next {w = memory [] 1 1} {v = polled.0} {u = put_4.0} {s = bounded} (polls_recv 17 7 70)
      {a = recv_polled pending} free-receiver polled.1 last-Run

-- The bounded channel has woken all three receivers then.
answers_woken : (answers 3 asked bounded).1.woken ≡ 50 ∷ 80 ∷ 70 ∷ []
answers_woken = refl

Run-answers_example :
    (heard ≡ (answers 3 asked bounded).0) × Models ops 9 local put_4.0 (answers 3 asked bounded).1
Run-answers_example = Run-answers ops 9 local bounded-Models (omega arith) (omega arith) asked-Run
