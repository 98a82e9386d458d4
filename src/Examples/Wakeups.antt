-- ===== src/Examples/Wakeups.antt =====
-- A new channel at a concrete input: it is split, a receive sleeps and is woken by a send, and
-- another one sleeps.
use embedded_async.Base.{
  ◌+◌, count, ℕ, ◌≡◌, refl, List, [], ◌∷◌, Outcome, ok, fault, panic, out_of_fuel, arith, none, ltb,
  ◌⊎◌, true,
}
use embedded_async.Intrusive.Links.{
  null, Heap, LinkList, new_list, move_to_front_of, pop_front, drop_list,
}
use embedded_async.Intrusive.Links.Invariant.{IsList}
use embedded_async.Intrusive.Links.Lifetime.{Fresh}
use embedded_async.World.{Waker, pending}
use embedded_async.World.Waits.{wakers_of}
use embedded_async.Channel.Tally.{given_up, sleepers_of}
use embedded_async.Channel.{
  new, split, recv, poll_recv, try_recv, try_send, success, failure, empty, full,
}
use embedded_async.Channel.Queue.{SpscQueue, list_queue}
use embedded_async.Channel.Notify.{Memory, IsChannel}
use embedded_async.Channel.Wait.{Idle}
use embedded_async.Channel.Spec.{
  Bounded, Request, makes_recv, polls_recv, puts, takes, made, sent, received, recv_polled, Answer,
}
use embedded_async.Channel.Refine.{perform}
use embedded_async.Channel.Trace.{Run, stop, next, just_split, answers}
use embedded_async.Channel.Wakeups.{Run-no_lost_wakeup}

abbrev ops : SpscQueue ℕ
ops = list_queue 2

abbrev receivers : LinkList
receivers = record { head = 1; tail = 2 }

abbrev senders : LinkList
senders = record { head = 3; tail = 4 }

abbrev local : LinkList
local = record { head = 20; tail = 21 }

abbrev heap : Heap
heap = record { live = λ a. ltb a 5; owner = λ a. null; prev = λ a. null; next = λ a. null }

abbrev memory : Memory ops
memory = record { links = heap; waiter = λ p. none; woken = []; self = new ops receivers senders }

heap-IsList : IsList heap receivers [] × IsList heap senders []
heap-IsList = (
  record {
    valid = λ a m. ground arith;
    distinct = ground arith;
    chain = ground arith;
    front = refl;
    back = refl;
  },
  record {
    valid = λ a m. ground arith;
    distinct = ground arith;
    chain = ground arith;
    front = refl;
    back = refl;
  },
)

memory-IsChannel : IsChannel ops memory [] []
memory-IsChannel = record {
  receivers = record { list = heap-IsList.0; waits = tt };
  senders = record { list = heap-IsList.1; waits = tt };
  apart = λ a m. ground arith;
}

local-Fresh : Fresh heap local
local-Fresh = record { head = ground arith; tail = ground arith; apart = omega arith }

-- The state that a command leaves.
abbrev left : {A : Type 0} → Outcome (Memory ops) A → Memory ops
left (ok a w) = w
left fault = memory
left panic = memory
left out_of_fuel = memory

abbrev halved : Memory ops
unfolding split
halved = left (split ops 100 memory)

abbrev with_future : Memory ops
unfolding perform recv
with_future = left (perform ops 9 local (makes_recv 17 7) halved)

abbrev polled : Memory ops
unfolding perform poll_recv
polled = left (perform ops 9 local (polls_recv 17 7 70) with_future)

split-halved : split ops 100 memory ≡ ok true halved
unfolding split
split-halved = refl

perform-with_future : perform ops 9 local (makes_recv 17 7) halved ≡ ok (made none 17 7) with_future
unfolding perform split recv
perform-with_future = refl

perform-polled :
    perform ops 9 local (polls_recv 17 7 70) with_future ≡ ok (recv_polled pending) polled
unfolding perform split recv poll_recv
perform-polled = refl

abbrev woke : Memory ops
unfolding perform try_send
woke = left (perform ops 9 local (puts 5) polled)

abbrev emptied : Memory ops
unfolding perform try_recv
emptied = left (perform ops 9 local takes woke)

abbrev second_future : Memory ops
unfolding perform recv
second_future = left (perform ops 9 local (makes_recv 18 8) emptied)

abbrev asleep : Memory ops
unfolding perform poll_recv
asleep = left (perform ops 9 local (polls_recv 18 8 71) second_future)

perform-woke : perform ops 9 local (puts 5) polled ≡ ok (sent (success tt)) woke
unfolding perform split recv poll_recv try_send new_list move_to_front_of pop_front drop_list
perform-woke = refl

perform-emptied : perform ops 9 local takes woke ≡ ok (received (success 5)) emptied
unfolding perform split recv poll_recv try_send try_recv new_list move_to_front_of pop_front
    drop_list
perform-emptied = refl

perform-second_future :
    perform ops 9 local (makes_recv 18 8) emptied ≡ ok (made none 18 8) second_future
unfolding perform split recv poll_recv try_send try_recv new_list move_to_front_of pop_front
    drop_list
perform-second_future = refl

perform-asleep :
    perform ops 9 local (polls_recv 18 8 71) second_future ≡ ok (recv_polled pending) asleep
unfolding perform split recv poll_recv try_send try_recv new_list move_to_front_of pop_front
    drop_list
perform-asleep = refl

abbrev requests : List (Request ℕ)
requests =
    makes_recv 17 7
    ∷ polls_recv 17 7 70
    ∷ puts 5
    ∷ takes
    ∷ makes_recv 18 8
    ∷ polls_recv 18 8 71
    ∷ []

abbrev said : List (Answer ℕ)
said =
    made none 17 7
    ∷ recv_polled pending
    ∷ sent (success tt)
    ∷ received (success 5)
    ∷ made none 18 8
    ∷ recv_polled pending
    ∷ []

abbrev after : List (Request ℕ) → Bounded ℕ
after rs = (answers 2 rs (just_split [])).1

abbrev waiting : Bounded ℕ
waiting = after requests

with_future-Idle : Idle with_future.links receivers senders [] [] 17 7
unfolding split recv perform
with_future-Idle = record {
  live = ground arith;
  out = refl;
  off = refl;
  waiter = omega arith;
  own = λ y m. ground arith;
  foreign = λ y m. ground arith;
}

second_future-Idle : Idle second_future.links receivers senders [] [] 18 8
unfolding perform split recv poll_recv try_send try_recv new_list move_to_front_of pop_front
    drop_list
second_future-Idle = record {
  live = ground arith;
  out = refl;
  off = refl;
  waiter = omega arith;
  own = λ y m. ground arith;
  foreign = λ y m. ground arith;
}

requests-Run : Run ops 9 local halved (just_split []) requests said asleep
unfolding perform split recv poll_recv try_send try_recv new_list move_to_front_of pop_front
    drop_list
requests-Run =
    let s1 = after (makes_recv 17 7 ∷ []) in
    let s2 = after (makes_recv 17 7 ∷ polls_recv 17 7 70 ∷ []) in
    let s3 = after (makes_recv 17 7 ∷ polls_recv 17 7 70 ∷ puts 5 ∷ []) in
    let s4 = after (makes_recv 17 7 ∷ polls_recv 17 7 70 ∷ puts 5 ∷ takes ∷ []) in
    let s5 = after (makes_recv 17 7 ∷ polls_recv 17 7 70 ∷ puts 5 ∷ takes ∷ makes_recv 18 8 ∷ []) in
    next {w = halved} {v = with_future} {u = asleep} {s = just_split []} (makes_recv 17 7)
      {a = made none 17 7} (omega arith, omega arith, (omega arith, refl, refl)) perform-with_future
      (next {w = with_future} {v = polled} {u = asleep} {s = s1} (polls_recv 17 7 70)
        {a = recv_polled pending} with_future-Idle perform-polled
        (next {w = polled} {v = woke} {u = asleep} {s = s2} (puts 5) {a = sent (success tt)}
          (omega arith) perform-woke
          (next {w = woke} {v = emptied} {u = asleep} {s = s3} takes {a = received (success 5)}
            (omega arith) perform-emptied
            (next {w = emptied} {v = second_future} {u = asleep} {s = s4} (makes_recv 18 8)
              {a = made none 18 8} (omega arith, omega arith, (omega arith, refl, refl))
              perform-second_future
              (next {w = second_future} {v = asleep} {u = asleep} {s = s5} (polls_recv 18 8 71)
                {a = recv_polled pending} second_future-Idle perform-asleep
                (stop asleep waiting))))))

-- The task 70 was woken, and the task 71 sleeps.
Run-no_lost_wakeup_example :
    IsChannel ops asleep waiting.asleep_receivers waiting.asleep_senders
    × ((waiting.asleep_receivers ≡ []) ⊎ (try_recv ops 9 local asleep ≡ ok (failure empty) asleep))
    × ((waiting.asleep_senders ≡ [])
        ⊎ ((x : ℕ) → try_send ops 9 local x asleep ≡ ok (failure (full x)) asleep))
    × ((k : Waker)
        → count k asleep.woken
            + count k (wakers_of waiting.asleep_receivers)
            + count k (wakers_of waiting.asleep_senders)
            + count k (given_up 2 requests (just_split []))
          ≡ count k [] + count k (sleepers_of requests said))
Run-no_lost_wakeup_example =
    Run-no_lost_wakeup ops 9 local memory halved asleep 100 receivers senders requests said refl
      memory-IsChannel local-Fresh split-halved requests-Run (omega arith)
