-- ===== src/Channel/Trace.antt =====
-- src/channel/mod.rs refines the bounded channel of Channel/Spec, over any sequence of operations.
use embedded_async.Base.{
  some, ap, true, ℕ, ◌+◌, ◌<◌, ◌≡◌, refl, sym, ◌∙◌, subst, List, [], ◌∷◌, length, ok, arith,
}
use embedded_async.Intrusive.Links.{Ptr, LinkList}
use embedded_async.Intrusive.Links.Lifetime.{Fresh}
use embedded_async.Intrusive.Rc.{get_ref, new_anchor}
use embedded_async.World.{Waker}
use embedded_async.Channel.{new, split}
use embedded_async.Channel.Queue.{SpscQueue}
use embedded_async.Channel.Notify.{Memory, IsChannel}
use embedded_async.Channel.Spec.{
  Bounded, Request, puts, takes, adds_sender, adds_receiver, drops_sender, drops_receiver,
  polls_send, polls_recv, makes_send, makes_recv, cancels_send, cancels_recv, Answer, answer,
}
use embedded_async.Channel.Asleep.{answer-Asleep}
use embedded_async.Channel.Refine.{perform, Models, Allowed}
use embedded_async.Channel.Refine.Values.{offer-Models, demand-Models}
use embedded_async.Channel.Refine.Ends.{
  adds_sender-Refines, adds_receiver-Refines, drops_sender-Refines, drops_receiver-Refines,
}
use embedded_async.Channel.Refine.Polls.{polls_send-Refines, polls_recv-Refines}
use embedded_async.Channel.Refine.Futures.{
  makes_send-Refines, makes_recv-Refines, cancels_send-Refines, cancels_recv-Refines,
}

-- The answers of the bounded channel to requests, and how it is left.
abbrev pub answers : {T : Type 0} → ℕ → List (Request T) → Bounded T → List (Answer T) × Bounded T
answers capacity [] s = ([], s)
answers capacity (r ∷ rs) s =
    let (a, t) = answer capacity r s in let (said, u) = answers capacity rs t in (a ∷ said, u)

-- The bounded channel with its first sender and its first receiver.
abbrev pub just_split : {T : Type 0} → List Waker → Bounded T
just_split woken = record {
  items = [];
  senders = 1;
  receivers = 1;
  asleep_receivers = [];
  asleep_senders = [];
  woken = woken;
}

module _ {T : Type 0} (ops : SpscQueue T) (fuel : ℕ) (local : LinkList) where
  open ops use {capacity}

  -- A run of the code: each operation is allowed where it starts, and ends with an answer.
  pub data Run
      : Memory ops → Bounded T → List (Request T) → List (Answer T) → Memory ops → Type 0 where
    stop : (w : Memory ops) (s : Bounded T) → Run w s [] [] w
    next :
        {w v u : Memory ops} {s : Bounded T} (r : Request T) {a : Answer T} {rs : List (Request T)}
        {said : List (Answer T)}
        → Allowed ops fuel local w s r
        → perform ops fuel local r w ≡ ok a v
        → Run v (answer capacity r s).1 rs said u
        → Run w s (r ∷ rs) (a ∷ said) u

  -- Of any operation on a memory that holds the bounded channel `s`, with more rounds of fuel than
  -- tasks wait on each side, the answer is that of the bounded channel, and the memory that it
  -- leaves holds what the bounded channel becomes: no operation has undefined behaviour, panics or
  -- runs out of fuel. An end is there that does the operation, less than 2 ^ 32 ends of a kind are
  -- made, a new future lies in unused memory, one that is polled is in neither wait list, one that
  -- is dropped waits on its own side or not at all, and the waiter of either is its own.
  pub perform-Refines :
      (w : Memory ops) (s : Bounded T) (r : Request T)
      → Models ops fuel local w s
      → length s.asleep_receivers < fuel
      → length s.asleep_senders < fuel
      → Allowed ops fuel local w s r
      → (u : Memory ops) × (perform ops fuel local r w ≡ ok (answer capacity r s).0 u)
        × Models ops fuel local u (answer capacity r s).1
  unfolding perform
  perform-Refines w s (puts v) models few_r few_s may =
      let (u, e, holds) = offer-Models ops fuel local w s models v few_r in (u, rw e, holds)
  perform-Refines w s takes models few_r few_s may =
      let (u, e, holds) = demand-Models ops fuel local w s models s.items refl few_s in
      (u, rw e, holds)
  perform-Refines w s adds_sender models few_r few_s may =
      adds_sender-Refines ops fuel local w s models may
  perform-Refines w s adds_receiver models few_r few_s may =
      adds_receiver-Refines ops fuel local w s models may
  perform-Refines w s drops_sender models few_r few_s may =
      drops_sender-Refines ops fuel local w s models few_r may
  perform-Refines w s drops_receiver models few_r few_s may =
      drops_receiver-Refines ops fuel local w s models few_s may
  perform-Refines w s (polls_send v p x k) models few_r few_s may =
      polls_send-Refines ops fuel local w s models v p x k few_r may
  perform-Refines w s (polls_recv p x k) models few_r few_s may =
      polls_recv-Refines ops fuel local w s models p x k few_s may
  perform-Refines w s (makes_send v p x) models few_r few_s may =
      makes_send-Refines ops fuel local w s models v p x may
  perform-Refines w s (makes_recv p x) models few_r few_s may =
      makes_recv-Refines ops fuel local w s models p x may
  perform-Refines w s (cancels_send p x) models few_r few_s may =
      cancels_send-Refines ops fuel local w s models p x few_r may
  perform-Refines w s (cancels_recv p x) models few_r few_s may =
      cancels_recv-Refines ops fuel local w s models p x few_s may

  -- The answers of any run on a memory that holds the bounded channel `s` are those of the bounded
  -- channel to the same requests, and the memory that it leaves holds what the bounded channel
  -- becomes. In the run an end is there that does each operation, less than 2 ^ 32 ends of a kind
  -- are made, a new future lies in unused memory, one that is polled is in neither wait list, one
  -- that is dropped waits on its own side or not at all, and the waiter of either is its own. Fuel
  -- is more than the tasks that wait on each side and the requests together.
  pub Run-answers :
      {w u : Memory ops} {s : Bounded T} {rs : List (Request T)} {said : List (Answer T)}
      → Models ops fuel local w s
      → length s.asleep_receivers + length rs < fuel
      → length s.asleep_senders + length rs < fuel
      → Run w s rs said u
      → (said ≡ (answers capacity rs s).0) × Models ops fuel local u (answers capacity rs s).1
  Run-answers models few_r few_s (stop w s) = (refl, models)
  Run-answers models few_r few_s (next {w} {v} {u} {s} r {a} {rs} {said} may e run) =
      let (x, d, holds) = perform-Refines w s r models (omega arith) (omega arith) may in
      let eq : ok (answer capacity r s).0 x ≡ ok a v = sym d ∙ e in
      let said_same : (answer capacity r s).0 ≡ a = (cc) in
      let left_same : x ≡ v = (cc) in
      let (more_r, more_s) = answer-Asleep capacity r s in
      let (rest, left) =
        Run-answers (subst (λ m. Models ops fuel local m (answer capacity r s).1) left_same holds)
          (omega arith) (omega arith) run in
      (cc, left)

  -- The first `split` of a new channel, whose lists are set up and empty, gives a sender and a
  -- receiver, and the memory holds the bounded channel that is empty then; `local` is fresh memory.
  pub split-Models :
      (w : Memory ops) (me : Ptr) (receivers senders : LinkList)
      → w.self ≡ new ops receivers senders
      → IsChannel ops w [] []
      → Fresh w.links local
      → (u : Memory ops) × (split ops me w ≡ ok true u)
        × Models ops fuel local u (just_split w.woken)
  unfolding split
  split-Models w me receivers senders is_new channel fresh =
      let once = (get_ref (new_anchor me)).0 in
      (
        record w { self = record w.self { tx_rx_rc = some (once, once) } },
        rw (ap (λ c. c.tx_rx_rc) is_new),
        record {
          channel = record {
            receivers = channel.receivers;
            senders = channel.senders;
            apart = channel.apart;
          };
          fresh = fresh;
          queue = ap (λ c. ops.items c.queue) is_new ∙ ops.items_new;
          woken = refl;
          tx = once;
          rx = once;
          split = refl;
          senders = refl;
          receivers = refl;
          few_senders = omega arith;
          few_receivers = omega arith;
        },
      )
