-- ===== src/Channel/Wakeups.antt =====
-- src/channel/mod.rs: no wakeup is lost, over any sequence of operations on a new channel.
use embedded_async.Base.{
  ◌+◌, count, ℕ, ◌<◌, ◌≡◌, ◌≢◌, ◌==◌, refl, sym, ap, ◌∙◌, subst, List, [], ◌∷◌, length, ok, true,
  false, arith, ◌⊎◌, inl, inr, if◌then◌else◌,
}
use embedded_async.Intrusive.Links.{Ptr, LinkList}
use embedded_async.Intrusive.Links.Lifetime.{Fresh}
use embedded_async.World.Waits.{Waits, wakers_of}
use embedded_async.World.{Waker}
use embedded_async.Channel.{new, split, try_send, try_recv, failure, full, empty, recv_closed}
use embedded_async.Channel.Queue.{SpscQueue}
use embedded_async.Channel.Notify.{Memory, IsChannel}
use embedded_async.Channel.TrySend.{try_send-full}
use embedded_async.Channel.TryRecv.{try_recv-nil}
use embedded_async.Channel.Spec.{Bounded, Request, Answer, answer}
use embedded_async.Channel.Tally.{given_up, sleepers_of, answers-Balanced}
use embedded_async.Channel.Alert.{Alert, answer-Alert}
use embedded_async.Channel.Refine.{Models}
use embedded_async.Channel.Trace.{Run, answers, just_split, split-Models, Run-answers}

nil-or-not : (ts : Waits) → (ts ≡ []) ⊎ (ts ≢ [])
nil-or-not [] = inl refl
nil-or-not (t ∷ ts) = inr (λ e. cc)

answers-Alert :
    {T : Type 0} (capacity : ℕ) (rs : List (Request T)) (s : Bounded T)
    → Alert capacity s
    → Alert capacity (answers capacity rs s).1
answers-Alert capacity [] s alert = alert
answers-Alert capacity (r ∷ rs) s alert =
    answers-Alert capacity rs (answer capacity r s).1 (answer-Alert capacity r s alert)

module _ {T : Type 0} (ops : SpscQueue T) (fuel : ℕ) (local : LinkList) where
  open ops use {items, capacity}

  -- What a receive or a send that sleeps would find in the memory `u`.
  abbrev Pending : Memory ops → Bounded T → Type 0
  Pending u t =
      ((t.asleep_receivers ≡ []) ⊎ (try_recv ops fuel local u ≡ ok (failure empty) u))
      × ((t.asleep_senders ≡ [])
          ⊎ ((v : T) → try_send ops fuel local v u ≡ ok (failure (full v)) u))

  Alert-Pending :
      (u : Memory ops) (t : Bounded T) → Models ops fuel local u t → Alert capacity t → Pending u t
  Alert-Pending u t models alert = (
    elim (nil-or-not t.asleep_receivers) [
      | inl e ↦ inl e
      | inr ne ↦
          let (none_left, alive) = alert.receivers ne in
          let test : (models.tx.ref_count == 0) ≡ false = ground (arith, models.senders, alive) in
          inr (
            try_recv-nil ops u models.tx models.rx models.split fuel local
              (models.queue ∙ none_left)
            ∙ ap (λ b. ok (failure (if b then recv_closed else empty)) u) test)
    ],
    elim (nil-or-not t.asleep_senders) [
      | inl e ↦ inl e
      | inr ne ↦
          let (no_room, alive) = alert.senders ne in
          inr (λ v.
            try_send-full ops u models.tx models.rx models.split fuel local v
              (ground (arith, models.receivers, alive))
              (ground (arith, ap length models.queue, no_room)))
    ],
  )

  -- After any run of operations on a new channel that was split, while a receive sleeps `try_recv`
  -- finds nothing and the channel open, and while a send sleeps `try_send` finds the queue full and
  -- a receiver left, whatever the value; and every task has been woken as often as a poll, by the
  -- answers of the code, sent it to sleep, but for the times that it still sleeps in a wait list and
  -- those where its sleeping future was dropped. The wait lists
  -- hold those that sleep in the bounded channel after the same requests. Each operation of the run
  -- is allowed where it starts, `local` is fresh memory, and fuel is more than the requests.
  pub Run-no_lost_wakeup :
      (w v u : Memory ops) (me : Ptr) (receivers senders : LinkList) (rs : List (Request T))
      (said : List (Answer T))
      → w.self ≡ new ops receivers senders
      → IsChannel ops w [] []
      → Fresh w.links local
      → split ops me w ≡ ok true v
      → Run ops fuel local v (just_split w.woken) rs said u
      → length rs < fuel
      → IsChannel ops u
          (answers capacity rs (just_split w.woken)).1.asleep_receivers
          (answers capacity rs (just_split w.woken)).1.asleep_senders
        × ((answers capacity rs (just_split w.woken)).1.asleep_receivers ≡ []
            ⊎ (try_recv ops fuel local u ≡ ok (failure empty) u))
        × ((answers capacity rs (just_split w.woken)).1.asleep_senders ≡ []
            ⊎ ((x : T) → try_send ops fuel local x u ≡ ok (failure (full x)) u))
        × ((k : Waker)
            → count k u.woken
                + count k (wakers_of (answers capacity rs (just_split w.woken)).1.asleep_receivers)
                + count k (wakers_of (answers capacity rs (just_split w.woken)).1.asleep_senders)
                + count k (given_up capacity rs (just_split w.woken))
              ≡ count k w.woken + count k (sleepers_of rs said))
  Run-no_lost_wakeup w v u me receivers senders rs said is_new channel fresh split_ok run few =
      let (x, e, holds) = split-Models ops fuel local w me receivers senders is_new channel fresh in
      let eq : ok true x ≡ ok true v = sym e ∙ split_ok in
      let same : x ≡ v = (cc) in
      let s = just_split w.woken in
      let start = subst (λ m. Models ops fuel local m s) same holds in
      let (heard, left) =
        Run-answers ops fuel local {rs = rs} start (omega arith) (omega arith) run in
      let t = (answers capacity rs s).1 in
      let alert : Alert capacity t =
        answers-Alert capacity rs s
          (record { receivers = λ ne. absurd (ne refl); senders = λ ne. absurd (ne refl) }) in
      let (r, q) = Alert-Pending u t left alert in
      (
        left.channel,
        r,
        q,
        λ k. rw (left.woken, heard) (omega (arith, answers-Balanced capacity k rs s)),
      )
