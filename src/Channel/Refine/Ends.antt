-- ===== src/Channel/Refine/Ends.antt =====
-- src/channel/mod.rs: the clones and the drops of senders and receivers refine the bounded channel.
use mathlib.Core.List.{append-nil}
use embedded_async.Base.{
  ℕ, ◌+◌, ◌-◌, ◌<◌, ◌≡◌, refl, ap, subst, ◌∙◌, ◌==◌, ◌^◌, if◌then◌else◌, [], ◌++◌, length, some,
  Bool-cases, inl, inr, arith,
}
use embedded_async.Intrusive.Links.{Ptr, LinkList}
use embedded_async.Intrusive.Rc.{RcAnchor, increment_refcount, decrement_refcount}
use embedded_async.World.Waits.{wakers_of}
use embedded_async.Channel.{clone_sender, clone_receiver}
use embedded_async.Channel.Queue.{SpscQueue}
use embedded_async.Channel.Notify.{Memory, IsChannel}
use embedded_async.Channel.Drop.{drop_sender-wakes, drop_receiver-wakes}
use embedded_async.Channel.Spec.{Bounded, adds_sender, adds_receiver, drops_sender, drops_receiver}
use embedded_async.Channel.Refine.{perform, Models, Allowed, Refines, ends-Models}

module _ {T : Type 0} (ops : SpscQueue T) (fuel : ℕ) (local : LinkList) (w : Memory ops)
    (s : Bounded T) (models : Models ops fuel local w s) where
  abbrev tx : RcAnchor Ptr
  tx = models.tx

  abbrev rx : RcAnchor Ptr
  rx = models.rx

  pub adds_sender-Refines :
      Allowed ops fuel local w s adds_sender → Refines ops fuel local w s adds_sender
  unfolding perform clone_sender
  adds_sender-Refines (some_left, few) =
      let u : Memory ops = record w {
        self = record w.self { tx_rx_rc = some (increment_refcount tx, rx) };
      } in
      (
        u,
        rw models.split,
        ends-Models ops fuel local w s models u (increment_refcount tx) rx (s.senders + 1)
            s.receivers s.asleep_receivers s.asleep_senders s.woken refl
            (ground (arith, models.senders, few)) models.receivers few models.few_receivers
            (record {
              receivers = models.channel.receivers;
              senders = models.channel.senders;
              apart = models.channel.apart;
            })
            models.fresh models.woken,
      )

  pub adds_receiver-Refines :
      Allowed ops fuel local w s adds_receiver → Refines ops fuel local w s adds_receiver
  unfolding perform clone_receiver
  adds_receiver-Refines (some_left, few) =
      let u : Memory ops = record w {
        self = record w.self { tx_rx_rc = some (tx, increment_refcount rx) };
      } in
      (
        u,
        rw models.split,
        ends-Models ops fuel local w s models u tx (increment_refcount rx) s.senders
            (s.receivers + 1) s.asleep_receivers s.asleep_senders s.woken refl models.senders
            (ground (arith, models.receivers, few)) models.few_senders few
            (record {
              receivers = models.channel.receivers;
              senders = models.channel.senders;
              apart = models.channel.apart;
            })
            models.fresh models.woken,
      )

  pub drops_sender-Refines :
      length s.asleep_receivers < fuel
      → Allowed ops fuel local w s drops_sender
      → Refines ops fuel local w s drops_sender
  unfolding perform
  drops_sender-Refines few some_left =
      let (u, e, same, woken, channel, fresh) =
        drop_sender-wakes ops w tx rx models.split fuel local s.asleep_receivers s.asleep_senders
          models.channel models.fresh few in
      let test : (tx.ref_count == 1) ≡ (s.senders == 1) = ap (λ n. n == 1) models.senders in
      let count : (decrement_refcount tx).ref_count ≡ s.senders - 1 =
        ground (arith, models.senders, models.few_senders) in
      let few_left : s.senders - 1 < 2 ^ 32 = omega (arith, models.few_senders) in
      (
        u,
        rw e,
        elim (Bool-cases (s.senders == 1)) [
          | inl last ↦ rw last (
              ends-Models ops fuel local w s models u (decrement_refcount tx) rx (s.senders - 1)
                s.receivers [] s.asleep_senders (s.woken ++ wakers_of s.asleep_receivers) same count
                models.receivers few_left models.few_receivers
                (subst
                  (λ b. IsChannel ops u (if b then [] else s.asleep_receivers) s.asleep_senders)
                  (test ∙ last) channel)
                fresh
                (woken
                  ∙ ap (λ b. w.woken ++ (if b then wakers_of s.asleep_receivers else []))
                      (test ∙ last)
                  ∙ ap (λ ks. ks ++ wakers_of s.asleep_receivers) models.woken))
          | inr more ↦ rw more (
              ends-Models ops fuel local w s models u (decrement_refcount tx) rx (s.senders - 1)
                s.receivers s.asleep_receivers s.asleep_senders s.woken same count models.receivers
                few_left models.few_receivers
                (subst
                  (λ b. IsChannel ops u (if b then [] else s.asleep_receivers) s.asleep_senders)
                  (test ∙ more) channel)
                fresh
                (woken
                  ∙ ap (λ b. w.woken ++ (if b then wakers_of s.asleep_receivers else []))
                      (test ∙ more)
                  ∙ append-nil w.woken
                  ∙ models.woken))
        ],
      )

  pub drops_receiver-Refines :
      length s.asleep_senders < fuel
      → Allowed ops fuel local w s drops_receiver
      → Refines ops fuel local w s drops_receiver
  unfolding perform
  drops_receiver-Refines few some_left =
      let (u, e, same, woken, channel, fresh) =
        drop_receiver-wakes ops w tx rx models.split fuel local s.asleep_receivers s.asleep_senders
          models.channel models.fresh few in
      let test : (rx.ref_count == 1) ≡ (s.receivers == 1) = ap (λ n. n == 1) models.receivers in
      let count : (decrement_refcount rx).ref_count ≡ s.receivers - 1 =
        ground (arith, models.receivers, models.few_receivers) in
      let few_left : s.receivers - 1 < 2 ^ 32 = omega (arith, models.few_receivers) in
      (
        u,
        rw e,
        elim (Bool-cases (s.receivers == 1)) [
          | inl last ↦ rw last (
              ends-Models ops fuel local w s models u tx (decrement_refcount rx) s.senders
                (s.receivers - 1) s.asleep_receivers [] (s.woken ++ wakers_of s.asleep_senders) same
                models.senders count models.few_senders few_left
                (subst
                  (λ b. IsChannel ops u s.asleep_receivers (if b then [] else s.asleep_senders))
                  (test ∙ last) channel)
                fresh
                (woken
                  ∙ ap (λ b. w.woken ++ (if b then wakers_of s.asleep_senders else []))
                      (test ∙ last)
                  ∙ ap (λ ks. ks ++ wakers_of s.asleep_senders) models.woken))
          | inr more ↦ rw more (
              ends-Models ops fuel local w s models u tx (decrement_refcount rx) s.senders
                (s.receivers - 1) s.asleep_receivers s.asleep_senders s.woken same models.senders
                count models.few_senders few_left
                (subst
                  (λ b. IsChannel ops u s.asleep_receivers (if b then [] else s.asleep_senders))
                  (test ∙ more) channel)
                fresh
                (woken
                  ∙ ap (λ b. w.woken ++ (if b then wakers_of s.asleep_senders else []))
                      (test ∙ more)
                  ∙ append-nil w.woken
                  ∙ models.woken))
        ],
      )
