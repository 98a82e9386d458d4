-- ===== src/Channel/Alert.antt =====
-- The bounded channel of Channel/Spec: a task sleeps only as long as its poll would still be
-- pending.
use embedded_async.Base.{
  ℕ, ◌<◌, ◌≤◌, ◌≡◌, ◌≢◌, ◌==◌, ltb, refl, [], ◌∷◌, List, length, arith, Bool-cases, inl, inr,
}
use embedded_async.Intrusive.Links.{Ptr}
use embedded_async.World.{Waker}
use embedded_async.World.Waits.{Waits}
use embedded_async.World.Without.{without}
use embedded_async.Channel.Spec.{
  Bounded, Request, puts, takes, adds_sender, adds_receiver, drops_sender, drops_receiver,
  polls_send, polls_recv, makes_send, makes_recv, cancels_send, cancels_recv, lose_sender,
  lose_receiver, offer, demand, sleep_receiver, answer,
}

-- A list that is not empty stays so when it is made longer.
without-ne : (x : Ptr) (ts : Waits) → without x ts ≢ [] → ts ≢ []
without-ne x [] ne e = ne refl
without-ne x ((y, k) ∷ ts) ne e = cc

module _ {T : Type 0} (capacity : ℕ) where
  -- Receivers sleep only on an empty queue with a sender left, and senders only on a full one with
  -- a receiver left.
  pub record Alert (s : Bounded T) : Type 0 where
    pub receivers : s.asleep_receivers ≢ [] → (s.items ≡ []) × (0 < s.senders)
    pub senders : s.asleep_senders ≢ [] → (capacity ≤ length s.items) × (0 < s.receivers)

  offer-Alert : (v : T) (s : Bounded T) → Alert s → Alert (offer capacity v s).1
  offer-Alert v s alert = elim (Bool-cases (s.receivers == 0)) [
    | inl gone ↦ rw gone alert
    | inr alive ↦ elim (Bool-cases (ltb (length s.items) capacity)) [
      | inl room ↦
          rw (alive, room)
            (record {
              receivers = λ ne. absurd (ne refl);
              senders = λ ne. absurd (ground (arith, alert.senders ne, room));
            })
      | inr no_room ↦ rw (alive, no_room) alert
    ]
  ]

  demand-Alert : (vs : List T) (s : Bounded T) → s.items ≡ vs → Alert s → Alert (demand vs s).1
  demand-Alert [] s e alert = alert
  demand-Alert (v ∷ vs) s e alert = record {
    receivers = λ ne. (let (d, some_left) = alert.receivers ne in absurd (cc));
    senders = λ ne. absurd (ne refl);
  }

  lose_sender-Alert : (s : Bounded T) → Alert s → Alert (lose_sender s)
  lose_sender-Alert s alert = elim (Bool-cases (s.senders == 1)) [
    | inl last ↦ rw last (record { receivers = λ ne. absurd (ne refl); senders = alert.senders })
    | inr more ↦ rw more (record {
      receivers = λ ne. let (e, some_left) = alert.receivers ne in (e, ground (arith, more));
      senders = alert.senders;
    })
  ]

  lose_receiver-Alert : (s : Bounded T) → Alert s → Alert (lose_receiver s)
  lose_receiver-Alert s alert = elim (Bool-cases (s.receivers == 1)) [
    | inl last ↦ rw last (record { receivers = alert.receivers; senders = λ ne. absurd (ne refl) })
    | inr more ↦ rw more (record {
      receivers = alert.receivers;
      senders = λ ne. let (e, some_left) = alert.senders ne in (e, ground (arith, more));
    })
  ]

  sends-Alert :
      (v : T) (p x : Ptr) (k : Waker) (s : Bounded T)
      → Alert s
      → Alert (answer capacity (polls_send v p x k) s).1
  sends-Alert v p x k s alert = elim (Bool-cases (s.receivers == 0)) [
    | inl gone ↦ rw gone (record { receivers = alert.receivers; senders = alert.senders })
    | inr alive ↦ elim (Bool-cases (ltb (length s.items) capacity)) [
      | inl room ↦
          rw (alive, room)
            (record {
              receivers = λ ne. absurd (ne refl);
              senders = λ ne. absurd (ground (arith, alert.senders ne, room));
            })
      | inr no_room ↦
          rw (alive, no_room)
            (record {
              receivers = alert.receivers;
              senders = λ ne. (ground (arith, no_room), ground (arith, alive));
            })
    ]
  ]

  recvs-Alert :
      (vs : List T) (p x : Ptr) (k : Waker) (s : Bounded T)
      → s.items ≡ vs
      → Alert s
      → Alert (sleep_receiver x k (demand vs s)).1
  recvs-Alert [] p x k s e alert = elim (Bool-cases (s.senders == 0)) [
    | inl gone ↦ rw gone alert
    | inr alive ↦
        rw alive (record { receivers = λ ne. (e, ground (arith, alive)); senders = alert.senders })
  ]
  recvs-Alert (v ∷ vs) p x k s e alert = demand-Alert (v ∷ vs) s e alert

  pub answer-Alert : (r : Request T) (s : Bounded T) → Alert s → Alert (answer capacity r s).1
  answer-Alert (puts v) s alert = offer-Alert v s alert
  answer-Alert takes s alert = demand-Alert s.items s refl alert
  answer-Alert adds_sender s alert = record {
    receivers = λ ne. let (e, some_left) = alert.receivers ne in (e, omega arith);
    senders = alert.senders;
  }
  answer-Alert adds_receiver s alert = record {
    receivers = alert.receivers;
    senders = λ ne. let (e, some_left) = alert.senders ne in (e, omega arith);
  }
  answer-Alert drops_sender s alert = lose_sender-Alert s alert
  answer-Alert drops_receiver s alert = lose_receiver-Alert s alert
  answer-Alert (polls_send v p x k) s alert = sends-Alert v p x k s alert
  answer-Alert (polls_recv p x k) s alert = recvs-Alert s.items p x k s refl alert
  answer-Alert (makes_send v p x) s alert = record {
    receivers = λ ne. let (e, some_left) = alert.receivers ne in (e, omega arith);
    senders = alert.senders;
  }
  answer-Alert (makes_recv p x) s alert = record {
    receivers = alert.receivers;
    senders = λ ne. let (e, some_left) = alert.senders ne in (e, omega arith);
  }
  answer-Alert (cancels_send p x) s alert =
      lose_sender-Alert (record s { asleep_senders = without x s.asleep_senders })
        (record {
          receivers = alert.receivers;
          senders = λ ne. alert.senders (without-ne x s.asleep_senders ne);
        })
  answer-Alert (cancels_recv p x) s alert =
      lose_receiver-Alert (record s { asleep_receivers = without x s.asleep_receivers })
        (record {
          receivers = λ ne. alert.receivers (without-ne x s.asleep_receivers ne);
          senders = alert.senders;
        })
