-- ===== src/Channel/Asleep.antt =====
-- How many tasks an operation of the bounded channel puts to sleep.
use embedded_async.Base.{
  ℕ, ◌+◌, ◌≤◌, ◌==◌, ltb, [], ◌∷◌, List, length, length-append, arith, Bool-cases, inl, inr,
}
use embedded_async.Intrusive.Links.{Ptr}
use embedded_async.World.{Waker}
use embedded_async.World.Without.{without, length-without}
use embedded_async.Channel.{
  Result, success, failure, TrySendError, full, send_closed, TryRecvError, empty, recv_closed,
}
use embedded_async.Channel.Spec.{
  Bounded, Request, puts, takes, adds_sender, adds_receiver, drops_sender, drops_receiver,
  polls_send, polls_recv, makes_send, makes_recv, cancels_send, cancels_recv, lose_sender,
  lose_receiver, offer, demand, sleep_sender, sleep_receiver, answer,
}

module _ {T : Type 0} (capacity : ℕ) where
  -- On each side of `t` at most `n` tasks more sleep than of `s`.
  abbrev pub Asleep : ℕ → Bounded T → Bounded T → Type 0
  Asleep n s t =
      (length t.asleep_receivers ≤ length s.asleep_receivers + n)
      × (length t.asleep_senders ≤ length s.asleep_senders + n)

  offer-Asleep : (v : T) (s : Bounded T) → Asleep 0 s (offer capacity v s).1
  offer-Asleep v s = elim (Bool-cases (s.receivers == 0)) [
    | inl gone ↦ rw gone (omega arith, omega arith)
    | inr alive ↦ elim (Bool-cases (ltb (length s.items) capacity)) [
      | inl room ↦ rw (alive, room) (omega arith, omega arith)
      | inr no_room ↦ rw (alive, no_room) (omega arith, omega arith)
    ]
  ]

  demand-Asleep : (vs : List T) (s : Bounded T) → Asleep 0 s (demand vs s).1
  demand-Asleep [] s = (omega arith, omega arith)
  demand-Asleep (v ∷ vs) s = (omega arith, omega arith)

  sleep_sender-Asleep :
      (x : Ptr) (k : Waker) (s : Bounded T) (o : Result (Unit {0}) (TrySendError T) × Bounded T)
      → Asleep 0 s o.1
      → Asleep 1 s (sleep_sender x k o).1
  sleep_sender-Asleep x k s (success n, t) (a, b) = (omega arith, omega arith)
  sleep_sender-Asleep x k s (failure (send_closed v), t) (a, b) = (omega arith, omega arith)
  sleep_sender-Asleep x k s (failure (full v), t) (a, b) =
      (omega arith, omega (arith, length-append {0} t.asleep_senders ((x, k) ∷ [])))

  sleep_receiver-Asleep :
      (x : Ptr) (k : Waker) (s : Bounded T) (o : Result T TryRecvError × Bounded T)
      → Asleep 0 s o.1
      → Asleep 1 s (sleep_receiver x k o).1
  sleep_receiver-Asleep x k s (success v, t) (a, b) = (omega arith, omega arith)
  sleep_receiver-Asleep x k s (failure recv_closed, t) (a, b) = (omega arith, omega arith)
  sleep_receiver-Asleep x k s (failure empty, t) (a, b) =
      (omega (arith, length-append {0} t.asleep_receivers ((x, k) ∷ [])), omega arith)

  lose_sender-Asleep : (s t : Bounded T) → Asleep 0 s t → Asleep 1 s (lose_sender t)
  lose_sender-Asleep s t (a, b) = elim (Bool-cases (t.senders == 1)) [
    | inl last ↦ rw last (omega arith, omega arith)
    | inr more ↦ rw more (omega arith, omega arith)
  ]

  lose_receiver-Asleep : (s t : Bounded T) → Asleep 0 s t → Asleep 1 s (lose_receiver t)
  lose_receiver-Asleep s t (a, b) = elim (Bool-cases (t.receivers == 1)) [
    | inl last ↦ rw last (omega arith, omega arith)
    | inr more ↦ rw more (omega arith, omega arith)
  ]

  -- No operation puts more than one task to sleep.
  pub answer-Asleep : (r : Request T) (s : Bounded T) → Asleep 1 s (answer capacity r s).1
  answer-Asleep (puts v) s = let (a, b) = offer-Asleep v s in (omega arith, omega arith)
  answer-Asleep takes s = let (a, b) = demand-Asleep s.items s in (omega arith, omega arith)
  answer-Asleep adds_sender s = (omega arith, omega arith)
  answer-Asleep adds_receiver s = (omega arith, omega arith)
  answer-Asleep drops_sender s = lose_sender-Asleep s s (omega arith, omega arith)
  answer-Asleep drops_receiver s = lose_receiver-Asleep s s (omega arith, omega arith)
  answer-Asleep (polls_send v p x k) s =
      sleep_sender-Asleep x k s (offer capacity v s) (offer-Asleep v s)
  answer-Asleep (polls_recv p x k) s =
      sleep_receiver-Asleep x k s (demand s.items s) (demand-Asleep s.items s)
  answer-Asleep (makes_send v p x) s = (omega arith, omega arith)
  answer-Asleep (makes_recv p x) s = (omega arith, omega arith)
  answer-Asleep (cancels_send p x) s =
      lose_sender-Asleep s (record s { asleep_senders = without x s.asleep_senders })
        (omega arith, omega (arith, length-without x s.asleep_senders))
  answer-Asleep (cancels_recv p x) s =
      lose_receiver-Asleep s (record s { asleep_receivers = without x s.asleep_receivers })
        (omega (arith, length-without x s.asleep_receivers), omega arith)
