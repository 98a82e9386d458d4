-- ===== src/Channel/Tally.antt =====
-- The bounded channel of Channel/Spec: how often a task went to sleep and was woken.
use embedded_async.Base.{
  ℕ, ◌+◌, ◌≡◌, ◌==◌, ltb, refl, [], ◌∷◌, ◌++◌, List, arith, Bool-cases, inl, inr, count, length,
  count-append, ap, ◌∙◌, if◌then◌else◌,
}
use embedded_async.Intrusive.Links.{Ptr}
use embedded_async.World.{Waker, pending}
use embedded_async.World.Waits.{Waits, wakers_of}
use embedded_async.World.Without.{without}
use embedded_async.Channel.Trace.{answers}
use embedded_async.Channel.Spec.{
  Bounded, Request, puts, takes, adds_sender, adds_receiver, drops_sender, drops_receiver,
  polls_send, polls_recv, makes_send, makes_recv, cancels_send, cancels_recv, Answer, send_polled,
  recv_polled, lose_sender, lose_receiver, offer, demand, sleep_receiver, answer,
}

-- The tasks behind the link `x`.
abbrev pub wakers_at : Ptr → Waits → List Waker
wakers_at x [] = []
wakers_at x ((y, k) ∷ ts) = let rest = wakers_at x ts in if x == y then k ∷ rest else rest

wakers_of-append : (ts us : Waits) → wakers_of (ts ++ us) ≡ wakers_of ts ++ wakers_of us
wakers_of-append [] us = refl
wakers_of-append ((x, k) ∷ ts) us = ap (◌∷◌ k) (wakers_of-append ts us)

-- The task that a poll sends to sleep, by the answer to it.
abbrev pub sleeper_of : {T : Type 0} → Request T → Answer T → List Waker
sleeper_of (polls_send v p x k) (send_polled _ pending) = k ∷ []
sleeper_of (polls_recv p x k) (recv_polled pending) = k ∷ []
sleeper_of _ _ = []

-- The tasks that no longer wait because their future goes.
abbrev pub given_up_by : {T : Type 0} → Request T → Bounded T → List Waker
given_up_by (cancels_send p x) s = wakers_at x s.asleep_senders
given_up_by (cancels_recv p x) s = wakers_at x s.asleep_receivers
given_up_by _ s = []

-- The same for a run of requests.
abbrev pub sleepers_of : {T : Type 0} → List (Request T) → List (Answer T) → List Waker
sleepers_of [] said = []
sleepers_of (r ∷ rs) [] = []
sleepers_of (r ∷ rs) (a ∷ said) = sleeper_of r a ++ sleepers_of rs said

abbrev pub given_up : {T : Type 0} → ℕ → List (Request T) → Bounded T → List Waker
given_up capacity [] s = []
given_up capacity (r ∷ rs) s = given_up_by r s ++ given_up capacity rs (answer capacity r s).1

module _ (k : Waker) where
  count-without :
      (x : Ptr) (ts : Waits)
      → count k (wakers_of (without x ts)) + count k (wakers_at x ts) ≡ count k (wakers_of ts)
  count-without x [] = refl
  count-without x ((y, j) ∷ ts) = ground (arith, count-without x ts)

  count-asleep :
      (ts : Waits) (x : Ptr) (j : Waker)
      → count k (wakers_of (ts ++ (x, j) ∷ [])) ≡ count k (wakers_of ts) + count k (j ∷ [])
  count-asleep ts x j =
      ap (count k) (wakers_of-append ts ((x, j) ∷ [])) ∙ count-append k (wakers_of ts) (j ∷ [])

module _ {T : Type 0} (capacity : ℕ) (k : Waker) where
  -- How often the task was woken or sleeps.
  abbrev pub total : Bounded T → ℕ
  total s =
      count k s.woken
      + count k (wakers_of s.asleep_receivers)
      + count k (wakers_of s.asleep_senders)

  offer-total : (v : T) (s : Bounded T) → total (offer capacity v s).1 ≡ total s
  offer-total v s = elim (Bool-cases (s.receivers == 0)) [
    | inl gone ↦ rw gone refl
    | inr alive ↦ elim (Bool-cases (ltb (length s.items) capacity)) [
      | inl room ↦
          rw (alive, room) (omega (arith, count-append k s.woken (wakers_of s.asleep_receivers)))
      | inr no_room ↦ rw (alive, no_room) refl
    ]
  ]

  demand-total : (vs : List T) (s : Bounded T) → total (demand vs s).1 ≡ total s
  demand-total [] s = refl
  demand-total (v ∷ vs) s = omega (arith, count-append k s.woken (wakers_of s.asleep_senders))

  lose_sender-total : (s : Bounded T) → total (lose_sender s) ≡ total s
  lose_sender-total s = elim (Bool-cases (s.senders == 1)) [
    | inl last ↦ rw last (omega (arith, count-append k s.woken (wakers_of s.asleep_receivers)))
    | inr more ↦ rw more refl
  ]

  lose_receiver-total : (s : Bounded T) → total (lose_receiver s) ≡ total s
  lose_receiver-total s = elim (Bool-cases (s.receivers == 1)) [
    | inl last ↦ rw last (omega (arith, count-append k s.woken (wakers_of s.asleep_senders)))
    | inr more ↦ rw more refl
  ]

  abbrev Balanced : Request T → Bounded T → Type 0
  Balanced r s =
      total (answer capacity r s).1 + count k (given_up_by r s)
      ≡ total s + count k (sleeper_of r (answer capacity r s).0)

  sends-Balanced : (v : T) (p x : Ptr) (j : Waker) (s : Bounded T) → Balanced (polls_send v p x j) s
  sends-Balanced v p x j s = elim (Bool-cases (s.receivers == 0)) [
    | inl gone ↦ rw gone refl
    | inr alive ↦ elim (Bool-cases (ltb (length s.items) capacity)) [
      | inl room ↦
          rw (alive, room) (omega (arith, count-append k s.woken (wakers_of s.asleep_receivers)))
      | inr no_room ↦ rw (alive, no_room) (omega (arith, count-asleep k s.asleep_senders x j))
    ]
  ]

  recvs-Balanced :
      (vs : List T) (p x : Ptr) (j : Waker) (s : Bounded T)
      → s.items ≡ vs
      → total (sleep_receiver x j (demand vs s)).1
        ≡ total s + count k (sleeper_of (polls_recv p x j) (sleep_receiver x j (demand vs s)).0)
  recvs-Balanced [] p x j s e = elim (Bool-cases (s.senders == 0)) [
    | inl gone ↦ rw gone (omega arith)
    | inr alive ↦ rw alive (omega (arith, count-asleep k s.asleep_receivers x j))
  ]
  recvs-Balanced (v ∷ vs) p x j s e =
      omega (arith, count-append k s.woken (wakers_of s.asleep_senders))

  -- A request leaves as many that sleep or were woken, but for the task that it sends to sleep and
  -- those whose future it drops.
  pub answer-Balanced : (r : Request T) (s : Bounded T) → Balanced r s
  answer-Balanced (puts v) s = omega (arith, offer-total v s)
  answer-Balanced takes s = omega (arith, demand-total s.items s)
  answer-Balanced adds_sender s = refl
  answer-Balanced adds_receiver s = refl
  answer-Balanced drops_sender s = omega (arith, lose_sender-total s)
  answer-Balanced drops_receiver s = omega (arith, lose_receiver-total s)
  answer-Balanced (polls_send v p x j) s = sends-Balanced v p x j s
  answer-Balanced (polls_recv p x j) s = omega (arith, recvs-Balanced s.items p x j s refl)
  answer-Balanced (makes_send v p x) s = refl
  answer-Balanced (makes_recv p x) s = refl
  answer-Balanced (cancels_send p x) s = omega (
    arith,
    lose_sender-total (record s { asleep_senders = without x s.asleep_senders }),
    count-without k x s.asleep_senders,
  )
  answer-Balanced (cancels_recv p x) s = omega (
    arith,
    lose_receiver-total (record s { asleep_receivers = without x s.asleep_receivers }),
    count-without k x s.asleep_receivers,
  )

  -- The same for a run of requests.
  pub answers-Balanced :
      (rs : List (Request T)) (s : Bounded T)
      → total (answers capacity rs s).1 + count k (given_up capacity rs s)
        ≡ total s + count k (sleepers_of rs (answers capacity rs s).0)
  answers-Balanced [] s = refl
  answers-Balanced (r ∷ rs) s =
      let (a, t) = answer capacity r s in
      omega (
        arith,
        answer-Balanced r s,
        answers-Balanced rs t,
        count-append k (given_up_by r s) (given_up capacity rs t),
        count-append k (sleeper_of r a) (sleepers_of rs (answers capacity rs t).0),
      )
