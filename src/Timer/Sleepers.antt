-- ===== src/Timer/Sleepers.antt =====
-- src/timer/mod.rs: the timers in a list, each with the task to wake and the time that is left, and
-- what the passing of time makes of them.
use embedded_async.Base.{
  ℕ, ◌≡◌, refl, ap, ◌≢◌, List, [], ◌∷◌, ◌++◌, All, ◌∈◌, arith, Option, some, none, if◌then◌else◌,
  Bool-cases, inl, inr, has, has-append,
}
use embedded_async.Intrusive.Links.{Ptr, null}
use embedded_async.World.{Waker}
pub use embedded_async.World.Waits.{links_of, links_of-append}
use embedded_async.Timer.{WaitingTimer, is_zero, saturating_sub, sooner}

abbrev pub Sleepers : Type 0
Sleepers = List (Ptr × (Waker × ℕ))

abbrev pub owners : (Ptr → Ptr) → List Ptr → List Ptr
owners owner [] = []
owners owner (x ∷ xs) = owner x ∷ owners owner xs

-- The waiter that owns the link has the time and the waker given.
abbrev pub Sleeping : (Ptr → Ptr) → (Ptr → Option WaitingTimer) → Ptr × (Waker × ℕ) → Type 0
Sleeping owner waiter (x, (k, t)) =
    (owner x ≢ null) × (waiter (owner x) ≡ some (record { time_until_timeout = t; waker = some k }))

abbrev pub HasTime : Ptr × (Waker × ℕ) → Type 0
HasTime (_, (_, t)) = t ≢ 0

-- What the waiter that owns the link holds once `elapsed` has passed: the time that is left, and the
-- waker, if there is some.
abbrev pub Settled : (Ptr → Ptr) → (Ptr → Option WaitingTimer) → ℕ → Ptr × (Waker × ℕ) → Type 0
Settled owner waiter elapsed (x, (k, t)) =
    let left = saturating_sub t elapsed in
    waiter (owner x)
    ≡ some (record { time_until_timeout = left; waker = if is_zero left then none else some k })

-- The timers that have time left once `elapsed` has passed, in order, with what is left of it.
abbrev pub remaining : ℕ → Sleepers → Sleepers
remaining elapsed [] = []
remaining elapsed ((x, (k, t)) ∷ ts) =
    let rest = remaining elapsed ts in
    let left = saturating_sub t elapsed in if is_zero left then rest else (x, (k, left)) ∷ rest

-- The tasks of the other ones, in order.
abbrev pub expired : ℕ → Sleepers → List Waker
expired elapsed [] = []
expired elapsed ((x, (k, t)) ∷ ts) =
    let rest = expired elapsed ts in if is_zero (saturating_sub t elapsed) then k ∷ rest else rest

-- The least time, if there is one.
abbrev pub least_of : Option ℕ → Sleepers → Option ℕ
least_of least [] = least
least_of least ((x, (k, t)) ∷ ts) = least_of (sooner least t) ts

pub owners-append :
    (owner : Ptr → Ptr) (xs ys : List Ptr)
    → owners owner (xs ++ ys) ≡ owners owner xs ++ owners owner ys
owners-append owner [] ys = refl
owners-append owner (x ∷ xs) ys = ap (◌∷◌ (owner x)) (owners-append owner xs ys)

-- Timers sleep on while no owner changes, and their waiters are not written.
pub Sleeping-frame :
    (owner : Ptr → Ptr) (waiter waiter' : Ptr → Option WaitingTimer) (ts : Sleepers)
    → ((p : Ptr) → p ∈ owners owner (links_of ts) → waiter' p ≡ waiter p)
    → All (Sleeping owner waiter) ts
    → All (Sleeping owner waiter') ts
Sleeping-frame owner waiter waiter' [] same all = tt
Sleeping-frame owner waiter waiter' ((x, k) ∷ ts) same all = (
  (all.0.0, rw (same (owner x) (ground arith)) all.0.1),
  Sleeping-frame owner waiter waiter' ts (λ p m. same p (ground arith)) all.1,
)

-- Timers sleep on while their links keep their owners.
pub Sleeping-owners :
    (owner owner' : Ptr → Ptr) (waiter : Ptr → Option WaitingTimer) (ts : Sleepers)
    → ((x : Ptr) → x ∈ links_of ts → owner' x ≡ owner x)
    → All (Sleeping owner waiter) ts
    → All (Sleeping owner' waiter) ts
Sleeping-owners owner owner' waiter [] keeps all = tt
Sleeping-owners owner owner' waiter ((x, k) ∷ ts) keeps all =
    let o = keeps x (ground arith) in
    (
      (rw o all.0.0, rw o all.0.1),
      Sleeping-owners owner owner' waiter ts (λ y m. keeps y (ground arith)) all.1,
    )

pub owners-same :
    (owner owner' : Ptr → Ptr) (xs : List Ptr)
    → ((x : Ptr) → x ∈ xs → owner' x ≡ owner x)
    → owners owner' xs ≡ owners owner xs
owners-same owner owner' [] keeps = refl
owners-same owner owner' (x ∷ xs) keeps =
    rw (keeps x (ground arith), owners-same owner owner' xs (λ y m. keeps y (ground arith)))

pub remaining-HasTime : (elapsed : ℕ) (ts : Sleepers) → All HasTime (remaining elapsed ts)
remaining-HasTime elapsed [] = tt
remaining-HasTime elapsed ((x, (k, t)) ∷ ts) =
    elim (Bool-cases (is_zero (saturating_sub t elapsed))) [
      | inl over ↦ rw over (remaining-HasTime elapsed ts)
      | inr left ↦ rw left (ground arith, remaining-HasTime elapsed ts)
    ]

-- Where no time has passed, timers that have time left stay as they are.
pub remaining_zero : (ts : Sleepers) → All HasTime ts → remaining 0 ts ≡ ts
remaining_zero [] all = refl
remaining_zero ((x, (k, t)) ∷ ts) all = ground (arith, all.0, remaining_zero ts all.1)

pub expired_zero : (ts : Sleepers) → All HasTime ts → expired 0 ts ≡ []
expired_zero [] all = refl
expired_zero ((x, (k, t)) ∷ ts) all = ground (arith, all.0, expired_zero ts all.1)

pub Settled-owners :
    (owner owner' : Ptr → Ptr) (waiter : Ptr → Option WaitingTimer) (elapsed : ℕ) (ts : Sleepers)
    → ((x : Ptr) → x ∈ links_of ts → owner x ≡ owner' x)
    → All (Settled owner waiter elapsed) ts
    → All (Settled owner' waiter elapsed) ts
Settled-owners owner owner' waiter elapsed [] keeps all = tt
Settled-owners owner owner' waiter elapsed ((x, (k, t)) ∷ ts) keeps all = (
  rw (← keeps x (ground arith)) all.0,
  Settled-owners owner owner' waiter elapsed ts (λ y m. keeps y (ground arith)) all.1,
)

-- The links of timers keep their owners.
abbrev pub Keeps : (owner owner' : Ptr → Ptr) → Sleepers → Type 0
Keeps owner owner' ts = (x : Ptr) → x ∈ links_of ts → owner' x ≡ owner x

pub Keeps-append :
    (owner owner' : Ptr → Ptr) (ts us : Sleepers)
    → Keeps owner owner' ts
    → Keeps owner owner' us
    → Keeps owner owner' (ts ++ us)
Keeps-append owner owner' ts us first second x i = elim (Bool-cases (has x (links_of ts))) [
  | inl here ↦ first x here
  | inr there ↦
      second x
        (ground (arith, i, there, links_of-append ts us, has-append x (links_of ts) (links_of us)))
]

pub mem-remaining :
    (elapsed : ℕ) (x : Ptr) (ts : Sleepers) → x ∈ links_of (remaining elapsed ts) → x ∈ links_of ts
mem-remaining elapsed x [] i = i
mem-remaining elapsed x ((y, (k, t)) ∷ ts) i = ground (arith, i, mem-remaining elapsed x ts)

-- Where no time passes, timers that have time left are settled.
pub Settled-zero :
    (owner : Ptr → Ptr) (waiter : Ptr → Option WaitingTimer) (ts : Sleepers)
    → All HasTime ts
    → All (Sleeping owner waiter) ts
    → All (Settled owner waiter 0) ts
Settled-zero owner waiter [] time all = tt
Settled-zero owner waiter ((x, (k, t)) ∷ ts) time all =
    (ground (arith, time.0, all.0.1), Settled-zero owner waiter ts time.1 all.1)
