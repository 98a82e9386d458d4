-- ===== src/Timer/Least.antt =====
-- src/timer/mod.rs: the least of the times that are left.
use mathlib.Core.List.{append-nil}
use embedded_async.Base.{
  ℕ, ◌≡◌, ◌≤◌, ◌≢◌, refl, [], ◌∷◌, ◌++◌, ◌⊎◌, inl, inr, Bool-cases, ltb, All, All-append, arith,
  Option, some, none,
}
use embedded_async.Intrusive.Links.{Ptr}
use embedded_async.World.{Waker}
use embedded_async.Timer.{soonest, min}
use embedded_async.Timer.Sleepers.{Sleepers, HasTime, least_of}

abbrev pub NotBefore : ℕ → Ptr × (Waker × ℕ) → Type 0
NotBefore m (_, (_, t)) = m ≤ t

-- Some timer of the list has the time `m` left.
abbrev pub Attained : ℕ → Sleepers → Type 0
Attained m [] = ⊥
Attained m ((x, (k, t)) ∷ ts) = (t ≡ m) ⊎ Attained m ts

-- There is no least time where there is no timer; a least time is not zero, some timer has it, and
-- no timer has less.
abbrev pub IsLeast : Sleepers → Option ℕ → Type 0
IsLeast ts none = ts ≡ []
IsLeast ts (some m) = (m ≢ 0) × Attained m ts × All (NotBefore m) ts

All-NotBefore : (m n : ℕ) (ts : Sleepers) → m ≤ n → All (NotBefore n) ts → All (NotBefore m) ts
All-NotBefore m n [] le all = tt
All-NotBefore m n ((x, (k, t)) ∷ ts) le all = (omega (arith, all.0), All-NotBefore m n ts le all.1)

Attained-left : (m : ℕ) (ts us : Sleepers) → Attained m ts → Attained m (ts ++ us)
Attained-left m [] us h = absurd h
Attained-left m ((x, (k, t)) ∷ ts) us (inl e) = inl e
Attained-left m ((x, (k, t)) ∷ ts) us (inr h) = inr (Attained-left m ts us h)

Attained-right : (m : ℕ) (ts us : Sleepers) → Attained m us → Attained m (ts ++ us)
Attained-right m [] us h = h
Attained-right m ((x, (k, t)) ∷ ts) us h = inr (Attained-right m ts us h)

-- The least of a list and one time more is that time, or a timer of the list has it.
least_of-some :
    (m : ℕ) (ts : Sleepers)
    → m ≢ 0
    → All HasTime ts
    → (n : ℕ) × (least_of (some m) ts ≡ some n)
      × (n ≢ 0)
      × (n ≤ m)
      × ((m ≡ n) ⊎ Attained n ts)
      × All (NotBefore n) ts
least_of-some m [] ne all = (m, refl, ne, omega arith, inl refl, tt)
least_of-some m ((x, (k, t)) ∷ ts) ne all =
    let p = least_of-some (min m t) ts (ground (arith, all.0)) all.1 in
    (
      p.0,
      p.1,
      p.2,
      ground (arith, p.3),
      elim p.4 [
        | inl e ↦ elim (Bool-cases (ltb t m)) [
          | inl less ↦ inr (inl (ground (arith, e, less)))
          | inr more ↦ inl (ground (arith, e, more))
        ]
        | inr h ↦ inr (inr h)
      ],
      (ground (arith, p.3), p.5),
    )

-- The least time of a list that is not empty.
least_of-IsLeast : (ts : Sleepers) → All HasTime ts → IsLeast ts (least_of none ts)
least_of-IsLeast [] all = refl
least_of-IsLeast ((x, (k, t)) ∷ ts) all =
    let p = least_of-some t ts all.0 all.1 in rw p.1 (p.2, p.4, (p.3, p.5))

both-IsLeast :
    (ts us : Sleepers) (a b : Option ℕ)
    → IsLeast ts a
    → IsLeast us b
    → IsLeast (ts ++ us) (soonest a b)
both-IsLeast ts us none none h j = rw (h, j)
both-IsLeast ts us none (some n) h j = rw h j
both-IsLeast ts us (some m) none (ne, at, all) j = rw (j, append-nil) (ne, at, all)
both-IsLeast ts us (some m) (some n) (ne, at, all) (ne', at', all') = elim (Bool-cases (ltb n m)) [
  | inl less ↦ rw less (
    ne',
    Attained-right n ts us at',
    All-append (NotBefore n) ts us (All-NotBefore n m ts (ground (arith, less)) all) all',
  )
  | inr more ↦ rw more (
    ne,
    Attained-left m ts us at,
    All-append (NotBefore m) ts us all (All-NotBefore m n us (ground (arith, more)) all'),
  )
]

-- The least time of two lists of timers is the sooner of their least times.
pub soonest-IsLeast :
    (ts us : Sleepers)
    → All HasTime ts
    → All HasTime us
    → IsLeast (ts ++ us) (soonest (least_of none ts) (least_of none us))
soonest-IsLeast ts us ht hu =
    both-IsLeast ts us (least_of none ts) (least_of none us) (least_of-IsLeast ts ht)
      (least_of-IsLeast us hu)
