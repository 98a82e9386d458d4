-- ===== src/Timer/Stages.antt =====
-- src/timer/mod.rs: how far a delay has come, as its value in memory and the lists of the timer say.
use embedded_async.Base.{
  ℕ, ◌≡◌, ◌≢◌, refl, ap, ◌∙◌, [], ◌∷◌, ◌++◌, All, ◌∈◌, ◌∉◌, Distinct, Distinct-apart, update, subst,
  arith, Bool, true, false, Option, some, none, is_none, if◌then◌else◌, Bool-cases, ◌⊎◌, inl, inr,
  ◌==◌, Distinct-apart,
}
use embedded_async.Intrusive.Links.{Ptr}
use embedded_async.World.{Waker}
use embedded_async.World.Without.{without}
use embedded_async.Timer.{WaitingTimer, is_zero, saturating_sub}
use embedded_async.Timer.Sleepers.{Sleepers, links_of, owners, Sleeping, Settled, Keeps, remaining}

pub data Stage : Type 0 where
  idle : (left : ℕ) → Stage  -- nobody waits; nothing is left once it is over
  queued : (left : ℕ) (k : Waker) → Stage  -- it waits to be taken on by the runner
  asleep : (left : ℕ) (k : Waker) → Stage

-- What the passing of time makes of a delay at a poll of the runner.
abbrev pub passes : ℕ → Option Stage → Option Stage
passes elapsed (some (asleep t k)) =
    let left = saturating_sub t elapsed in some (if is_zero left then idle left else asleep left k)
passes elapsed (some (queued t k)) = some (asleep t k)
passes elapsed (some (idle t)) = some (idle t)
passes elapsed none = none

-- The value of a delay in memory.
abbrev pub value : Option Stage → Option WaitingTimer
value (some (idle t)) = some (record { time_until_timeout = t; waker = none })
value (some (queued t k)) = some (record { time_until_timeout = t; waker = some k })
value (some (asleep t k)) = some (record { time_until_timeout = t; waker = some k })
value none = none

-- A list has the timer whose value lies at `p`, with the time and the task given.
abbrev pub Entry : (Ptr → Ptr) → Ptr → ℕ → Waker → Sleepers → Type 0
Entry owner p t k [] = ⊥
Entry owner p t k ((x, (j, s)) ∷ ts) = ((owner x ≡ p) × (j ≡ k) × (s ≡ t)) ⊎ Entry owner p t k ts

-- A delay that waits stands in the list that it should be in.
abbrev pub Placed : (Ptr → Ptr) → Sleepers → Sleepers → Ptr → Option Stage → Type 0
Placed owner ts ns p (some (asleep t k)) = Entry owner p t k ts
Placed owner ts ns p (some (queued t k)) = Entry owner p t k ns
Placed owner ts ns p (some (idle t)) = Unit
Placed owner ts ns p none = Unit

module _ (owner : Ptr → Ptr) (p : Ptr) (t : ℕ) (k : Waker) where
  pub Entry-Keeps :
      (owner' : Ptr → Ptr) (ts : Sleepers)
      → Keeps owner owner' ts
      → Entry owner p t k ts
      → Entry owner' p t k ts
  Entry-Keeps owner' [] keeps m = m
  Entry-Keeps owner' ((x, (j, s)) ∷ ts) keeps (inl (a, b, c)) =
      inl (keeps x (ground arith) ∙ a, b, c)
  Entry-Keeps owner' ((x, (j, s)) ∷ ts) keeps (inr m) =
      inr (Entry-Keeps owner' ts (λ y i. keeps y (ground (arith, i))) m)

  pub Entry-left : (ts us : Sleepers) → Entry owner p t k ts → Entry owner p t k (ts ++ us)
  Entry-left [] us m = absurd m
  Entry-left ((x, (j, s)) ∷ ts) us (inl e) = inl e
  Entry-left ((x, (j, s)) ∷ ts) us (inr m) = inr (Entry-left ts us m)

  pub Entry-right : (ts us : Sleepers) → Entry owner p t k us → Entry owner p t k (ts ++ us)
  Entry-right [] us m = m
  Entry-right ((x, (j, s)) ∷ ts) us m = inr (Entry-right ts us m)

  pub Entry-owner : (ts : Sleepers) → Entry owner p t k ts → p ∈ owners owner (links_of ts)
  Entry-owner [] m = absurd m
  Entry-owner ((x, (j, s)) ∷ ts) (inl e) = ground (arith, e.0)
  Entry-owner ((x, (j, s)) ∷ ts) (inr m) = ground (arith, Entry-owner ts m)

  pub Entry-remaining :
      (elapsed : ℕ)
      → is_zero (saturating_sub t elapsed) ≡ false
      → (ts : Sleepers) → Entry owner p t k ts
      → Entry owner p (saturating_sub t elapsed) k (remaining elapsed ts)
  Entry-remaining elapsed more [] m = m
  Entry-remaining elapsed more ((x, (j, s)) ∷ ts) (inl (a, b, c)) =
      let time : saturating_sub s elapsed ≡ saturating_sub t elapsed =
        ap (λ n. saturating_sub n elapsed) c in
      let test : is_zero (saturating_sub s elapsed) ≡ false = ap is_zero time ∙ more in
      rw test (inl (a, b, time))
  Entry-remaining elapsed more ((x, (j, s)) ∷ ts) (inr m) =
      let rest = Entry-remaining elapsed more ts m in
      elim (Bool-cases (is_zero (saturating_sub s elapsed))) [
        | inl over ↦ rw over rest
        | inr left ↦ rw left (inr rest)
      ]

  pub Entry-Settled :
      (waiter : Ptr → Option WaitingTimer) (elapsed : ℕ) (ts : Sleepers)
      → All (Settled owner waiter elapsed) ts
      → Entry owner p t k ts
      → waiter p ≡ value (passes elapsed (some (asleep t k)))
  Entry-Settled waiter elapsed [] all m = absurd m
  Entry-Settled waiter elapsed ((x, (j, s)) ∷ ts) all (inl (a, b, c)) =
      elim (Bool-cases (is_zero (saturating_sub t elapsed))) [
        | inl over ↦ rw over (ground (arith, all.0, a, b, c, over))
        | inr left ↦ rw left (ground (arith, all.0, a, b, c, left))
      ]
  Entry-Settled waiter elapsed ((x, (j, s)) ∷ ts) all (inr m) =
      Entry-Settled waiter elapsed ts all.1 m

  pub Entry-without :
      (x : Ptr) (ts : Sleepers)
      → (x ∈ links_of ts → owner x ≢ p)
      → Entry owner p t k ts
      → Entry owner p t k (without x ts)
  Entry-without x [] other m = m
  Entry-without x ((y, (j, s)) ∷ ts) other (inl (a, b, c)) = elim (Bool-cases (x == y)) [
    | inl e ↦ absurd (other (ground (arith, e)) (ground (arith, a, e)))
    | inr ne ↦ rw ne (inl (a, b, c))
  ]
  Entry-without x ((y, (j, s)) ∷ ts) other (inr m) =
      let rest = Entry-without x ts (λ i. other (ground (arith, i))) m in
      elim (Bool-cases (x == y)) [ inl e ↦ rw e rest | inr ne ↦ rw ne (inr rest) ]

module _ (owner owner' : Ptr → Ptr) (ts ns : Sleepers) (keeps : Keeps owner owner' ts)
    (keeps_new : Keeps owner owner' ns) (p : Ptr) where
  pub Placed-Keeps : (st : Option Stage) → Placed owner ts ns p st → Placed owner' ts ns p st
  Placed-Keeps none m = tt
  Placed-Keeps (some (idle t)) m = tt
  Placed-Keeps (some (queued t k)) m = Entry-Keeps owner p t k owner' ns keeps_new m
  Placed-Keeps (some (asleep t k)) m = Entry-Keeps owner p t k owner' ts keeps m

module _ (owner : Ptr → Ptr) (ts ns : Sleepers) (x p : Ptr) where
  pub Placed-without :
      (x ∈ links_of ts → owner x ≢ p)
      → (x ∈ links_of ns → owner x ≢ p)
      → (st : Option Stage) → Placed owner ts ns p st
      → Placed owner (without x ts) (without x ns) p st
  Placed-without other other_new none m = tt
  Placed-without other other_new (some (idle t)) m = tt
  Placed-without other other_new (some (queued t k)) m = Entry-without owner p t k x ns other_new m
  Placed-without other other_new (some (asleep t k)) m = Entry-without owner p t k x ts other m

  pub Placed-more :
      (us : Sleepers) (st : Option Stage)
      → Placed owner ts ns p st
      → Placed owner ts (ns ++ us) p st
  Placed-more us none m = tt
  Placed-more us (some (idle t)) m = tt
  Placed-more us (some (queued t k)) m = Entry-left owner p t k ns us m
  Placed-more us (some (asleep t k)) m = m

-- One delay changes.
pub values-update :
    (waiter : Ptr → Option WaitingTimer) (delays : Ptr → Option Stage) (o : Ptr) (st : Option Stage)
    → ((p : Ptr) → waiter p ≡ value (delays p))
    → (p : Ptr) → update waiter o (value st) p ≡ value (update delays o st p)
values-update waiter delays o st same p = elim (Bool-cases (p == o)) [
  | inl e ↦ rw e refl
  | inr ne ↦ rw ne (same p)
]

pub places-update :
    (owner owner' : Ptr → Ptr) (ts ns ts' ns' : Sleepers) (delays : Ptr → Option Stage) (o : Ptr)
    (new : Option Stage)
    → Placed owner' ts' ns' o new
    → ((p : Ptr)
        → (p == o) ≡ false
        → (st : Option Stage) → Placed owner ts ns p st
        → Placed owner' ts' ns' p st)
    → ((p : Ptr) → Placed owner ts ns p (delays p))
    → (p : Ptr) → Placed owner' ts' ns' p (update delays o new p)
places-update owner owner' ts ns ts' ns' delays o new here others places p =
    elim (Bool-cases (p == o)) [
      | inl e ↦ rw e (subst (λ q. Placed owner' ts' ns' q new) (ground (arith, e)) here)
      | inr ne ↦ rw ne (others p ne (delays p) (places p))
    ]

-- Nobody waits behind a value.
abbrev pub awake : Option WaitingTimer → Bool
awake none = true
awake (some v) = is_none v.waker

-- Such a value belongs to no timer of a list.
pub awake-off :
    (owner : Ptr → Ptr) (waiter : Ptr → Option WaitingTimer) (p : Ptr) (ts : Sleepers)
    → All (Sleeping owner waiter) ts
    → awake (waiter p) ≡ true
    → p ∉ owners owner (links_of ts)
awake-off owner waiter p [] all e = refl
awake-off owner waiter p ((x, (k, t)) ∷ ts) all e =
    ground (arith, all.0.1, e, awake-off owner waiter p ts all.1 e)

-- A poll of the runner: time passes for every delay, those that are asleep are in the list of
-- sleeping timers if time is left, and the queued ones are, too.
module _ (owner owner' : Ptr → Ptr) (waiter waiter' : Ptr → Option WaitingTimer) (ts ns : Sleepers)
    (elapsed : ℕ) (waits : All (Sleeping owner waiter) ts)
    (own : Distinct (owners owner (links_of ts) ++ owners owner (links_of ns)))
    (settled : All (Settled owner waiter' elapsed) ts)
    (keeps : Keeps owner owner' (remaining elapsed ts ++ ns))
    (frame : (p : Ptr) → p ∉ owners owner (links_of ts) → waiter' p ≡ waiter p) where
  abbrev rest : Sleepers
  rest = remaining elapsed ts

  abbrev Passed : Ptr → Option Stage → Type 0
  Passed p st =
      (waiter' p ≡ value (passes elapsed st)) × Placed owner' (rest ++ ns) [] p (passes elapsed st)

  pub passes-Passed :
      (p : Ptr) (st : Option Stage) → waiter p ≡ value st → Placed owner ts ns p st → Passed p st
  passes-Passed p none e m = (frame p (awake-off owner waiter p ts waits (ap awake e)) ∙ e, tt)
  passes-Passed p (some (idle t)) e m =
      (frame p (awake-off owner waiter p ts waits (ap awake e)) ∙ e, tt)
  passes-Passed p (some (queued t k)) e m = (
    frame p (
          ground (
            arith,
            Distinct-apart (owners owner (links_of ts)) (owners owner (links_of ns)) own p,
            Entry-owner owner p t k ns m,
          ))
        ∙ e,
    Entry-Keeps owner p t k owner' (rest ++ ns) keeps (Entry-right owner p t k rest ns m),
  )
  passes-Passed p (some (asleep t k)) e m =
      let now = Entry-Settled owner p t k waiter' elapsed ts settled m in
      elim (Bool-cases (is_zero (saturating_sub t elapsed))) [
        | inl over ↦ (now, rw over tt)
        | inr left ↦ (
          now,
          rw left (
              Entry-Keeps owner p (saturating_sub t elapsed) k owner' (rest ++ ns) keeps (
                Entry-left owner p (saturating_sub t elapsed) k rest ns
                  (Entry-remaining owner p t k elapsed left ts m))),
        )
      ]
