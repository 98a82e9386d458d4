-- ===== src/Timer/Duration.antt =====
-- src/timer/mod.rs: the trait `Duration`, and its instance for `core::time::Duration`. That type is
-- not part of the crate: its methods are a parameter, with what their documentation says of the
-- number of nanoseconds.
use embedded_async.Base.{
  ℕ, ◌-◌, ◌*◌, ◌<◌, ◌≤◌, ◌≡◌, refl, ap, ◌∙◌, ◌==◌, ltb, Bool, Bool-cases, inl, inr, Option, none,
  some, if◌then◌else◌, arith,
}
use embedded_async.Timer.{is_zero, saturating_sub, min}

pub record Duration : Type 1 where
  pub D : Type 0
  pub zero : D
  pub is_zero : D → Bool
  pub saturating_sub : D → D → D
  pub min : D → D → D

-- The instances of `etime_impl`, for any of its types: the count inside.
abbrev pub etime_duration : Duration
etime_duration = record {
  D = ℕ;
  zero = 0;
  is_zero = is_zero;
  saturating_sub = saturating_sub;
  min = min;
}

-- `core::time::Duration`
pub record CoreDuration : Type 1 where
  pub D : Type 0
  pub nanos : D → ℕ
  pub from_secs : ℕ → D
  pub checked_sub : D → D → Option D
  -- `PartialEq::eq`, `PartialOrd::lt` and `Ord::min`
  pub eq : D → D → Bool
  pub lt : D → D → Bool
  pub min : D → D → D
  pub from_secs_nanos : (s : ℕ) → nanos (from_secs s) ≡ s * 1000000000
  pub checked_sub_nanos :
      (a b : D)
      → nanos b ≤ nanos a
      → (d : D) × (checked_sub a b ≡ some d) × (nanos d ≡ nanos a - nanos b)
  pub checked_sub_less : (a b : D) → nanos a < nanos b → checked_sub a b ≡ none
  pub eq_nanos : (a b : D) → eq a b ≡ (nanos a == nanos b)
  pub lt_nanos : (a b : D) → lt a b ≡ ltb (nanos a) (nanos b)
  -- The lesser one, and the first of two equal ones.
  pub min_lt : (a b : D) → min a b ≡ (if lt b a then b else a)

abbrev pub or_else : {A : Type 0} → Option A → A → A
or_else none a = a
or_else (some a) b = a

module _ (core : CoreDuration) where
  -- `impl Duration for core::time::Duration`
  abbrev pub core_duration : Duration
  core_duration = record {
    D = core.D;
    zero = core.from_secs 0;
    is_zero = λ a. core.eq a (core.from_secs 0);
    saturating_sub = λ a b. or_else (core.checked_sub a b) (core.from_secs 0);
    min = core.min;
  }

-- The operations of a duration are those of the instances of `etime_impl` on a count of units.
pub record Counts (d : Duration) (units : d.D → ℕ) : Type 0 where
  pub zero : units d.zero ≡ 0
  pub is_zero : (a : d.D) → d.is_zero a ≡ is_zero (units a)
  pub saturating_sub :
      (a b : d.D) → units (d.saturating_sub a b) ≡ saturating_sub (units a) (units b)
  pub min : (a b : d.D) → units (d.min a b) ≡ min (units a) (units b)

module _ (core : CoreDuration) where
  open core use {nanos, from_secs, checked_sub}

  zero_nanos : nanos (from_secs 0) ≡ 0
  zero_nanos = omega (arith, core.from_secs_nanos 0)

  sub_nanos : (a b : core.D) → nanos (or_else (checked_sub a b) (from_secs 0)) ≡ nanos a - nanos b
  sub_nanos a b = elim (Bool-cases (ltb (nanos a) (nanos b))) [
    | inl less ↦
        rw (core.checked_sub_less a b (ground (arith, less))) (ground (arith, less, zero_nanos))
    | inr more ↦ let (d, e, count) = core.checked_sub_nanos a b (ground (arith, more)) in rw e count
  ]

  min_nanos : (a b : core.D) → nanos (core.min a b) ≡ min (nanos a) (nanos b)
  min_nanos a b = elim (Bool-cases (ltb (nanos b) (nanos a))) [
    | inl less ↦ rw (core.min_lt a b, core.lt_nanos b a, less) refl
    | inr more ↦ rw (core.min_lt a b, core.lt_nanos b a, more) refl
  ]

  -- On the documented behaviour of `core::time::Duration`, its instance does to the number of
  -- nanoseconds what the instances of `etime_impl` do to their count: a difference that would be
  -- negative is zero, and so is the duration of which `is_zero` says so.
  pub core_duration-Counts : Counts (core_duration core) nanos
  core_duration-Counts = record {
    zero = zero_nanos;
    is_zero = λ a. core.eq_nanos a (from_secs 0) ∙ ap (λ n. nanos a == n) zero_nanos;
    saturating_sub = sub_nanos;
    min = min_nanos;
  }
