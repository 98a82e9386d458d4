-- ===== src/Base/Run.antt =====
-- Commands on a state. A run ends with a value and the new state, or stops: by undefined behaviour
-- (a dereference of a null or dangling pointer, a read of an uninitialised cell, a step into
-- `unreachable_unchecked`), by a panic, or because a loop has used up its fuel.
use mathlib.Core.Bool.{Bool, true, false}
use mathlib.Core.Option.{Option, none, some}
use embedded_async.Base.Tests.{if◌then◌else◌}

pub data Outcome {ℓ κ} (S : Type ℓ) (A : Type κ) : Type (ℓ ⊔ κ) where
  ok : A → S → Outcome S A
  fault : Outcome S A
  panic : Outcome S A
  out_of_fuel : Outcome S A

abbrev pub Cmd {ℓ κ} : Type ℓ → Type κ → Type (ℓ ⊔ κ)
Cmd S A = S → Outcome S A

abbrev pub pure {ℓ κ} : {S : Type ℓ} {A : Type κ} → A → Cmd S A
pure a s = ok a s

abbrev pub and_then {ℓ κ μ} :
    {S : Type ℓ} {A : Type κ} {B : Type μ} → Outcome S A → (A → Cmd S B) → Outcome S B
and_then (ok a s) k = k a s
and_then fault k = fault
and_then panic k = panic
and_then out_of_fuel k = out_of_fuel

infixl 5 ◌>>=◌ ◌>>◌
abbrev pub ◌>>=◌ {ℓ κ μ} :
    {S : Type ℓ} {A : Type κ} {B : Type μ} → Cmd S A → (A → Cmd S B) → Cmd S B
m >>= k = λ s. and_then (m s) k

abbrev pub ◌>>◌ {ℓ κ μ} : {S : Type ℓ} {A : Type κ} {B : Type μ} → Cmd S A → Cmd S B → Cmd S B
m >> n = m >>= λ _. n

abbrev pub unless {ℓ} : {S : Type ℓ} → Bool → Cmd S (Unit {0}) → Cmd S (Unit {0})
unless b m = if b then pure tt else m

-- `Option::expect`
abbrev pub expect {ℓ κ} : {S : Type ℓ} {A : Type κ} → Option A → Cmd S A
expect none = λ s. panic
expect (some a) = pure a

-- `core::result::Result`
pub data Result (A E : Type 0) : Type 0 where
  success : A → Result A E
  failure : E → Result A E

-- `assert!`
abbrev pub assert {ℓ} : {S : Type ℓ} → Bool → Cmd S (Unit {0})
assert b = if b then pure tt else (λ s. panic)

-- Whether a test has passed, and whether it has panicked.
abbrev pub is_ok {ℓ κ} : {S : Type ℓ} {A : Type κ} → Outcome S A → Bool
is_ok (ok _ _) = true
is_ok fault = false
is_ok panic = false
is_ok out_of_fuel = false

abbrev pub is_panic {ℓ κ} : {S : Type ℓ} {A : Type κ} → Outcome S A → Bool
is_panic (ok _ _) = false
is_panic fault = false
is_panic panic = true
is_panic out_of_fuel = false
