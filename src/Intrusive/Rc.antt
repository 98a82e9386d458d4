-- ===== src/Intrusive/Rc.antt =====
-- src/intrusive/rc.rs: a pinned value with the count of the references to it. The count is a `u32`;
-- its arithmetic wraps, as in a build without overflow checks.
pub mod Count
pub mod UnitTests
use embedded_async.Base.{
  ℕ, ◌+◌, ◌-◌, ◌%◌, ◌^◌, ◌<◌, ◌≡◌, ◌==◌, if◌then◌else◌, Outcome, ok, panic, arith,
}

-- `Inner` inside `RcAnchor`
pub record RcAnchor (T : Type 0) : Type 0 where
  pub ref_count : ℕ
  pub contents : T

-- A reference is its pointer to the one anchor that an operation is given.
pub data RcRef : Type 0 where
  rc_ref : RcRef

module _ {T : Type 0} where
  abbrev pub increment_refcount : RcAnchor T → RcAnchor T
  increment_refcount a = record a { ref_count = (a.ref_count + 1) % 2 ^ 32 }

  abbrev pub decrement_refcount : RcAnchor T → RcAnchor T
  decrement_refcount a = record a { ref_count = (a.ref_count + 2 ^ 32 - 1) % 2 ^ 32 }

  -- `RcAnchor::new`
  abbrev pub new_anchor : T → RcAnchor T
  new_anchor value = record { ref_count = 0; contents = value }

  -- `RcAnchor::take` and `RcAnchor::get_ref`
  abbrev pub get_ref : RcAnchor T → RcAnchor T × RcRef
  get_ref a = (increment_refcount a, rc_ref)

  -- `RcRef::clone`
  abbrev pub clone_ref : RcRef → RcAnchor T → RcAnchor T × RcRef
  clone_ref from a = (increment_refcount a, rc_ref)

  -- `Drop for RcRef`
  abbrev pub drop_ref : RcRef → RcAnchor T → RcAnchor T
  drop_ref me a = decrement_refcount a

  -- `Deref` of both types
  abbrev pub deref : RcAnchor T → T
  deref a = a.contents

  -- `Drop for RcAnchor`
  unfoldable pub drop_anchor : RcAnchor T → Outcome (RcAnchor T) (Unit {0})
  drop_anchor a = if a.ref_count == 0 then ok tt a else panic

-- An anchor and the references to it that have not been dropped.
pub record Shared (T : Type 0) : Type 0 where
  pub anchor : RcAnchor T
  pub refs : ℕ

pub data Step {T : Type 0} (s : Shared T) : Shared T → Type 0 where
  gets : Step s (record { anchor = (get_ref s.anchor).0; refs = s.refs + 1 })
  clones :
      0 < s.refs → Step s (record { anchor = (clone_ref rc_ref s.anchor).0; refs = s.refs + 1 })
  drops : 0 < s.refs → Step s (record { anchor = drop_ref rc_ref s.anchor; refs = s.refs - 1 })

pub data Reach {T : Type 0} (value : T) : Shared T → Type 0 where
  start : Reach value (record { anchor = new_anchor value; refs = 0 })
  later : {s t : Shared T} → Reach value s → Step s t → Reach value t
