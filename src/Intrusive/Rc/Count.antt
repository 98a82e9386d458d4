-- ===== src/Intrusive/Rc/Count.antt =====
-- The reference count of src/intrusive/rc.rs against the references that are alive.
use embedded_async.Base.{◌%◌, ◌^◌, ◌≡◌, ◌==◌, if◌then◌else◌, ok, panic, arith, ◌∙◌}
use embedded_async.Intrusive.Rc.{
  deref, drop_anchor, Shared, Step, gets, clones, drops, Reach, start, later,
}

module _ {T : Type 0} where
  Step-count :
      {s t : Shared T}
      → Step s t
      → s.anchor.ref_count ≡ s.refs % 2 ^ 32
      → (t.anchor.ref_count ≡ t.refs % 2 ^ 32) × (deref t.anchor ≡ deref s.anchor)
  Step-count gets e = ground arith
  Step-count (clones h) e = ground arith
  Step-count (drops h) e = ground arith

  -- After any history of references taken, cloned and dropped, the count of an anchor is the number
  -- of references alive modulo 2^32, and its value is the one it was made with.
  pub Reach-count :
      {value : T} {s : Shared T}
      → Reach value s
      → (s.anchor.ref_count ≡ s.refs % 2 ^ 32) × (deref s.anchor ≡ value)
  Reach-count start = ground arith
  Reach-count (later r st) =
      let before = Reach-count r in
      let after = Step-count st before.0 in (after.0, after.1 ∙ before.1)

  -- After any history the drop of the anchor succeeds if the number of references alive is a
  -- multiple of 2^32, and panics if it is not: below 2^32 it panics exactly when one is alive.
  pub drop_anchor-Reach :
      {value : T} {s : Shared T}
      → Reach value s
      → drop_anchor s.anchor ≡ (if s.refs % 2 ^ 32 == 0 then ok tt s.anchor else panic)
  unfolding drop_anchor
  drop_anchor-Reach r = rw (Reach-count r).0
