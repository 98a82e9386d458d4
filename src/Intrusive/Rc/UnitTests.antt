-- ===== src/Intrusive/Rc/UnitTests.antt =====
-- src/intrusive/rc.rs: the unit tests of the file, as commands on one anchor. A failed assertion is
-- a panic, and what a test declares is dropped at its end.
use embedded_async.Base.{ℕ, ◌≡◌, refl, true, ◌==◌, ok, Cmd, ◌>>=◌, ◌>>◌, assert, is_ok, is_panic}
use embedded_async.Intrusive.Rc.{
  RcAnchor, RcRef, new_anchor, get_ref, clone_ref, drop_ref, drop_anchor, deref,
}

abbrev TestCmd : Type 0 → Type 0
TestCmd A = Cmd (RcAnchor ℕ) A

abbrev take : TestCmd RcRef
take a = let (b, r) = get_ref a in ok r b

abbrev clone : RcRef → TestCmd RcRef
clone from a = let (b, r) = clone_ref from a in ok r b

abbrev drop : RcRef → TestCmd (Unit {0})
drop me a = ok tt (drop_ref me a)

abbrev assert_count : ℕ → TestCmd (Unit {0})
assert_count n a = assert (a.ref_count == n) a

abbrev assert_value : ℕ → TestCmd (Unit {0})
assert_value n a = assert (deref a == n) a

unfoldable ref_count_updates : TestCmd (Unit {0})
ref_count_updates = do
  assert_count 0
  rc_ref ← take
  assert_count 1
  rc_ref2 ← clone rc_ref
  assert_count 2
  rc_ref3 ← clone rc_ref
  assert_count 3
  drop rc_ref3
  assert_count 2
  assert_value 10
  drop rc_ref2
  drop rc_ref
  drop_anchor

unfoldable panic_on_forget : TestCmd (Unit {0})
panic_on_forget = do assert_count 0; rc_ref ← take; assert_count 1; assert_count 1; drop_anchor

-- The first test passes, and the second one panics, as it should.
passes :
    (is_ok (ref_count_updates (new_anchor 10)) ≡ true)
    × (is_panic (panic_on_forget (new_anchor 10)) ≡ true)
unfolding ref_count_updates panic_on_forget drop_anchor
passes = (refl, refl)
