-- ===== src/Interrupt/UnitTests.antt =====
-- src/interrupt/mod.rs: the unit tests of the file, as commands on the waker. The task 7 has the
-- waker that sets the flag of a test. A failed assertion is a panic.
use embedded_async.Base.{
  ◌≡◌, refl, Bool, true, false, has, not, ok, Cmd, ◌>>=◌, ◌>>◌, assert, is_ok,
}
use embedded_async.Interrupt.{IrqWaker, Flags, new, flags_of, set_flags, flags_eq, wake, set_waker}

abbrev clear : Flags
clear = record { has_waker = false; locked = false; wake_requested = false }

abbrev assert_flags : Flags → Cmd IrqWaker (Unit {0})
assert_flags f = do now ← flags_of; assert (flags_eq now f)

abbrev wake_flag : Cmd IrqWaker Bool
wake_flag s = ok (has 7 s.woken) s

unfoldable sets_waker : Cmd IrqWaker (Unit {0})
unfolding set_waker wake
sets_waker = do
  assert_flags clear
  set_waker 9 7
  assert_flags (record clear { has_waker = true })
  wake
  assert_flags clear
  woken ← wake_flag
  assert woken

unfoldable wake_while_setting : Cmd IrqWaker (Unit {0})
unfolding set_waker wake
wake_while_setting = do
  assert_flags clear
  set_flags (record clear { locked = true })
  wake
  woken ← wake_flag
  assert (not woken)
  now ← flags_of
  assert now.wake_requested
  set_waker 9 7
  woken ← wake_flag
  assert woken

-- Both pass.
passes : (is_ok (sets_waker new) ≡ true) × (is_ok (wake_while_setting new) ≡ true)
unfolding sets_waker wake_while_setting
passes = (refl, refl)
