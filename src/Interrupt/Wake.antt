-- ===== src/Interrupt/Wake.antt =====
-- `wake` on each of its branches, and what a second interrupt inside of it does.
use embedded_async.Base.{true, false, ◌≡◌, some, none, ok, fault, arith, [], ◌∷◌, ◌++◌, ◌>>=◌}
use embedded_async.World.{Waker}
use embedded_async.Interrupt.{IrqWaker, wake, wake_after}

module _ (m : IrqWaker) where
  -- While `set_waker` holds the lock, `wake` leaves a request and touches nothing else.
  pub wake-locked :
      m.flags.locked ≡ true
      → wake m ≡ ok tt (record m { flags = record m.flags { wake_requested = true } })
  unfolding wake
  wake-locked e = ground arith

  -- With the lock free and a waker stored, `wake` takes the waker out and calls it.
  pub wake-stored :
      (k : Waker)
      → m.flags.locked ≡ false
      → m.flags.has_waker ≡ true
      → m.waker ≡ some k
      → wake m
        ≡ ok tt (record m {
          waker = none;
          flags = record m.flags { has_waker = false };
          woken = m.woken ++ k ∷ [];
        })
  unfolding wake
  wake-stored k e f g = ground arith

  -- With the lock free and no waker stored, `wake` does nothing.
  pub wake-empty : m.flags.locked ≡ false → m.flags.has_waker ≡ false → wake m ≡ ok tt m
  unfolding wake
  wake-empty e f = ground arith

-- A second interrupt of higher priority, between the load of the flags in a `wake` and the rest of
-- it: whenever the lock is free and a waker is stored, the inner `wake` takes the waker out, and the
-- outer one then reads the cell while it is not initialised, which is undefined behaviour.
pub wake-nested :
    (m : IrqWaker) (k : Waker)
    → m.flags.locked ≡ false
    → m.flags.has_waker ≡ true
    → m.waker ≡ some k
    → (wake >>= λ _. wake_after m.flags) m ≡ fault
unfolding wake
wake-nested m k e f g = rw (wake-stored m k e f g) (ground arith)
