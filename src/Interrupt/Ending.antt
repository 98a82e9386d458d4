-- ===== src/Interrupt/Ending.antt =====
-- The end of `set_waker` when interrupts stay away.
use embedded_async.Base.{
  ℕ, suc, Bool, true, false, ◌≡◌, refl, ap, ◌∙◌, List, Option, some, none, ok, arith, is_some,
}
use embedded_async.World.{Waker}
use embedded_async.Interrupt.{IrqWaker, set_waker}

at_rest : Option Waker → Bool → List Waker → IrqWaker
at_rest c h ws = record {
  waker = c;
  flags = record { has_waker = h; locked = false; wake_requested = false };
  woken = ws;
}

-- Seven rounds, the last of which finds the end.
abbrev rounds : ℕ → ℕ
rounds fuel = suc (suc (suc (suc (suc (suc (suc fuel))))))

at_rest-stores :
    (c : Option Waker) (h : Bool) (ws : List Waker) (k : Waker) (fuel : ℕ)
    → is_some c ≡ h
    → set_waker (rounds fuel) k (at_rest c h ws) ≡ ok tt (at_rest (some k) true ws)
unfolding set_waker at_rest
at_rest-stores none false ws k fuel e = refl
at_rest-stores (some old) true ws k fuel e = refl
at_rest-stores none true ws k fuel e = absurd (cc)
at_rest-stores (some old) false ws k fuel e = absurd (cc)

-- With no interrupt, `set_waker` on a waker at rest ends within six steps: the new waker is stored
-- and flagged, the lock is free, no request is noted, and no task has been woken.
pub set_waker-stores :
    (m : IrqWaker) (k : Waker) (fuel : ℕ)
    → m.flags.locked ≡ false
    → m.flags.wake_requested ≡ false
    → is_some m.waker ≡ m.flags.has_waker
    → set_waker (rounds fuel) k m
      ≡ ok tt (record {
        waker = some k;
        flags = record { has_waker = true; locked = false; wake_requested = false };
        woken = m.woken;
      })
unfolding at_rest
set_waker-stores m k fuel free quiet stored =
    let rest : m ≡ at_rest m.waker m.flags.has_waker m.woken = ground arith in
    ap (set_waker (rounds fuel) k) rest
    ∙ at_rest-stores m.waker m.flags.has_waker m.woken k fuel stored
