-- ===== src/Examples/Interrupt.antt =====
-- The theorems on the interrupt waker at concrete inputs.
use embedded_async.Base.{◌≡◌, refl, [], ◌∷◌, ok, some, fault, true, false, Bool, is_some, ◌>>=◌}
use embedded_async.Interrupt.{IrqWaker, wake, wake_after, set_waker, advance, Pc, idle, publish}
use embedded_async.Interrupt.System.{System, Reach, start, later, begins, advances, interrupts}
use embedded_async.Interrupt.Wake.{wake-nested}
use embedded_async.Interrupt.Safety.{Reach-no_fault, Reach-idle}
use embedded_async.Interrupt.Ending.{set_waker-stores}

-- The lock is taken, and an interrupt comes while the new waker is stored but not yet published.
abbrev asked : System
asked = record {
  mem = record {
    waker = some 7;
    flags = record { has_waker = false; locked = true; wake_requested = true };
    woken = [];
  };
  pc = publish 7;
  owed = true;
}

asked-Reach : Reach asked
unfolding advance wake
asked-Reach =
    later
      (later (later (later (later start (begins 7 refl)) (advances refl)) (advances refl))
        (advances refl))
      (interrupts refl)

-- The request is answered: task 7 is woken from `set_waker`.
abbrev answered : System
answered = record {
  mem = record {
    waker = some 7;
    flags = record { has_waker = true; locked = false; wake_requested = false };
    woken = 7 ∷ [];
  };
  pc = idle;
  owed = false;
}

answered-Reach : Reach answered
unfolding advance
answered-Reach =
    later (later (later (later asked-Reach (advances refl)) (advances refl)) (advances refl))
      (advances refl)

Reach-no_fault_example :
    ((q : Pc) × (n : IrqWaker) × (advance (publish 7) asked.mem ≡ ok q n))
    × ((n : IrqWaker) × (wake asked.mem ≡ ok tt n))
Reach-no_fault_example = Reach-no_fault asked-Reach

Reach-idle_example :
    (◌≡◌ {A = Bool} false false)
    × (◌≡◌ {A = Bool} false false)
    × (◌≡◌ {A = Bool} false false)
    × (is_some answered.mem.waker ≡ true)
Reach-idle_example = Reach-idle answered-Reach refl

set_waker-stores_example :
    set_waker 7 5 answered.mem
    ≡ ok tt (record {
      waker = some 5;
      flags = record { has_waker = true; locked = false; wake_requested = false };
      woken = 7 ∷ [];
    })
set_waker-stores_example = set_waker-stores answered.mem 5 0 refl refl refl

wake-nested_example : (wake >>= λ _. wake_after answered.mem.flags) answered.mem ≡ fault
wake-nested_example = wake-nested answered.mem 7 refl refl refl
