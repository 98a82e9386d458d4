-- ===== src/Interrupt/System.antt =====
-- One `set_waker` at a time in the application, and an interrupt that calls `wake` between any two
-- of its steps.
use embedded_async.Base.{
  Bool, false, not, ◌&&◌, ◌||◌, ◌≡◌, ok, Option, none, some, List, count, ltb,
}
use embedded_async.World.{Waker}
use embedded_async.Interrupt.{
  IrqWaker, new, wake, Pc, idle, load_lock, cas_lock, locked, replace, publish, cas_unlock,
  load_unlock, finish, clear, advance,
}

-- `owed`: an interrupt has called `wake` while `set_waker` held the lock, and no step of `set_waker`
-- has called the new waker since.
pub record System : Type 0 where
  pub mem : IrqWaker
  pub pc : Pc
  pub owed : Bool

-- The waker that a `set_waker` under way was given.
abbrev pub new_waker : Pc → Option Waker
new_waker idle = none
new_waker (load_lock k) = some k
new_waker (cas_lock k flag) = some k
new_waker (locked k flag) = some k
new_waker (replace k flag) = some k
new_waker (publish k) = some k
new_waker (cas_unlock k flag) = some k
new_waker (load_unlock k) = some k
new_waker (finish k flag) = some k
new_waker (clear k) = some k

-- Whether the waker, if there is one, has been called between two lists of the tasks woken so far.
abbrev pub called : Option Waker → List Waker → List Waker → Bool
called none before after = false
called (some k) before after = ltb (count k before) (count k after)

pub data Step (s : System) : System → Type 0 where
  begins : (k : Waker) → s.pc ≡ idle → Step s (record s { pc = load_lock k })
  advances :
      {p : Pc} {m : IrqWaker}
      → advance s.pc s.mem ≡ ok p m
      → Step s (record {
        mem = m;
        pc = p;
        owed = s.owed && not (called (new_waker s.pc) s.mem.woken m.woken);
      })
  interrupts :
      {m : IrqWaker}
      → wake s.mem ≡ ok tt m
      → Step s (record { mem = m; pc = s.pc; owed = s.owed || s.mem.flags.locked })

pub data Reach : System → Type 0 where
  start : Reach (record { mem = new; pc = idle; owed = false })
  later : {s t : System} → Reach s → Step s t → Reach t
