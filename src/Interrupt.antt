-- ===== src/Interrupt.antt =====
-- src/interrupt/mod.rs: the waker that interrupts may call while the application sets it.
-- `wake` runs in an interrupt, which the application does not preempt; `set_waker` runs in the
-- application, one atomic access or one access to the cell at a time, and an interrupt may come
-- between any two.
pub mod System
pub mod Wake
pub mod Safety
pub mod Ending
pub mod UnitTests
use embedded_async.Base.{
  ℕ, zero, suc, out_of_fuel, Bool, true, false, not, ◌&&◌, ◌||◌, Option, none, some, List, [], ◌∷◌,
  ◌++◌, if◌then◌else◌, ok, fault, Cmd, pure, ◌>>=◌, ◌>>◌,
}
use embedded_async.World.{Waker}

-- The byte `flags` by its three bits `HAS_WAKER_FLAG`, `LOCKED_FLAG` and `WAKE_REQUESTED`. The other
-- five bits start at 0, and no operation sets them.
pub record Flags : Type 0 where
  pub has_waker : Bool
  pub locked : Bool
  pub wake_requested : Bool

-- `Waker`: the cell, empty where its memory is not initialised, and the flags. `woken` is the list
-- of the tasks woken so far.
pub record IrqWaker : Type 0 where
  pub waker : Option Waker
  pub flags : Flags
  pub woken : List Waker

-- `Waker::new`
abbrev pub new : IrqWaker
new = record {
  waker = none;
  flags = record { has_waker = false; locked = false; wake_requested = false };
  woken = [];
}

abbrev pub bool_eq : Bool → Bool → Bool
bool_eq true b = b
bool_eq false b = not b

-- Equality of the byte.
abbrev pub flags_eq : Flags → Flags → Bool
flags_eq a b =
    bool_eq a.has_waker b.has_waker
    && bool_eq a.locked b.locked
    && bool_eq a.wake_requested b.wake_requested

abbrev pub flags_of : Cmd IrqWaker Flags
flags_of s = ok s.flags s

abbrev pub set_flags : Flags → Cmd IrqWaker (Unit {0})
set_flags f s = ok tt (record s { flags = f })

abbrev pub call : Waker → Cmd IrqWaker (Unit {0})
call k s = ok tt (record s { woken = s.woken ++ k ∷ [] })

-- `take_waker`: undefined behaviour if the cell is not initialised.
abbrev pub taken : IrqWaker → Option Waker → Cmd IrqWaker Waker
taken s none = λ _. fault
taken s (some k) = λ _. ok k (record s { waker = none })

unfoldable pub take_waker : Cmd IrqWaker Waker
take_waker s = taken s s.waker s

-- `wake` after its load of the flags, and the whole of it.
unfoldable pub wake_after : Flags → Cmd IrqWaker (Unit {0})
unfolding take_waker
wake_after flag =
    if flag.locked
    then set_flags (record flag { wake_requested = true })
    else if flag.has_waker
    then (do k ← take_waker; call k; now ← flags_of; set_flags (record now { has_waker = false }))
    else pure tt

unfoldable pub wake : Cmd IrqWaker (Unit {0})
unfolding wake_after
wake = do flag ← flags_of; wake_after flag

-- Where `set_waker` stands, with its local variable `flag`.
pub data Pc : Type 0 where
  idle : Pc
  load_lock : (k : Waker) → Pc  -- the load before the first loop, and the one in it
  cas_lock : (k : Waker) (flag : Flags) → Pc
  locked : (k : Waker) (flag : Flags) → Pc  -- the test of `HAS_WAKER_FLAG`
  replace : (k : Waker) (flag : Flags) → Pc  -- after `take_waker`
  publish : (k : Waker) → Pc  -- before `fetch_or`
  cas_unlock : (k : Waker) (flag : Flags) → Pc
  load_unlock : (k : Waker) → Pc  -- the load in the second loop
  finish : (k : Waker) (flag : Flags) → Pc  -- the test of `WAKE_REQUESTED`
  clear : (k : Waker) → Pc  -- before `fetch_and`

-- `compare_and_swap`: whether the flags were as expected.
abbrev pub compare_and_swap : Flags → Flags → Cmd IrqWaker Bool
compare_and_swap old new' s =
    if flags_eq s.flags old then ok true (record s { flags = new' }) else ok false s

abbrev pub fill : Waker → Cmd IrqWaker (Unit {0})
fill k s = ok tt (record s { waker = some k })

-- One step of `set_waker`.
unfoldable pub advance : Pc → Cmd IrqWaker Pc
unfolding take_waker
advance idle = pure idle
advance (load_lock k) = do flag ← flags_of; pure (cas_lock k flag)
advance (cas_lock k flag) = do
  won ← compare_and_swap flag (record flag { locked = true })
  pure (if won then locked k flag else load_lock k)
advance (locked k flag) =
    if flag.has_waker
    then (do old ← take_waker; pure (replace k flag))
    else (do fill k; pure (publish k))
advance (replace k flag) = do fill k; pure (cas_unlock k (record flag { locked = true }))
advance (publish k) = do
  flag ← flags_of
  set_flags (record flag { has_waker = true })
  pure (cas_unlock k (record flag { has_waker = true; locked = true }))
advance (cas_unlock k flag) = do
  won ← compare_and_swap flag (record flag { locked = false })
  pure (if won then finish k flag else load_unlock k)
advance (load_unlock k) = do flag ← flags_of; pure (cas_unlock k flag)
advance (finish k flag) = if flag.wake_requested then (do call k; pure (clear k)) else pure idle
advance (clear k) = do now ← flags_of; set_flags (record now { wake_requested = false }); pure idle

-- `set_waker` from where it stands to its end, when no interrupt comes: at most `fuel` steps.
unfoldable pub run : ℕ → Pc → Cmd IrqWaker (Unit {0})
unfolding advance
run zero p = λ _. out_of_fuel
run (suc fuel) idle = pure tt
run (suc fuel) p = do q ← advance p; run fuel q

-- `set_waker`, when no interrupt comes.
unfoldable pub set_waker : ℕ → Waker → Cmd IrqWaker (Unit {0})
unfolding run
set_waker fuel k = run fuel (load_lock k)
