-- ===== src/Interrupt/Safety.antt =====
-- Every reachable state of the interrupt waker: no access to an uninitialised cell, and no wake-up
-- lost.
use embedded_async.Base.{
  Bool, true, false, not, ◌&&◌, ◌||◌, ◌≡◌, refl, some, ok, fault, panic, arith, subst, sym, ap, ◌∙◌,
  is_some, count-last, Outcome, out_of_fuel, Bool-cases, Option-cases, ◌⊎◌, inl, inr,
}
use embedded_async.World.{Waker}
use embedded_async.Interrupt.{
  IrqWaker, wake, flags_eq, take_waker, Pc, idle, load_lock, cas_lock, locked, replace, publish,
  cas_unlock, load_unlock, finish, clear, advance,
}
use embedded_async.Interrupt.Wake.{wake-locked, wake-stored, wake-empty}
use embedded_async.Interrupt.System.{
  System, new_waker, called, Step, begins, advances, interrupts, Reach, start, later,
}

-- The lock is free, and the flag tells whether a waker is stored.
pub record IsFree (m : IrqWaker) : Type 0 where
  pub unlocked : m.flags.locked ≡ false
  pub stored : is_some m.waker ≡ m.flags.has_waker

-- The lock is held, and a wake-up that came meanwhile is noted.
pub record IsHeld (m : IrqWaker) (owed : Bool) : Type 0 where
  pub held : m.flags.locked ≡ true
  pub noted : m.flags.wake_requested ≡ owed

pub record IsQuiet (m : IrqWaker) (owed : Bool) : Type 0 where
  pub free : IsFree m
  pub quiet : m.flags.wake_requested ≡ false
  pub paid : owed ≡ false

-- The new waker is stored, and its flag is set.
pub record IsStored (m : IrqWaker) (k : Waker) : Type 0 where
  pub cell : m.waker ≡ some k
  pub flag : m.flags.has_waker ≡ true

abbrev pub Inv : Pc → IrqWaker → Bool → Type 0
Inv idle m owed = IsQuiet m owed
Inv (load_lock k) m owed = IsQuiet m owed
Inv (cas_lock k flag) m owed = IsQuiet m owed
Inv (locked k flag) m owed =
    IsHeld m owed × (m.flags.has_waker ≡ flag.has_waker) × (is_some m.waker ≡ m.flags.has_waker)
Inv (replace k flag) m owed = IsHeld m owed × (m.flags.has_waker ≡ true) × (flag.has_waker ≡ true)
Inv (publish k) m owed = IsHeld m owed × (m.waker ≡ some k)
Inv (cas_unlock k flag) m owed = IsHeld m owed × IsStored m k
Inv (load_unlock k) m owed = IsHeld m owed × IsStored m k
Inv (finish k flag) m owed =
    IsFree m × (m.flags.wake_requested ≡ flag.wake_requested) × (owed ≡ flag.wake_requested)
Inv (clear k) m owed = IsFree m × (owed ≡ false)

-- A step ends, and leaves the invariant.
abbrev pub Keeps : Pc → IrqWaker → Bool → Outcome IrqWaker Pc → Type 0
Keeps p m owed (ok q n) = Inv q n (owed && not (called (new_waker p) m.woken n.woken))
Keeps p m owed _ = ⊥

pub advance-Keeps :
    (p : Pc) (m : IrqWaker) (owed : Bool) → Inv p m owed → Keeps p m owed (advance p m)
unfolding advance
advance-Keeps idle m owed v = ground arith
advance-Keeps (load_lock k) m owed v = ground arith
advance-Keeps (cas_lock k flag) m owed v = elim (Bool-cases (flags_eq m.flags flag)) [
  | inl won ↦ rw won (ground arith)
  | inr lost ↦ rw lost (ground arith)
]
advance-Keeps (locked k flag) m owed v = elim (Bool-cases flag.has_waker) [
  | inl full ↦ elim (Option-cases m.waker) [
    | inl gone ↦ absurd (ground arith)
    | inr (old, there) ↦ rw (full, take_waker, there) (ground arith)
  ]
  | inr none_yet ↦ rw none_yet (ground arith)
]
advance-Keeps (replace k flag) m owed v = ground arith
advance-Keeps (publish k) m owed v = ground arith
advance-Keeps (cas_unlock k flag) m owed v = elim (Bool-cases (flags_eq m.flags flag)) [
  | inl won ↦ rw won (ground arith)
  | inr lost ↦ rw lost (ground arith)
]
advance-Keeps (load_unlock k) m owed v = ground arith
advance-Keeps (finish k flag) m owed v = elim (Bool-cases flag.wake_requested) [
  | inl asked ↦ rw asked (ground (arith, count-last k m.woken))
  | inr quiet ↦ rw quiet (ground arith)
]
advance-Keeps (clear k) m owed v = ground arith

wake-Inv :
    (p : Pc) (m : IrqWaker) (owed : Bool) {n : IrqWaker}
    → Inv p m owed
    → wake m ≡ ok tt n
    → Inv p n (owed || m.flags.locked)
unfolding wake
wake-Inv idle m owed v e = ground arith
wake-Inv p m owed v e = ground arith

Step-Inv : {s t : System} → Step s t → Inv s.pc s.mem s.owed → Inv t.pc t.mem t.owed
Step-Inv {s} (begins k e) v = subst (λ p. Inv p s.mem s.owed) e v
Step-Inv {s} (advances e) v = subst (Keeps s.pc s.mem s.owed) e (advance-Keeps s.pc s.mem s.owed v)
Step-Inv {s} (interrupts e) v = wake-Inv s.pc s.mem s.owed v e

pub Reach-Inv : {s : System} → Reach s → Inv s.pc s.mem s.owed
Reach-Inv start = ground arith
Reach-Inv (later r st) = Step-Inv st (Reach-Inv r)

Keeps-ok :
    (p : Pc) (m : IrqWaker) (owed : Bool) (r : Outcome IrqWaker Pc)
    → Keeps p m owed r
    → (q : Pc) × (n : IrqWaker) × (r ≡ ok q n)
Keeps-ok p m owed (ok q n) k = (q, n, refl)
Keeps-ok p m owed fault k = elim k [ ]
Keeps-ok p m owed panic k = elim k [ ]
Keeps-ok p m owed out_of_fuel k = elim k [ ]

Inv-cases :
    (p : Pc) (m : IrqWaker) (owed : Bool)
    → Inv p m owed
    → (m.flags.locked ≡ true) ⊎ ((m.flags.locked ≡ false) × (is_some m.waker ≡ m.flags.has_waker))
Inv-cases idle m owed v = inr (ground arith)
Inv-cases (load_lock k) m owed v = inr (ground arith)
Inv-cases (cas_lock k flag) m owed v = inr (ground arith)
Inv-cases (locked k flag) m owed v = inl (ground arith)
Inv-cases (replace k flag) m owed v = inl (ground arith)
Inv-cases (publish k) m owed v = inl (ground arith)
Inv-cases (cas_unlock k flag) m owed v = inl (ground arith)
Inv-cases (load_unlock k) m owed v = inl (ground arith)
Inv-cases (finish k flag) m owed v = inr (ground arith)
Inv-cases (clear k) m owed v = inr (ground arith)

wake-ok : (p : Pc) (m : IrqWaker) (owed : Bool) → Inv p m owed → (n : IrqWaker) × (wake m ≡ ok tt n)
wake-ok p m owed v = elim (Inv-cases p m owed v) [
  | inl held ↦ (_, wake-locked m held)
  | inr (unlocked, stored) ↦ elim (Option-cases m.waker) [
    | inl gone ↦ (m, wake-empty m unlocked (sym stored ∙ ap is_some gone))
    | inr (k, there) ↦ (_, wake-stored m k unlocked (sym stored ∙ ap is_some there) there)
  ]
]

-- In every state that any interleaving of one `set_waker` at a time with interrupts can reach, the
-- next step of `set_waker` and a whole `wake` in an interrupt both end without undefined behaviour:
-- neither takes a waker out of a cell that is not initialised.
pub Reach-no_fault :
    {s : System}
    → Reach s
    → ((q : Pc) × (n : IrqWaker) × (advance s.pc s.mem ≡ ok q n))
      × ((n : IrqWaker) × (wake s.mem ≡ ok tt n))
Reach-no_fault {s} r = (
  Keeps-ok s.pc s.mem s.owed (advance s.pc s.mem) (advance-Keeps s.pc s.mem s.owed (Reach-Inv r)),
  wake-ok s.pc s.mem s.owed (Reach-Inv r),
)

-- Whenever no `set_waker` is under way, every `wake` that came while the lock
-- was held has been answered by a call of the new waker, the lock is free, no request is noted, and
-- the flag tells whether a waker is stored.
pub Reach-idle :
    {s : System}
    → Reach s
    → s.pc ≡ idle
    → (s.owed ≡ false)
      × (s.mem.flags.locked ≡ false)
      × (s.mem.flags.wake_requested ≡ false)
      × (is_some s.mem.waker ≡ s.mem.flags.has_waker)
Reach-idle {s} r e = ground (arith, subst (λ p. Inv p s.mem s.owed) e (Reach-Inv r))
