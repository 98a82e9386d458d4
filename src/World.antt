-- ===== src/World.antt =====
-- The memory that a primitive works on: the links of its futures, the waiters that own the links,
-- the tasks woken so far, and the primitive itself. `while let Some(x) = list.pop_front()` and the
-- lists that live for one call, which the primitives share, are written here once.
pub mod Waits
pub mod Drain
pub mod Survive
pub mod Without
use embedded_async.Base.{
  ℕ, zero, suc, Option, none, some, List, [], ◌∷◌, ◌++◌, update, Outcome, ok, fault, panic,
  out_of_fuel, Cmd, pure, ◌>>=◌, ◌>>◌,
}
use embedded_async.Intrusive.Links.{
  Ptr, Heap, LinkList, new_list, move_to_front_of, pop_front, drop_list,
}

-- A `core::task::Waker`, by the task that it wakes.
abbrev pub Waker : Type 0
Waker = ℕ

-- `std::task::Poll`
pub data Poll {ℓ} (A : Type ℓ) : Type ℓ where
  pending : Poll A
  ready : A → Poll A

pub record World (W C : Type 0) : Type 0 where
  pub links : Heap
  pub waiter : Ptr → Option W
  pub woken : List Waker
  pub self : C

module _ {W C : Type 0} where
  abbrev pub within {ℓ} : {A : Type ℓ} → World W C → Outcome Heap A → Outcome (World W C) A
  within w (ok a h) = ok a (record w { links = h })
  within w fault = fault
  within w panic = panic
  within w out_of_fuel = out_of_fuel

  -- A command on the links alone.
  abbrev pub on_links {ℓ} : {A : Type ℓ} → Cmd Heap A → Cmd (World W C) A
  on_links m w = within w (m w.links)

  -- `wake`, `wake_by_ref`: the task is told to run, last of those told so far.
  abbrev pub wakes : World W C → List Waker → World W C
  wakes w ks = record w { woken = w.woken ++ ks }

  abbrev pub wake : Waker → Cmd (World W C) (Unit {0})
  wake k w = ok tt (wakes w (k ∷ []))

  abbrev pub get : Cmd (World W C) C
  get w = ok w.self w

  abbrev pub put : C → Cmd (World W C) (Unit {0})
  put c w = ok tt (record w { self = c })

  abbrev pub loaded : World W C → Option W → Outcome (World W C) W
  loaded w none = fault
  loaded w (some v) = ok v w

  -- A read of a waiter, undefined behaviour where there is none.
  abbrev pub load : Ptr → Cmd (World W C) W
  load p w = loaded w (w.waiter p)

  abbrev pub store : Ptr → W → Cmd (World W C) (Unit {0})
  store p v w = ok tt (record w { waiter = update w.waiter p (some v) })

  -- A waiter goes out of scope.
  abbrev pub forget : Ptr → Cmd (World W C) (Unit {0})
  forget p w = ok tt (record w { waiter = update w.waiter p none })

  -- `while let Some(x) = l.pop_front() { body(x) }`
  unfoldable pub pop_each :
      ℕ → LinkList → (Ptr → Cmd (World W C) (Unit {0})) → Cmd (World W C) (Unit {0})
  pop_each zero l body = λ w. out_of_fuel
  pop_each (suc fuel) l body = do
    front ← on_links (pop_front l)
    elim front [ none ↦ pure tt | some x ↦ body x >> pop_each fuel l body ]

  -- The links of `l` are moved to a list of their own, `local`, which lives for this call, and the
  -- body takes them from there.
  unfoldable pub drain :
      ℕ
      → (local : LinkList) → LinkList
      → (Ptr → Cmd (World W C) (Unit {0}))
      → Cmd (World W C) (Unit {0})
  unfolding pop_each
  drain fuel local l body = do
    on_links (new_list local)
    on_links (move_to_front_of l local)
    pop_each fuel local body
    on_links (drop_list local)
