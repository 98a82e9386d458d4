-- ===== src/Intrusive/Slist.antt =====
-- src/intrusive/slist.rs: the intrusive singly linked list. Links lie at addresses, and 0 is null; a
-- dereference of an address that holds no link is a fault.
pub mod Chain
pub mod Ends
pub mod Remove
pub mod UnitTests
use embedded_async.Base.{
  ℕ, zero, suc, Bool, true, false, not, ◌&&◌, ◌==◌, if◌then◌else◌, update, Option, none, some, Cmd,
  ok, fault, out_of_fuel, pure, ◌>>=◌, ◌>>◌,
}
use embedded_async.Intrusive.Links.{Ptr, null, is_null}

-- The links by address, and the pointer of the list to its first one.
pub record Stack : Type 0 where
  pub live : Ptr → Bool
  pub owner : Ptr → Ptr
  pub next : Ptr → Ptr
  pub head : Ptr

abbrev pub StackCmd : Type 0 → Type 0
StackCmd A = Cmd Stack A

-- A dereference of a pointer to a link.
unfoldable pub deref : Ptr → StackCmd (Unit {0})
deref p s = if not (is_null p) && s.live p then ok tt s else fault

unfoldable pub get_next : Ptr → StackCmd Ptr
unfolding deref
get_next p = do deref p; λ s. ok (s.next p) s

unfoldable pub set_next : Ptr → Ptr → StackCmd (Unit {0})
unfolding deref
set_next p q = do deref p; λ s. ok tt (record s { next = update s.next p q })

unfoldable pub set_owner : Ptr → Ptr → StackCmd (Unit {0})
unfolding deref
set_owner p q = do deref p; λ s. ok tt (record s { owner = update s.owner p q })

abbrev pub get_head : StackCmd Ptr
get_head s = ok s.head s

abbrev pub set_head : Ptr → StackCmd (Unit {0})
set_head p s = ok tt (record s { head = p })

-- `Link::new` written at the address `p`.
unfoldable pub new_link : Ptr → StackCmd (Unit {0})
new_link p s = ok tt (record s {
  live = update s.live p true;
  owner = update s.owner p null;
  next = update s.next p null;
})

-- `Link::owner`: `as_ref` of the pointer.
unfoldable pub owner_of : Ptr → StackCmd (Option Ptr)
unfolding deref
owner_of p = do deref p; λ s. ok (if is_null (s.owner p) then none else some (s.owner p)) s

-- `List::new`
unfoldable pub new_list : StackCmd (Unit {0})
new_list = set_head null

-- `List::head_ref`: `as_mut` of the pointer.
unfoldable pub head_ref : StackCmd (Option Ptr)
unfolding deref
head_ref = do p ← get_head; if is_null p then pure none else do deref p; pure (some p)

unfoldable pub is_empty : StackCmd Bool
is_empty = do p ← get_head; pure (is_null p)

unfoldable pub push : (link_owner link : Ptr) → StackCmd (Unit {0})
unfolding set_owner set_next
push link_owner link = do
  set_owner link link_owner
  first ← get_head
  set_next link first
  set_head link

unfoldable pub pop : StackCmd (Option Ptr)
unfolding head_ref get_next set_next
pop = do
  first ← head_ref
  elim first [
    | none ↦ pure none
    | some p ↦ do n ← get_next p; set_head n; set_next p null; pure (some p)
  ]

-- `link` is taken out, where the link `before` points at it.
unfoldable pub bypass : (before link : Ptr) → StackCmd Bool
unfolding get_next set_next
bypass before link = do n ← get_next link; set_next before n; set_next link null; pure true

-- The loop of `remove`, one round for every link that it passes.
unfoldable pub search_from : ℕ → (at link : Ptr) → StackCmd Bool
unfolding get_next bypass
search_from zero at link = λ s. out_of_fuel
search_from (suc fuel) at link = do
  n ← get_next at
  if is_null n then pure false else if n == link then bypass at link else search_from fuel n link

unfoldable pub remove : ℕ → Ptr → StackCmd Bool
unfolding head_ref get_next set_next bypass search_from
remove fuel link = do
  p ← get_head
  if p == link then (do n ← get_next link; set_head n; set_next link null; pure true) else (do
    first ← head_ref
    elim first [
      | none ↦ pure false
      | some head ↦ do
        n ← get_next head
        if n == link
            then bypass head link
            else if is_null n
            then pure false
            else search_from fuel n link
    ])

-- `take`: the first link of the list that is returned; this one is empty then.
unfoldable pub take : StackCmd Ptr
take = do p ← get_head; set_head null; pure p
