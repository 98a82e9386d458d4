-- ===== src/Intrusive/Links/UnitTests.antt =====
-- src/intrusive/internal/mod.rs: the unit tests of the file, as commands on an empty memory. The
-- links of a test lie at 1 to 4, its lists at 10 to 13, and its items from 30 on, the values 1 to 4
-- in order where there are four. A failed assertion is a panic, and what a test declares is dropped
-- at its end.
pub mod Remove
pub mod Iterate
use embedded_async.Base.{
  assert, is_ok, ℕ, zero, suc, ◌+◌, ◌-◌, ◌≡◌, refl, true, false, not, ◌==◌, is_some, none, some, ok,
  out_of_fuel, Cmd, pure, ◌>>=◌, ◌>>◌, expect,
}
use embedded_async.Intrusive.Links.{
  Ptr, null, is_null, Heap, LinkList, ListIterator, new_link, owner_of, unlink, drop_link, new_list,
  drop_list, maybe_init_head_tail, is_empty, push_link_front, push_link_back, pop_front,
  move_to_front_of, iter, iter_next,
}
use embedded_async.Intrusive.Links.Iterate.{visit}

abbrev pub empty_memory : Heap
empty_memory = record { live = λ a. false; owner = λ a. null; prev = λ a. null; next = λ a. null }

abbrev pub list : LinkList
list = record { head = 10; tail = 11 }

abbrev pub list2 : LinkList
list2 = record { head = 12; tail = 13 }

-- A read of a field of a local link.
abbrev pub owner_at : Ptr → Cmd Heap Ptr
owner_at p h = ok (h.owner p) h

abbrev pub assert_next : Ptr → Ptr → Cmd Heap (Unit {0})
assert_next p q = do n ← (λ h. ok (h.next p) h); assert (n == q)

abbrev pub assert_prev : Ptr → Ptr → Cmd Heap (Unit {0})
assert_prev p q = do n ← (λ h. ok (h.prev p) h); assert (n == q)

-- The list and the four links that most tests declare.
abbrev pub new_four : Cmd Heap (Unit {0})
new_four = do new_list list; new_link 1; new_link 2; new_link 3; new_link 4

abbrev pub drop_four : Cmd Heap (Unit {0})
drop_four = do drop_link 4; drop_link 3; drop_link 2; drop_link 1; drop_list list

unfoldable default_link_has_no_owner : Cmd Heap (Unit {0})
default_link_has_no_owner = do new_link 1; o ← owner_at 1; assert (is_null o); drop_link 1

unfoldable new_list_is_empty : Cmd Heap (Unit {0})
new_list_is_empty = do new_list list; e ← is_empty list; assert e; drop_list list

unfoldable push_to_empty : Cmd Heap (Unit {0})
push_to_empty = do
  new_list list
  new_link 1
  push_link_front list 30 1
  o ← owner_at 1
  assert (o == 30)
  e ← is_empty list
  assert (not e)
  assert_next 1 list.tail
  assert_prev list.tail 1
  assert_next list.head 1
  drop_link 1
  drop_list list

unfoldable push_front : Cmd Heap (Unit {0})
push_front = do
  new_four
  push_link_front list 30 1
  push_link_front list 30 2
  push_link_front list 30 3
  push_link_front list 30 4
  assert_next list.head 4
  assert_next 4 3
  assert_next 3 2
  assert_next 2 1
  assert_next 1 list.tail
  drop_four

unfoldable push_back : Cmd Heap (Unit {0})
push_back = do
  new_four
  push_link_back list 30 1
  push_link_back list 30 2
  push_link_back list 30 3
  push_link_back list 30 4
  assert_next list.head 1
  assert_next 1 2
  assert_next 2 3
  assert_next 3 4
  assert_next 4 list.tail
  drop_four

unfoldable pop_single_item : Cmd Heap (Unit {0})
pop_single_item = do
  new_list list
  new_link 1
  push_link_front list 30 1
  e ← is_empty list
  assert (not e)
  popped ← pop_front list
  assert (is_some popped)
  x ← expect popped
  o ← owner_of x
  p ← expect o
  assert (p == 30)
  e ← is_empty list
  assert e
  drop_link 1
  drop_list list

unfoldable pop_item : Cmd Heap (Unit {0})
pop_item = do
  new_four
  push_link_back list 30 1
  push_link_back list 30 2
  push_link_back list 30 3
  push_link_back list 30 4
  assert_next list.head 1
  assert_next 1 2
  assert_next 2 3
  assert_next 3 4
  assert_next 4 list.tail
  popped ← pop_front list
  x ← expect popped
  assert (x == 1)
  assert_next list.head 2
  assert_next 2 3
  assert_next 3 4
  assert_next 4 list.tail
  assert_prev 1 null
  assert_next 1 null
  drop_four

-- All of them pass.
passes :
    (is_ok (default_link_has_no_owner empty_memory) ≡ true)
    × (is_ok (new_list_is_empty empty_memory) ≡ true)
    × (is_ok (push_to_empty empty_memory) ≡ true)
    × (is_ok (push_front empty_memory) ≡ true)
    × (is_ok (push_back empty_memory) ≡ true)
    × (is_ok (pop_single_item empty_memory) ≡ true)
    × (is_ok (pop_item empty_memory) ≡ true)
unfolding default_link_has_no_owner new_list_is_empty push_to_empty push_front push_back
    pop_single_item pop_item new_link owner_of drop_link new_list drop_list is_empty push_link_front
    push_link_back pop_front
passes = (refl, refl, refl, refl, refl, refl, refl)
