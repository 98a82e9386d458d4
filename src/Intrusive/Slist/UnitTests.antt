-- ===== src/Intrusive/Slist/UnitTests.antt =====
-- src/intrusive/slist.rs: the unit tests of the file, as commands on an empty memory. The links of a
-- test lie at 1 to 4 and its item at 20; a failed assertion is a panic.
use embedded_async.Base.{assert, is_ok, ◌≡◌, refl, true, false, not, ◌==◌, is_some, ok, ◌>>=◌, ◌>>◌}
use embedded_async.Intrusive.Links.{Ptr, null, is_null}
use embedded_async.Intrusive.Slist.{
  Stack, StackCmd, get_head, new_link, new_list, is_empty, push, pop, remove, take,
}

abbrev empty_memory : Stack
empty_memory = record { live = λ a. false; owner = λ a. null; next = λ a. null; head = null }

-- Reads of the fields of a local link.
abbrev owner_at : Ptr → StackCmd Ptr
owner_at p s = ok (s.owner p) s

abbrev next_at : Ptr → StackCmd Ptr
next_at p s = ok (s.next p) s

unfoldable default_link_has_no_owner : StackCmd (Unit {0})
default_link_has_no_owner = do new_link 1; o ← owner_at 1; assert (is_null o)

unfoldable new_list_is_empty : StackCmd (Unit {0})
new_list_is_empty = do new_list; e ← is_empty; assert e

unfoldable push_to_empty : StackCmd (Unit {0})
push_to_empty = do
  new_list
  new_link 1
  push 20 1
  o ← owner_at 1
  assert (o == 20)
  e ← is_empty
  assert (not e)
  n ← next_at 1
  assert (is_null n)
  h ← get_head
  assert (h == 1)

unfoldable pop_single_item : StackCmd (Unit {0})
pop_single_item = do
  new_list
  new_link 1
  push 20 1
  e ← is_empty
  assert (not e)
  popped ← pop
  assert (is_some popped)
  e ← is_empty
  assert e

unfoldable take_list : StackCmd (Unit {0})
take_list = do
  new_list
  new_link 1
  push 20 1
  e ← is_empty
  assert (not e)
  list2 ← take
  assert (not (is_null list2))
  e ← is_empty
  assert e
  assert (list2 == 1)

abbrev assert_next : Ptr → Ptr → StackCmd (Unit {0})
assert_next p q = do n ← next_at p; assert (n == q)

abbrev assert_head : Ptr → StackCmd (Unit {0})
assert_head p = do h ← get_head; assert (h == p)

-- The four links that the tests of `remove` push, and what they assert of them first.
abbrev push_four : StackCmd (Unit {0})
push_four = do
  new_list
  new_link 1
  new_link 2
  new_link 3
  new_link 4
  push 20 1
  push 20 2
  push 20 3
  push 20 4
  assert_head 4
  assert_next 4 3
  assert_next 3 2
  assert_next 2 1
  assert_next 1 null

unfoldable remove_head_item : StackCmd (Unit {0})
remove_head_item = do
  push_four
  removed ← remove 4 4
  assert removed
  removed ← remove 4 4
  assert (not removed)
  assert_head 3
  assert_next 3 2
  assert_next 2 1
  assert_next 1 null

unfoldable remove_next_to_head_item : StackCmd (Unit {0})
remove_next_to_head_item = do
  push_four
  removed ← remove 4 3
  assert removed
  assert_head 4
  assert_next 4 2
  assert_next 2 1
  assert_next 1 null
  assert_next 3 null

unfoldable remove_in_list_item : StackCmd (Unit {0})
remove_in_list_item = do
  push_four
  removed ← remove 4 2
  assert removed
  assert_head 4
  assert_next 4 3
  assert_next 3 1
  assert_next 1 null
  assert_next 2 null

-- All of them pass.
passes :
    (is_ok (default_link_has_no_owner empty_memory) ≡ true)
    × (is_ok (new_list_is_empty empty_memory) ≡ true)
    × (is_ok (push_to_empty empty_memory) ≡ true)
    × (is_ok (pop_single_item empty_memory) ≡ true)
    × (is_ok (take_list empty_memory) ≡ true)
    × (is_ok (remove_head_item empty_memory) ≡ true)
    × (is_ok (remove_next_to_head_item empty_memory) ≡ true)
    × (is_ok (remove_in_list_item empty_memory) ≡ true)
unfolding default_link_has_no_owner new_list_is_empty push_to_empty pop_single_item take_list
    remove_head_item remove_next_to_head_item remove_in_list_item new_link new_list is_empty push
    pop remove take
passes = (refl, refl, refl, refl, refl, refl, refl, refl)
