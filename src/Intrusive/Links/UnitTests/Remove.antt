-- ===== src/Intrusive/Links/UnitTests/Remove.antt =====
-- src/intrusive/internal/mod.rs: the unit tests of `move_to_front_of` and of the removal of a link.
use embedded_async.Base.{assert, is_ok, ◌≡◌, refl, true, not, Cmd, ◌>>=◌, ◌>>◌}
use embedded_async.Intrusive.Links.{
  null, Heap, new_link, unlink, drop_link, new_list, drop_list, is_empty, push_link_front,
  push_link_back, move_to_front_of,
}
use embedded_async.Intrusive.Links.UnitTests.{
  empty_memory, list, list2, assert_next, assert_prev, new_four, drop_four,
}

unfoldable move_to_empty : Cmd Heap (Unit {0})
move_to_empty = do
  new_list list
  new_list list2
  new_link 1
  new_link 2
  new_link 3
  new_link 4
  push_link_back list 30 1
  push_link_back list 30 2
  push_link_back list2 30 3
  push_link_back list2 30 4
  move_to_front_of list list2
  e ← is_empty list
  assert e
  e ← is_empty list2
  assert (not e)
  assert_next list2.head 1
  assert_prev 1 list2.head
  assert_next 1 2
  assert_next 2 3
  assert_next 3 4
  assert_next 4 list2.tail
  drop_link 4
  drop_link 3
  drop_link 2
  drop_link 1
  drop_list list2
  drop_list list

unfoldable move_to_existing : Cmd Heap (Unit {0})
move_to_existing = do
  new_list list
  new_link 1
  push_link_front list 30 1
  e ← is_empty list
  assert (not e)
  new_list list2
  move_to_front_of list list2
  e ← is_empty list2
  assert (not e)
  e ← is_empty list
  assert e
  assert_next list2.head 1
  assert_prev 1 list2.head
  drop_list list2
  drop_link 1
  drop_list list

unfoldable remove_head_item : Cmd Heap (Unit {0})
remove_head_item = do
  new_four
  push_link_front list 30 1
  push_link_front list 30 2
  push_link_front list 30 3
  push_link_front list 30 4
  assert_next list.head 4
  assert_next 4 3
  assert_next 3 2
  assert_next 2 1
  assert_next 1 list.tail
  unlink 4
  assert_next list.head 3
  assert_next 3 2
  assert_next 2 1
  assert_next 1 list.tail
  drop_four

unfoldable remove_next_to_head_item : Cmd Heap (Unit {0})
remove_next_to_head_item = do
  new_four
  push_link_front list 30 1
  push_link_front list 30 2
  push_link_front list 30 3
  push_link_front list 30 4
  assert_next list.head 4
  assert_next 4 3
  assert_next 3 2
  assert_next 2 1
  assert_next 1 list.tail
  unlink 3
  assert_next list.head 4
  assert_next 4 2
  assert_next 2 1
  assert_next 1 list.tail
  assert_next 3 null
  assert_prev 3 null
  drop_four

unfoldable remove_in_list_item : Cmd Heap (Unit {0})
remove_in_list_item = do
  new_four
  push_link_front list 30 1
  push_link_front list 30 2
  push_link_front list 30 3
  push_link_front list 30 4
  assert_next list.head 4
  assert_next 4 3
  assert_next 3 2
  assert_next 2 1
  assert_next 1 list.tail
  unlink 2
  assert_next list.head 4
  assert_next 4 3
  assert_next 3 1
  assert_next 1 list.tail
  assert_next 2 null
  drop_four

-- All of them pass.
passes :
    (is_ok (move_to_empty empty_memory) ≡ true)
    × (is_ok (move_to_existing empty_memory) ≡ true)
    × (is_ok (remove_head_item empty_memory) ≡ true)
    × (is_ok (remove_next_to_head_item empty_memory) ≡ true)
    × (is_ok (remove_in_list_item empty_memory) ≡ true)
unfolding move_to_empty move_to_existing remove_head_item remove_next_to_head_item
    remove_in_list_item new_link unlink drop_link new_list drop_list is_empty push_link_front
    push_link_back move_to_front_of
passes = (refl, refl, refl, refl, refl)
