-- ===== src/Intrusive/Links/UnitTests/Iterate.antt =====
-- src/intrusive/internal/mod.rs: the unit tests of the iterator.
use embedded_async.Base.{
  assert, is_ok, ℕ, zero, suc, ◌+◌, ◌-◌, ◌≡◌, refl, true, ◌==◌, none, some, out_of_fuel, Cmd, pure,
  ◌>>=◌, ◌>>◌,
}
use embedded_async.Intrusive.Links.{
  Heap, ListIterator, new_link, drop_link, new_list, drop_list, maybe_init_head_tail,
  push_link_front, push_link_back, iter, iter_next,
}
use embedded_async.Intrusive.Links.Iterate.{visit}
use embedded_async.Intrusive.Links.UnitTests.{
  empty_memory, list, assert_next, assert_prev, new_four, drop_four,
}

-- The loop of the tests of the iterator, from the index `n` on.
unfoldable assert_each : ℕ → ℕ → ListIterator → Cmd Heap (Unit {0})
unfolding iter_next
assert_each zero n it = λ h. out_of_fuel
assert_each (suc fuel) n it = do
  (rest, item) ← iter_next it
  elim item [ none ↦ pure tt | some p ↦ assert (n + 1 == p - 29) >> assert_each fuel (n + 1) rest ]

unfoldable iter_test_push_front : Cmd Heap (Unit {0})
iter_test_push_front = do
  new_four
  push_link_front list 33 1
  push_link_front list 32 2
  push_link_front list 31 3
  push_link_front list 30 4
  it ← iter list
  assert_each 5 0 it
  drop_four

unfoldable iter_test_push_back : Cmd Heap (Unit {0})
iter_test_push_back = do
  new_four
  push_link_back list 30 1
  push_link_back list 31 2
  push_link_back list 32 3
  push_link_back list 33 4
  it ← iter list
  assert_each 5 0 it
  drop_four

unfoldable empty_iter : Cmd Heap (Unit {0})
empty_iter = do
  new_list list
  maybe_init_head_tail list
  assert_next list.head list.tail
  assert_prev list.tail list.head
  it ← iter list
  owners ← visit 1 it
  assert_next list.head list.tail
  assert_prev list.tail list.head
  drop_list list

-- All of them pass.
passes :
    (is_ok (iter_test_push_front empty_memory) ≡ true)
    × (is_ok (iter_test_push_back empty_memory) ≡ true)
    × (is_ok (empty_iter empty_memory) ≡ true)
unfolding iter_test_push_front iter_test_push_back empty_iter new_link drop_link new_list drop_list
    maybe_init_head_tail push_link_front push_link_back iter iter_next visit assert_each
passes = (refl, refl, refl)
