-- ===== src/Examples/Slist.antt =====
-- The theorems on the singly linked list at concrete inputs: the list 4, 3, 2, 1 of the unit tests.
use embedded_async.Base.{◌≡◌, refl, true, [], ◌∷◌, ok, arith, ltb}
use embedded_async.Intrusive.Slist.{Stack, remove}
use embedded_async.Intrusive.Slist.Chain.{IsStack}
use embedded_async.Intrusive.Slist.Remove.{remove-erase}
use embedded_async.Examples.Memory.{table}

abbrev stack : Stack
stack = record {
  live = λ a. ltb a 10;
  owner = λ a. 0;
  next = table ((4, 3) ∷ (3, 2) ∷ (2, 1) ∷ []);
  head = 4;
}

stack-IsStack : IsStack stack (4 ∷ 3 ∷ 2 ∷ 1 ∷ [])
stack-IsStack = record {
  valid = λ a m. ground arith;
  distinct = ground arith;
  linked = (refl, (refl, (refl, (refl, refl))));
}

remove-erase_example :
    (t : Stack) × (remove 4 2 stack ≡ ok true t)
    × IsStack t (4 ∷ 3 ∷ 1 ∷ [])
    × (t.owner ≡ stack.owner)
    × (t.live ≡ stack.live)
remove-erase_example =
    remove-erase stack 2 (omega arith) (4 ∷ 3 ∷ 2 ∷ 1 ∷ []) stack-IsStack refl 4 (omega arith)
