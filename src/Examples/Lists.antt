-- ===== src/Examples/Lists.antt =====
-- The theorems on links and reference counts at concrete inputs.
use embedded_async.Base.{◌>>=◌, ℕ, ◌≡◌, refl, [], ◌∷◌, ◌++◌, ok, arith, ◌^◌, ◌%◌, panic}
use embedded_async.Intrusive.Links.{Heap, iter, push_link_back, unlink, move_to_front_of}
use embedded_async.Intrusive.Links.Invariant.{IsList, nodes, Within}
use embedded_async.Intrusive.Links.Iterate.{visit, visit-iter}
use embedded_async.Intrusive.Links.Push.{push_link_back-append}
use embedded_async.Intrusive.Links.Unlink.{unlink-remove}
use embedded_async.Intrusive.Links.Move.{move_to_front_of-append}
use embedded_async.Intrusive.Rc.{
  Shared, Reach, start, later, gets, clones, drops, drop_anchor, deref,
}
use embedded_async.Intrusive.Rc.Count.{Reach-count, drop_anchor-Reach}
use embedded_async.Examples.Memory.{
  heap, first, second, first-IsList, second-IsList, apart, free-Valid,
}

push_link_back-append_example :
    (g : Heap) × (push_link_back first 17 7 heap ≡ ok tt g)
    × IsList g first (5 ∷ 8 ∷ 7 ∷ [])
    × (g.owner 7 ≡ 17)
    × Within (7 ∷ nodes first (5 ∷ 8 ∷ [])) (7 ∷ []) heap g
push_link_back-append_example =
    push_link_back-append heap first (5 ∷ 8 ∷ []) 17 7 first-IsList free-Valid refl

unlink-remove_example :
    (g : Heap) × (unlink 8 heap ≡ ok tt g)
    × IsList g first (5 ∷ [])
    × (g.next 8 ≡ 0)
    × (g.prev 8 ≡ 0)
    × Within (nodes first (5 ∷ 8 ∷ [])) [] heap g
unlink-remove_example = unlink-remove heap first (5 ∷ []) 8 [] first-IsList

move_to_front_of-append_example :
    (g : Heap) × (move_to_front_of first second heap ≡ ok tt g)
    × IsList g first []
    × IsList g second (5 ∷ 8 ∷ 6 ∷ [])
    × Within (nodes first (5 ∷ 8 ∷ []) ++ nodes second (6 ∷ [])) [] heap g
move_to_front_of-append_example =
    move_to_front_of-append heap first second (5 ∷ 8 ∷ []) (6 ∷ []) first-IsList second-IsList apart

-- Two references taken, one of them cloned, one dropped.
abbrev shared : Shared ℕ
shared = record { anchor = record { ref_count = 2; contents = 10 }; refs = 2 }

shared-Reach : Reach 10 shared
shared-Reach =
    later (later (later (later start gets) gets) (clones (omega arith))) (drops (omega arith))

Reach-count_example : (◌≡◌ {A = ℕ} 2 (2 % 2 ^ 32)) × (deref shared.anchor ≡ 10)
Reach-count_example = Reach-count shared-Reach

drop_anchor-Reach_example : drop_anchor shared.anchor ≡ panic
drop_anchor-Reach_example = drop_anchor-Reach shared-Reach

visit-iter_example : (iter first >>= visit 3) heap ≡ ok (15 ∷ 18 ∷ []) heap
visit-iter_example = visit-iter 3 heap first (5 ∷ 8 ∷ []) first-IsList (omega arith) (omega arith)
