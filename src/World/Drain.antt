-- ===== src/World/Drain.antt =====
-- What the loops over a wait list do when their body wakes the waiter that owns each link.
use mathlib.Core.Path.{fun_ext}
use mathlib.Core.List.{append-nil, append_assoc}
use embedded_async.Base.{
  ℕ, zero, suc, ◌<◌, ◌≡◌, refl, ◌∙◌, sym, subst, List, [], ◌∷◌, ◌++◌, arith, false, ◌∈◌, ◌∉◌,
  has-append, Disjoint, All, All-map, length, Distinct-apart, ok, Option, Cmd,
}
use embedded_async.Intrusive.Links.{
  Ptr, null, Heap, LinkList, new_list, drop_list, move_to_front_of,
}
use embedded_async.Intrusive.Links.Invariant.{
  nodes, Valid, IsReady, IsList, Within, Outside, mem-tail, IsList-outside, Within-mono,
  Within-trans, mem-left, IsList-frame,
}
use embedded_async.Intrusive.Links.Unlink.{pop_front-nil, pop_front-cons, not-mem-rest}
use embedded_async.Intrusive.Links.Move.{move_to_front_of-append}
use embedded_async.Intrusive.Links.Lifetime.{Fresh, new_list-nil, drop_list-nil}
use embedded_async.World.{World, Waker, wakes, pop_each, drain}
use embedded_async.World.Waits.{Waits, links_of, wakers_of, Waiting, Waits-frame, Fresh-apart}

-- What a call of `drain` leaves of the heap: an empty list, its old links unlinked, the call's own
-- list freed, and all else as it was.
pub record Drained (h : Heap) (local l : LinkList) (xs : List Ptr) (g : Heap) : Type 0 where
  pub empty : IsList g l []
  pub unlinked : All (λ x. (g.next x ≡ null) × (g.prev x ≡ null)) xs
  pub freed : (g.live local.head ≡ false) × (g.live local.tail ≡ false)
  pub outside : Outside (local.head ∷ local.tail ∷ nodes l xs) h g
  pub live : (a : Ptr) → a ∉ (local.head ∷ local.tail ∷ []) → g.live a ≡ h.live a
  pub owner : (a : Ptr) → a ∉ (local.head ∷ local.tail ∷ []) → g.owner a ≡ h.owner a

module _ {W : Type 0} (waker_of : W → Option Waker) where
  module _ {C : Type 0} (body : Ptr → Cmd (World W C) (Unit {0}))
      (body-wakes : (w : World W C) (x : Ptr) (k : Waker)
        → Valid w.links x
        → Waiting waker_of w.links.owner w.waiter (x, k)
        → body x w ≡ ok tt (wakes w (k ∷ []))) where
    pub pop_each-wakes :
        (fuel : ℕ) (w : World W C) (l : LinkList) (ts : Waits)
        → IsList w.links l (links_of ts)
        → All (Waiting waker_of w.links.owner w.waiter) ts
        → length ts < fuel
        → (g : Heap) × (pop_each fuel l body w
            ≡ ok tt (record w { links = g; woken = w.woken ++ wakers_of ts }))
          × IsReady g l []
          × Within (nodes l (links_of ts)) [] w.links g
          × All (λ x. (g.next x ≡ null) × (g.prev x ≡ null)) (links_of ts)
    unfolding pop_each
    pop_each-wakes zero w l ts is all few = absurd (omega arith)
    pop_each-wakes (suc fuel) w l [] is all few =
        let p = pop_front-nil w.links l is in (p.0, rw (p.1, append-nil), p.2, p.3, tt)
    pop_each-wakes (suc fuel) w l ((x, k) ∷ ts) is all few =
        let p = pop_front-cons w.links l x (links_of ts) is in
        let w1 : World W C = record w { links = p.0 } in
        let same : w.links.owner ≡ w1.links.owner = fun_ext (λ a. sym (p.5.owner a refl)) in
        let all1 = subst (λ f. All (Waiting waker_of f w.waiter) ((x, k) ∷ ts)) same all in
        let live : Valid p.0 x = ground (arith, is.valid x, p.5.live x) in
        let rest = pop_each-wakes fuel (wakes w1 (k ∷ [])) l ts p.2 all1.1 (omega arith) in
        (
          rest.0,
          rw (p.1, body-wakes w1 x k live all1.0, rest.1, append_assoc),
          rest.2,
          Within-mono (nodes l (x ∷ links_of ts)) [] (Within-trans p.5 rest.3)
              (λ a m.
                ground (arith, has-append a (nodes l (x ∷ links_of ts)) (nodes l (links_of ts))))
              (λ a m. m),
          (
            ground (
              arith,
              rest.3.next x,
              rest.3.prev x,
              p.3,
              p.4,
              not-mem-rest w.links l [] x (links_of ts) is,
            ),
            rest.4,
          ),
        )

    module _ (fuel : ℕ) (w : World W C) (local l : LinkList) (ts : Waits)
        (fresh : Fresh w.links local) (is : IsList w.links l (links_of ts))
        (all : All (Waiting waker_of w.links.owner w.waiter) ts) (few : length ts < fuel) where
      abbrev xs : List Ptr
      xs = links_of ts

      apart : Disjoint (nodes l xs) (local.head ∷ local.tail ∷ [])
      apart = Fresh-apart w.links local l xs fresh is

      made :
          (g : Heap) × (new_list local w.links ≡ ok tt g)
          × IsList g local []
          × Outside (local.head ∷ local.tail ∷ []) w.links g
      made = new_list-nil w.links local fresh

      moved :
          (g : Heap) × (move_to_front_of l local made.0 ≡ ok tt g)
          × IsList g l []
          × IsList g local xs
          × Within (nodes l xs ++ nodes local []) [] made.0 g
      moved =
          let step =
            move_to_front_of-append made.0 l local xs [] (IsList-outside made.3 l xs apart is)
              made.2 (λ a m. ground (arith, apart a m)) in
          (step.0, step.1, step.2, subst (IsList step.0 local) (append-nil xs) step.3, step.4)

      still : All (Waiting waker_of moved.0.owner w.waiter) ts
      still =
          Waits-frame waker_of w.links.owner moved.0.owner w.waiter w.waiter ts
            (λ x m. (moved.4.owner x refl ∙ made.3.owner x (apart x (mem-left l xs x m)), refl)) all

      after_move : World W C
      after_move = record w { links = moved.0 }

      popped :
          (g : Heap) × (pop_each fuel local body after_move
            ≡ ok tt (record after_move { links = g; woken = w.woken ++ wakers_of ts }))
          × IsReady g local []
          × Within (nodes local xs) [] moved.0 g
          × All (λ x. (g.next x ≡ null) × (g.prev x ≡ null)) xs
      unfolding after_move
      popped = pop_each-wakes fuel after_move local ts moved.3 still few

      dropped :
          (g : Heap) × (drop_list local popped.0 ≡ ok tt g)
          × (g.live local.head ≡ false)
          × (g.live local.tail ≡ false)
          × Outside (local.head ∷ local.tail ∷ []) popped.0 g
      dropped = drop_list-nil popped.0 local popped.2

      own_out : (a : Ptr) → a ∈ nodes l [] → a ∉ nodes local xs
      own_out a m = ground (
        arith,
        apart a,
        mem-tail l xs,
        has-append a xs (local.tail ∷ []),
        is.distinct,
        has-append a xs (l.tail ∷ []),
        Distinct-apart xs (l.tail ∷ []) is.distinct.1 a,
      )

      off :
          (a : Ptr)
          → a ∉ (local.head ∷ local.tail ∷ nodes l xs)
          → (a ∉ (local.head ∷ local.tail ∷ []))
            × (a ∉ nodes local xs)
            × (a ∉ (nodes l xs ++ nodes local []))
      off a m = (
        ground arith,
        ground (arith, has-append a xs (local.tail ∷ []), has-append a xs (l.tail ∷ [])),
        ground (arith, has-append a (nodes l xs) (nodes local [])),
      )

      live_same : (a : Ptr) → a ∉ (local.head ∷ local.tail ∷ []) → dropped.0.live a ≡ w.links.live a
      live_same a m = dropped.4.live a m ∙ popped.3.live a ∙ moved.4.live a ∙ made.3.live a m

      owner_same :
          (a : Ptr) → a ∉ (local.head ∷ local.tail ∷ []) → dropped.0.owner a ≡ w.links.owner a
      owner_same a m =
          dropped.4.owner a m ∙ popped.3.owner a refl ∙ moved.4.owner a refl ∙ made.3.owner a m

      drained : Drained w.links local l xs dropped.0
      drained = record {
        empty =
            IsList-outside dropped.4 l [] (λ a m. ground (arith, apart a, mem-tail l xs))
              (IsList-frame popped.3 l [] own_out moved.2);
        unlinked =
            All-map (λ x. (popped.0.next x ≡ null) × (popped.0.prev x ≡ null))
              (λ x. (dropped.0.next x ≡ null) × (dropped.0.prev x ≡ null)) xs
              (λ a m n. (
                dropped.4.next a (apart a (mem-left l xs a m)) ∙ n.0,
                dropped.4.prev a (apart a (mem-left l xs a m)) ∙ n.1,
              ))
              popped.4;
        freed = (dropped.2, dropped.3);
        outside = record {
          live = λ a m. live_same a (off a m).0;
          next = λ a m.
              dropped.4.next a (off a m).0
              ∙ popped.3.next a (off a m).1
              ∙ moved.4.next a (off a m).2
              ∙ made.3.next a (off a m).0;
          prev = λ a m.
              dropped.4.prev a (off a m).0
              ∙ popped.3.prev a (off a m).1
              ∙ moved.4.prev a (off a m).2
              ∙ made.3.prev a (off a m).0;
          owner = λ a m. owner_same a (off a m).0;
        };
        live = live_same;
        owner = owner_same;
      }

      -- Given fresh memory for its own list and as many rounds as there are links, one call takes
      -- every link off the list, wakes each waiter once, in the order of the list, and leaves all
      -- other memory as it was.
      pub drain-wakes :
          (g : Heap) × (drain fuel local l body w
            ≡ ok tt (record w { links = g; woken = w.woken ++ wakers_of ts }))
          × Drained w.links local l xs g
      unfolding drain after_move
      drain-wakes = (dropped.0, rw (made.1, moved.1, popped.1, dropped.1), drained)
