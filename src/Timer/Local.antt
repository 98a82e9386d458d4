-- ===== src/Timer/Local.antt =====
-- src/timer/mod.rs: the lists `sleepers` and `to_append`, which live for one call: the links of one
-- of the timer's lists are moved there, and the other one is left alone.
use mathlib.Core.List.{append-nil}
use embedded_async.Base.{
  ◌≡◌, refl, subst, List, [], ◌∷◌, ◌∈◌, has-append, Disjoint, Distinct-apart, arith, ok,
}
use embedded_async.Intrusive.Links.{Ptr, Heap, LinkList, new_list, move_to_front_of}
use embedded_async.Intrusive.Links.Invariant.{
  nodes, IsList, mem-tail, mem-left, IsList-outside, IsList-frame,
}
use embedded_async.Intrusive.Links.Move.{move_to_front_of-append}
use embedded_async.Intrusive.Links.Lifetime.{Fresh, new_list-nil}
use embedded_async.World.Waits.{Fresh-apart}

-- After the move: `l` is empty, `local` holds its links, and `m` what it held.
pub record Moved (h made g : Heap) (local l m : LinkList) (xs ys : List Ptr) : Type 0 where
  pub empty : IsList g l []
  pub held : IsList g local xs
  pub other : IsList g m ys
  pub owner : (a : Ptr) → g.owner a ≡ made.owner a
  pub owner_l : (a : Ptr) → a ∈ xs → made.owner a ≡ h.owner a
  pub owner_m : (a : Ptr) → a ∈ ys → made.owner a ≡ h.owner a
  pub local_l : Disjoint (nodes local xs) (nodes l [])
  pub m_local : Disjoint (nodes m ys) (nodes local xs)
  pub m_l : Disjoint (nodes m ys) (nodes l [])

module _ (h : Heap) (local l m : LinkList) (xs ys : List Ptr) (fresh : Fresh h local)
    (is : IsList h l xs) (other : IsList h m ys) (apart : Disjoint (nodes l xs) (nodes m ys)) where
  off_l : Disjoint (nodes l xs) (local.head ∷ local.tail ∷ [])
  off_l = Fresh-apart h local l xs fresh is

  off_m : Disjoint (nodes m ys) (local.head ∷ local.tail ∷ [])
  off_m = Fresh-apart h local m ys fresh other

  local-l : Disjoint (nodes local xs) (nodes l [])
  local-l a i = ground (
    arith,
    off_l a,
    mem-tail l xs,
    has-append a xs (local.tail ∷ []),
    is.distinct,
    has-append a xs (l.tail ∷ []),
    Distinct-apart xs (l.tail ∷ []) is.distinct.1 a,
  )

  m-local : Disjoint (nodes m ys) (nodes local xs)
  m-local a i =
      ground (
        arith,
        off_m a i,
        apart a,
        has-append a xs (local.tail ∷ []),
        has-append a xs (l.tail ∷ []),
      )

  m-l : Disjoint (nodes m ys) (nodes l [])
  m-l a i = ground (arith, apart a, has-append a xs (l.tail ∷ []))

  -- A new list on fresh memory, and the move into it.
  pub move-Moved :
      (made g : Heap) × (new_list local h ≡ ok tt made)
      × (move_to_front_of l local made ≡ ok tt g)
      × Moved h made g local l m xs ys
  move-Moved =
      let n = new_list-nil h local fresh in
      let p =
        move_to_front_of-append n.0 l local xs [] (IsList-outside n.3 l xs off_l is) n.2
          (λ a i. ground (arith, off_l a i)) in
      (
        n.0,
        p.0,
        n.1,
        p.1,
        record {
          empty = p.2;
          held = subst (IsList p.0 local) (append-nil xs) p.3;
          other =
              IsList-frame p.4 m ys
                (λ a i.
                  ground (arith, off_m a i, apart a, has-append a (nodes l xs) (nodes local [])))
                (IsList-outside n.3 m ys off_m other);
          owner = λ a. p.4.owner a refl;
          owner_l = λ a i. n.3.owner a (off_l a (mem-left l xs a i));
          owner_m = λ a i. n.3.owner a (off_m a (mem-left m ys a i));
          local_l = local-l;
          m_local = m-local;
          m_l = m-l;
        },
      )
