-- ===== src/Intrusive/Links/Lifetime.antt =====
-- The lifetime of lists and links: `List::new` on fresh memory, and the drops.
use embedded_async.Base.{
  ◌≡◌, refl, ◌≢◌, ◌==◌, List, [], ◌∷◌, ◌++◌, arith, true, false, has-append, update, ok,
}
use embedded_async.Intrusive.Links.{Ptr, null, Heap, LinkList, new_list, drop_list, drop_link}
use embedded_async.Intrusive.Links.Invariant.{
  nodes, Valid, IsReady, IsList, Outside, IsList-outside, Within-Outside, Outside-trans,
  Outside-mono,
}
use embedded_async.Intrusive.Links.Unlink.{unlink-remove, not-mem-rest}

-- Memory in which a list may be made: two addresses that hold no link.
pub record Fresh (h : Heap) (l : LinkList) : Type 0 where
  pub head : (l.head ≢ null) × (h.live l.head ≡ false)
  pub tail : (l.tail ≢ null) × (h.live l.tail ≡ false)
  pub apart : l.head ≢ l.tail

-- The memory once a new link lies at the address `x`.
abbrev pub with_link : Ptr → Heap → Heap
with_link x h = record {
  live = update h.live x true;
  owner = update h.owner x null;
  prev = update h.prev x null;
  next = update h.next x null;
}

pub with_link-Outside : (h : Heap) (x : Ptr) → Outside (x ∷ []) h (with_link x h)
with_link-Outside h x = record {
  live = λ a m. ground arith;
  next = λ a m. ground arith;
  prev = λ a m. ground arith;
  owner = λ a m. ground arith;
}

module _ (h : Heap) (l : LinkList) where
  -- A list made in fresh memory is well formed and empty, and no other memory changes.
  pub new_list-nil :
      Fresh h l
      → (g : Heap) × (new_list l h ≡ ok tt g) × IsList g l [] × Outside (l.head ∷ l.tail ∷ []) h g
  unfolding new_list
  new_list-nil f = (
    record {
      live = update (update h.live l.head true) l.tail true;
      owner = update (update h.owner l.head null) l.tail null;
      prev = update (update h.prev l.head null) l.tail null;
      next = update (update h.next l.head null) l.tail null;
    },
    refl,
    record {
      valid = λ a m. ground (arith, f.head, f.tail);
      distinct = ground (arith, f.apart);
      chain = ground (arith, f.apart);
      front = ground (arith, f.apart);
      back = ground (arith, f.apart);
    },
    record {
      live = λ a m. ground arith;
      next = λ a m. ground arith;
      prev = λ a m. ground arith;
      owner = λ a m. ground arith;
    },
  )

  -- The drop of an empty list that was used frees its sentinels and touches nothing else.
  pub drop_list-nil :
      IsReady h l []
      → (g : Heap) × (drop_list l h ≡ ok tt g)
        × (g.live l.head ≡ false)
        × (g.live l.tail ≡ false)
        × Outside (l.head ∷ l.tail ∷ []) h g
  unfolding drop_list
  drop_list-nil r = (
    record h {
      live = update (update h.live l.head false) l.tail false;
      prev = update (update (update h.prev l.tail null) l.head null) l.tail null;
      next = update (update h.next l.head null) l.tail null;
    },
    ground (arith, r.valid l.head, r.valid l.tail, r.chain, r.front, r.back, r.distinct),
    ground (arith, r.distinct),
    ground arith,
    record {
      live = λ a m. ground arith;
      next = λ a m. ground arith;
      prev = λ a m. ground arith;
      owner = λ a m. refl;
    },
  )

-- The drop of a link that is in no list frees it and touches nothing else.
pub drop_link-free :
    (h : Heap) (x : Ptr)
    → Valid h x
    → h.next x ≡ null
    → h.prev x ≡ null
    → (g : Heap) × (drop_link x h ≡ ok tt g)
      × (g.live x ≡ false)
      × Outside (x ∷ []) h g
      × ((a : Ptr) → g.owner a ≡ h.owner a)
unfolding drop_link
drop_link-free h x v n p = (
  record h {
    live = update h.live x false;
    prev = update h.prev x null;
    next = update h.next x null;
  },
  ground (arith, v),
  ground arith,
  record {
    live = λ a m. ground arith;
    next = λ a m. ground arith;
    prev = λ a m. ground arith;
    owner = λ a m. refl;
  },
  λ a. refl,
)

-- The drop of a link takes it out of the list that holds it: a waiter that goes away is forgotten.
-- The list keeps its other links in order, all of them live, no owner changes, and nothing outside
-- the list changes.
pub drop_link-remove :
    (h : Heap) (l : LinkList) (xs : List Ptr) (x : Ptr) (ys : List Ptr)
    → IsList h l (xs ++ x ∷ ys)
    → (g : Heap) × (drop_link x h ≡ ok tt g)
      × IsList g l (xs ++ ys)
      × (g.live x ≡ false)
      × Outside (nodes l (xs ++ x ∷ ys)) h g
      × ((a : Ptr) → (a == x) ≡ false → g.live a ≡ h.live a)
      × ((a : Ptr) → g.owner a ≡ h.owner a)
unfolding drop_link
drop_link-remove h l xs x ys is =
    let post = unlink-remove h l xs x ys is in
    let mid = post.0 in
    let g = record mid { live = update mid.live x false } in
    let gone : Outside (x ∷ []) mid g = record {
      live = λ a m. ground arith;
      next = λ a m. refl;
      prev = λ a m. refl;
      owner = λ a m. refl;
    } in
    (
      g,
      rw post.1,
      IsList-outside gone l (xs ++ ys) (λ a m. ground (arith, not-mem-rest h l xs x ys is)) post.2,
      ground arith,
      Outside-mono (nodes l (xs ++ x ∷ ys))
          (Outside-trans (Within-Outside post.5 (λ a m. refl)) gone)
          (λ a m. ground (
            arith,
            m,
            has-append a (nodes l (xs ++ x ∷ ys)) (x ∷ []),
            has-append a (xs ++ x ∷ ys) (l.tail ∷ []),
            has-append a xs (x ∷ ys),
          )),
      λ a ne. ground (arith, post.5.live a),
      λ a. post.5.owner a refl,
    )
