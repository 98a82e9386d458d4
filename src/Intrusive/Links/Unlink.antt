-- ===== src/Intrusive/Links/Unlink.antt =====
-- `Link::unlink`, `pop_front` and the drop of a link: one link leaves its list.
use mathlib.Core.List.{append_assoc}
use embedded_async.Base.{
  ◌≡◌, refl, ap, sym, subst, List, [], ◌∷◌, ◌++◌, arith, ◌∈◌, ◌∉◌, has-append, Distinct, Disjoint,
  update, ok, Distinct-left, Distinct-right, Distinct-apart, Distinct-remove, some, none,
}
use embedded_async.Intrusive.Links.{Ptr, null, Heap, LinkList, unlink, pop_front}
use embedded_async.Intrusive.Links.Chain.{
  Chain, Chain-left, Chain-right, Chain-join, last-mem, first-mem,
}
use embedded_async.Intrusive.Links.Invariant.{
  nodes, Valid, IsReady, IsList, init_heap, Within, mem-tail,
}
use embedded_async.Intrusive.Links.Sentinels.{
  init_heap-Within, IsReady-IsList, maybe_init_again, maybe_init_ready, is_empty-ready,
}

-- A list that holds a link has been set up.
pub IsList-ready :
    (h : Heap) (l : LinkList) (xs : List Ptr) (x : Ptr) → x ∈ xs → IsList h l xs → init_heap l h ≡ h
IsList-ready h l (y ∷ xs) x m is =
    ground (arith, is.chain, is.distinct, has-append y xs (l.tail ∷ []), mem-tail l xs)
IsList-ready h l [] x m is = absurd (cc)

module _ (h : Heap) (l : LinkList) (xs : List Ptr) (x : Ptr) (ys : List Ptr)
    (r : IsReady h l (xs ++ x ∷ ys)) where
  abbrev unlinked : Heap
  unlinked = record h {
    next = update (update h.next (h.prev x) (h.next x)) x null;
    prev = update (update h.prev (h.next x) (h.prev x)) x null;
  }

  abbrev before : List Ptr
  before = l.head ∷ xs

  abbrev after : List Ptr
  after = ys ++ l.tail ∷ []

  nodes-eq : nodes l (xs ++ x ∷ ys) ≡ before ++ x ∷ after
  nodes-eq = rw append_assoc

  left : Chain h.next h.prev l.head xs x
  left = Chain-left h.next h.prev l.head xs x ys l.tail r.chain

  right : Chain h.next h.prev x ys l.tail
  right = Chain-right h.next h.prev l.head xs x ys l.tail r.chain

  split : Distinct (before ++ x ∷ after)
  split = subst Distinct nodes-eq r.distinct

  apart : Disjoint before (x ∷ after)
  apart = Distinct-apart before (x ∷ after) split

  out : x ∉ after
  out = (Distinct-right before (x ∷ after) split).0

  prev-mem : h.prev x ∈ before
  prev-mem = last-mem h.next h.prev l.head xs x left

  next-mem : h.next x ∈ after
  next-mem = first-mem h.next h.prev x ys l.tail right

  mem : (a : Ptr) → a ∈ (before ++ x ∷ after) → Valid h a
  mem a m = r.valid a (subst (λ zs. a ∈ zs) (sym nodes-eq) m)

  unlink-eq : unlink x h ≡ ok tt unlinked
  unfolding unlink
  unlink-eq = ground (
    arith,
    mem x,
    mem (h.prev x),
    mem (h.next x),
    prev-mem,
    next-mem,
    apart (h.prev x),
    out,
    has-append x before (x ∷ after),
    has-append (h.prev x) before (x ∷ after),
    has-append (h.next x) before (x ∷ after),
  )

  unlink-ready : IsReady unlinked l (xs ++ ys)
  unlink-ready = record {
    valid = λ a m. mem a (
        ground (
          arith,
          append_assoc xs ys (l.tail ∷ []),
          has-append a before (x ∷ after),
          has-append a before after,
        ));
    distinct = rw append_assoc (Distinct-remove before after x split).0;
    chain =
        Chain-join h.next h.prev unlinked.next unlinked.prev l.head xs x x ys l.tail left right
          (Distinct-left before (x ∷ after) split) (ground (arith, prev-mem, apart (h.prev x)))
          (ground (arith, next-mem, out)) (λ c m ne. ground (arith, apart c))
          (λ c m. ground (arith, apart (h.prev x), prev-mem, has-append c ys (l.tail ∷ []), out))
          (λ c m. ground (arith, apart c, next-mem)) (λ c m ne. ground (arith, out))
          (Distinct-right before (x ∷ after) split).1;
    front = ground (arith, apart l.head, next-mem, r.front);
    back =
        ground (arith, apart (h.prev x), prev-mem, out, has-append l.tail ys (l.tail ∷ []), r.back);
  }

  unlink-Within : Within (nodes l (xs ++ x ∷ ys)) [] h unlinked
  unlink-Within = record {
    live = λ a. refl;
    next = λ a m. ground (arith, outside a m, has-append a before (x ∷ after), prev-mem);
    prev = λ a m. ground (arith, outside a m, has-append a before (x ∷ after), next-mem);
    owner = λ a m. refl;
  }
    where
      outside : (a : Ptr) → a ∉ nodes l (xs ++ x ∷ ys) → a ∉ (before ++ x ∷ after)
      outside a m = subst (λ zs. a ∉ zs) nodes-eq m

  unlink-null : (unlinked.next x ≡ null) × (unlinked.prev x ≡ null)
  unlink-null = ground arith

-- A link that a list holds once is not among the other addresses.
pub not-mem-rest :
    (h : Heap) (l : LinkList) (xs : List Ptr) (x : Ptr) (ys : List Ptr)
    → IsList h l (xs ++ x ∷ ys)
    → x ∉ nodes l (xs ++ ys)
not-mem-rest h l xs x ys is =
    rw (append_assoc xs ys (l.tail ∷ []))
      (Distinct-remove (l.head ∷ xs) (ys ++ l.tail ∷ []) x
        (subst Distinct (ap (◌∷◌ l.head) (append_assoc xs (x ∷ ys) (l.tail ∷ []))) is.distinct)).1

module _ (h : Heap) (l : LinkList) where
  -- `unlink` on any link of a well-formed list ends without undefined behaviour: the list keeps its
  -- other links in order, both pointers of the link are null, and no pointer outside the list and no
  -- owner changes.
  pub unlink-remove :
      (xs : List Ptr) (x : Ptr) (ys : List Ptr)
      → IsList h l (xs ++ x ∷ ys)
      → (g : Heap) × (unlink x h ≡ ok tt g)
        × IsList g l (xs ++ ys)
        × (g.next x ≡ null)
        × (g.prev x ≡ null)
        × Within (nodes l (xs ++ x ∷ ys)) [] h g
  unlink-remove xs x ys is =
      let e = IsList-ready h l (xs ++ x ∷ ys) x (ground (arith, has-append x xs (x ∷ ys))) is in
      let r = subst (λ g. IsReady g l (xs ++ x ∷ ys)) e is in
      let g = unlinked h l xs x ys r in
      (
        g,
        unlink-eq h l xs x ys r,
        IsReady-IsList g l (xs ++ ys) (unlink-ready h l xs x ys r),
        (unlink-null h l xs x ys r).0,
        (unlink-null h l xs x ys r).1,
        unlink-Within h l xs x ys r,
      )

  -- `pop_front` on an empty list says so, and leaves the list set up.
  pub pop_front-nil :
      IsList h l []
      → (g : Heap) × (pop_front l h ≡ ok none g) × IsReady g l [] × Within (nodes l []) [] h g
  unfolding pop_front
  pop_front-nil is =
      let g = init_heap l h in
      (
        g,
        rw (maybe_init_again h l [] is, maybe_init_ready g l [] is) (rw (is_empty-ready g l [] is)),
        is,
        init_heap-Within h l [],
      )

  -- `pop_front` on a list that holds links takes the first one off and returns it, unlinked.
  pub pop_front-cons :
      (x : Ptr) (xs : List Ptr)
      → IsList h l (x ∷ xs)
      → (g : Heap) × (pop_front l h ≡ ok (some x) g)
        × IsList g l xs
        × (g.next x ≡ null)
        × (g.prev x ≡ null)
        × Within (nodes l (x ∷ xs)) [] h g
  unfolding pop_front
  pop_front-cons x xs is =
      let e = IsList-ready h l (x ∷ xs) x (ground arith) is in
      let r = subst (λ g. IsReady g l (x ∷ xs)) e is in
      let post = unlink-remove [] x xs is in
      (
        post.0,
        rw (maybe_init_ready h l (x ∷ xs) r) (
            rw (is_empty-ready h l (x ∷ xs) r)
              (ground (arith, post.1, r.chain, r.valid l.head, r.valid x))),
        post.2,
        post.3,
        post.4,
        post.5,
      )
