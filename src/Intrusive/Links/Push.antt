-- ===== src/Intrusive/Links/Push.antt =====
-- `push_link_front` and `push_link_back`: one more link at an end of the list.
use mathlib.Core.List.{append_assoc}
use embedded_async.Base.{
  ◌≡◌, refl, List, [], ◌∷◌, ◌++◌, arith, ◌∈◌, ◌∉◌, has-append, update, ok, Distinct-left,
  Distinct-apart, Distinct-insert,
}
use embedded_async.Intrusive.Links.{Ptr, Heap, LinkList, push_link_back, push_link_front}
use embedded_async.Intrusive.Links.Chain.{Chain-end, Chain-start, Chain-append, last-mem, first-mem}
use embedded_async.Intrusive.Links.Invariant.{
  nodes, Valid, IsReady, IsList, init_heap, Within, Within-mono, Within-trans, mem-tail,
  not-mem-left,
}
use embedded_async.Intrusive.Links.Sentinels.{
  mem-first, mem-last, init_heap-Within, IsReady-IsList, maybe_init_again,
}

module _ (h : Heap) (l : LinkList) (xs : List Ptr) (o x : Ptr) (r : IsReady h l xs) (v : Valid h x)
    (out : x ∉ nodes l xs) where
  abbrev back_heap : Heap
  back_heap = record h {
    owner = update h.owner x o;
    next = update (update h.next (h.prev l.tail) x) x l.tail;
    prev = update (update h.prev x (h.prev l.tail)) l.tail x;
  }

  back-eq : push_link_back l o x h ≡ ok tt back_heap
  unfolding push_link_back
  back-eq = ground (
    arith,
    mem-first h l xs r,
    r.valid (h.next l.head),
    r.valid l.head,
    r.valid l.tail,
    mem-tail l xs,
    r.valid (h.prev l.tail),
    mem-last h l xs r,
  )

  front_heap : Heap
  front_heap = record h {
    owner = update h.owner x o;
    next = update (update h.next x (h.next l.head)) l.head x;
    prev = update (update h.prev (h.next l.head) x) x l.head;
  }

  front-eq : push_link_front l o x h ≡ ok tt front_heap
  unfolding push_link_front front_heap
  front-eq = ground (arith, mem-first h l xs r, r.valid (h.next l.head), r.valid l.head)

  back-ready : IsReady back_heap l (xs ++ x ∷ [])
  back-ready = record {
    valid = λ a m. ground (
      arith,
      r.valid a,
      has-append a (xs ++ x ∷ []) (l.tail ∷ []),
      has-append a xs (x ∷ []),
      has-append a xs (l.tail ∷ []),
    );
    distinct =
        rw (append_assoc xs (x ∷ []) (l.tail ∷ []))
          (Distinct-insert (l.head ∷ xs) (l.tail ∷ []) x r.distinct out);
    chain =
        Chain-append back_heap.next back_heap.prev l.head xs x [] l.tail
          (Chain-end h.next h.prev back_heap.next back_heap.prev l.head xs l.tail x r.chain
            (Distinct-left (l.head ∷ xs) (l.tail ∷ []) r.distinct)
            (λ c m ne. ground (arith, not-mem-left l xs x out)) (ground (arith, mem-last h l xs r))
            (λ c m. ground (arith, tail-apart c, not-mem-left l xs x out))
            (ground (arith, mem-tail l xs)))
          (ground arith, ground arith);
    front = ground (arith, r.front, tail-apart l.head);
    back = ground (arith, r.back, tail-apart (h.prev l.tail), last, mem-tail l xs);
  }
    where
      tail-apart : (a : Ptr) → a ∈ (l.head ∷ xs) → a ∉ (l.tail ∷ [])
      tail-apart = Distinct-apart (l.head ∷ xs) (l.tail ∷ []) r.distinct

      last : h.prev l.tail ∈ (l.head ∷ xs)
      last = last-mem h.next h.prev l.head xs l.tail r.chain

  front-ready : IsReady front_heap l (x ∷ xs)
  unfolding front_heap
  front-ready = record {
    valid = λ a m. ground (arith, r.valid a);
    distinct = Distinct-insert (l.head ∷ []) (xs ++ l.tail ∷ []) x r.distinct out;
    chain = (
      ground arith,
      ground (arith, r.distinct.0, mem-first h l xs r),
      Chain-start h.next h.prev front_heap.next front_heap.prev l.head xs l.tail x r.chain
          (ground arith) (ground (arith, mem-first h l xs r))
          (λ c m. ground (arith, has-append c xs (l.tail ∷ []))) (λ c m ne. ground arith)
          r.distinct.1,
    );
    front = ground (arith, r.front, r.distinct.0, first-mem h.next h.prev l.head xs l.tail r.chain);
    back = ground (arith, r.back, r.distinct.0, has-append l.tail xs (l.tail ∷ []));
  }

  back-Within : Within (x ∷ nodes l xs) (x ∷ []) h back_heap
  back-Within = record {
    live = λ a. refl;
    next = λ a m. ground (arith, mem-last h l xs r);
    prev = λ a m. ground (arith, mem-tail l xs);
    owner = λ a m. ground arith;
  }

  front-Within : Within (x ∷ nodes l xs) (x ∷ []) h front_heap
  unfolding front_heap
  front-Within = record {
    live = λ a. refl;
    next = λ a m. ground arith;
    prev = λ a m. ground (arith, mem-first h l xs r);
    owner = λ a m. ground arith;
  }

module _ (h : Heap) (l : LinkList) (xs : List Ptr) (o x : Ptr) (is : IsList h l xs) (v : Valid h x)
    (out : x ∉ nodes l xs) where
  abbrev ready : Heap
  ready = init_heap l h

  valid : Valid ready x
  valid = ground (arith, v)

  from_ready :
      (ys : List Ptr) {g : Heap}
      → IsReady g l ys
      → Within (x ∷ nodes l xs) (x ∷ []) ready g
      → g.owner x ≡ o
      → IsList g l ys × (g.owner x ≡ o) × Within (x ∷ nodes l xs) (x ∷ []) h g
  from_ready ys {g} r w own = (
    IsReady-IsList g l ys r,
    own,
    Within-mono (x ∷ nodes l xs) (x ∷ []) (Within-trans (init_heap-Within h l xs) w)
        (λ a m. ground (arith, has-append a xs (l.tail ∷ []))) (λ a m. m),
  )

  -- `push_link_back` on a well-formed list, given a live link that the list does not hold, ends
  -- without undefined behaviour; the list then holds its old links in order and the new one last,
  -- the new link has the owner given, and no pointer of another link and no other owner changes.
  pub push_link_back-append :
      (g : Heap) × (push_link_back l o x h ≡ ok tt g)
      × IsList g l (xs ++ x ∷ [])
      × (g.owner x ≡ o)
      × Within (x ∷ nodes l xs) (x ∷ []) h g
  unfolding push_link_back
  push_link_back-append =
      let post =
        from_ready (xs ++ x ∷ []) (back-ready ready l xs o x is valid out)
          (back-Within ready l xs o x is valid out) (ground arith) in
      (
        back_heap ready l xs o x is valid out,
        rw (maybe_init_again h l xs is) (back-eq ready l xs o x is valid out),
        post.0,
        post.1,
        post.2,
      )

  -- `push_link_front` on a well-formed list, given a live link that the list does not hold, ends
  -- without undefined behaviour; the list then holds the new link first and its old ones in order,
  -- the new link has the owner given, and no pointer of another link and no other owner changes.
  pub push_link_front-cons :
      (g : Heap) × (push_link_front l o x h ≡ ok tt g)
      × IsList g l (x ∷ xs)
      × (g.owner x ≡ o)
      × Within (x ∷ nodes l xs) (x ∷ []) h g
  unfolding push_link_front front_heap
  push_link_front-cons =
      let post =
        from_ready (x ∷ xs) (front-ready ready l xs o x is valid out)
          (front-Within ready l xs o x is valid out) (ground arith) in
      (
        front_heap ready l xs o x is valid out,
        rw (maybe_init_again h l xs is) (front-eq ready l xs o x is valid out),
        post.0,
        post.1,
        post.2,
      )
