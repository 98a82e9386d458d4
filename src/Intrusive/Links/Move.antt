-- ===== src/Intrusive/Links/Move.antt =====
-- `move_to_front_of`: all links of one list go to the front of another.
use mathlib.Core.List.{append_assoc}
use embedded_async.Base.{
  ◌≡◌, refl, ◌∙◌, ◌≢◌, List, [], ◌∷◌, ◌++◌, arith, ◌∈◌, ◌∉◌, has-append, Distinct, Disjoint, update,
  ok, Distinct-append, Distinct-left, Distinct-apart,
}
use embedded_async.Intrusive.Links.{Ptr, Heap, LinkList, move_to_front_of}
use embedded_async.Intrusive.Links.Chain.{Chain-join, last-mem, first-mem}
use embedded_async.Intrusive.Links.Invariant.{
  nodes, IsReady, IsList, init_heap, Within, Within-mono, Within-trans, mem-tail, mem-left,
  IsList-frame, IsReady-frame,
}
use embedded_async.Intrusive.Links.Sentinels.{
  init_heap-Within, IsReady-IsList, maybe_init_ready, is_empty-ready, maybe_init,
}

-- Both lists are set up, share no address, and the first holds `x` and then `xs`.
module _ (h : Heap) (l m : LinkList) (x : Ptr) (xs ys : List Ptr) (r : IsReady h l (x ∷ xs))
    (s : IsReady h m ys) (apart : Disjoint (nodes l (x ∷ xs)) (nodes m ys)) where
  abbrev moved : Heap
  moved = record h {
    next =
        update (update (update h.next (h.prev l.tail) (h.next m.head)) m.head (h.next l.head))
          l.head l.tail;
    prev =
        update (update (update h.prev (h.next m.head) (h.prev l.tail)) (h.next l.head) m.head)
          l.tail l.head;
  }

  last : h.prev l.tail ∈ (x ∷ xs)
  last = last-mem h.next h.prev x xs l.tail r.chain.2

  first : h.next m.head ∈ (ys ++ m.tail ∷ [])
  first = first-mem h.next h.prev m.head ys m.tail s.chain

  inside : (a : Ptr) → a ∈ (x ∷ xs) → a ∈ nodes l (x ∷ xs)
  inside a i = mem-left l (x ∷ xs) a i

  -- An address of the links of `l` is neither a sentinel of `l` nor an address of `m`.
  linked : (a : Ptr) → a ∈ (x ∷ xs) → (a ≢ l.head) × (a ≢ l.tail) × (a ∉ nodes m ys)
  linked a i = (
    ground (arith, r.distinct.0, inside a i, has-append a xs (l.tail ∷ [])),
    ground (arith, Distinct-apart (x ∷ xs) (l.tail ∷ []) r.distinct.1 a),
    apart a (inside a i),
  )

  sentinels : (l.head ≢ l.tail) × (l.head ∉ nodes m ys) × (l.tail ∉ nodes m ys)
  sentinels = (
    ground (arith, r.distinct.0, has-append l.tail xs (l.tail ∷ [])),
    apart l.head (ground arith),
    apart l.tail (mem-tail l (x ∷ xs)),
  )

  move-eq : move_to_front_of l m h ≡ ok tt moved
  unfolding move_to_front_of
  move-eq =
      rw (maybe_init_ready h l (x ∷ xs) r, maybe_init_ready h m ys s, is_empty-ready h l (x ∷ xs) r)
        (ground (
          arith,
          r.valid l.head,
          r.valid l.tail,
          r.valid (h.prev l.tail),
          r.valid (h.next l.head),
          s.valid m.head,
          s.valid (h.next m.head),
          last,
          first,
          linked (h.prev l.tail),
          sentinels,
          mem-tail l (x ∷ xs),
          inside (h.prev l.tail),
          r.chain,
        ))

  src-ready : IsReady moved l []
  src-ready = record {
    valid = λ a i. ground (arith, r.valid a, mem-tail l (x ∷ xs));
    distinct = ground (arith, sentinels);
    chain = (ground arith, ground arith);
    front = ground (arith, sentinels, first, r.chain, linked x, r.front);
    back = ground (arith, sentinels, linked (h.prev l.tail), last, r.back);
  }

  foreign : (c : Ptr) → c ∈ nodes m ys → (c ≢ l.tail) × (c ≢ h.next l.head)
  foreign c i =
      (ground (arith, apart l.tail, mem-tail l (x ∷ xs)), ground (arith, apart x, r.chain.0))

  moved-distinct : Distinct (m.head ∷ (x ∷ xs) ++ (ys ++ m.tail ∷ []))
  moved-distinct = (
    ground (arith, has-append m.head xs (ys ++ m.tail ∷ []), s.distinct.0, linked m.head),
    Distinct-append (x ∷ xs) (ys ++ m.tail ∷ []) (Distinct-left (x ∷ xs) (l.tail ∷ []) r.distinct.1)
        s.distinct.1 (λ a i. ground (arith, linked a i)),
  )

  dst-ready : IsReady moved m (x ∷ xs ++ ys)
  dst-ready = record {
    valid = λ a i. ground (
      arith,
      s.valid a,
      r.valid a,
      inside a,
      append_assoc xs ys (m.tail ∷ []),
      has-append a xs (ys ++ m.tail ∷ []),
    );
    distinct = rw append_assoc moved-distinct;
    chain = (
      ground (arith, r.chain, sentinels),
      ground (arith, r.chain, linked x),
      Chain-join h.next h.prev moved.next moved.prev x xs l.tail m.head ys m.tail r.chain.2 s.chain
          (Distinct-left (x ∷ xs) (l.tail ∷ []) r.distinct.1)
          (ground (arith, linked (h.prev l.tail) last))
          (ground (arith, first, sentinels, linked x, r.chain))
          (λ c i ne. ground (arith, linked c i))
          (λ c i. ground (
            arith,
            sentinels,
            linked (h.prev l.tail) last,
            s.distinct.0,
            has-append c ys (m.tail ∷ []),
          ))
          (λ c i. ground (
            arith,
            linked c (ground arith),
            r.distinct.1,
            first,
            r.chain.0,
            has-append c xs (l.tail ∷ []),
          ))
          (λ c i ne. ground (arith, foreign c (ground arith))) s.distinct.1,
    );
    front = ground (arith, s.front, first, s.distinct.0, r.chain, linked x, sentinels);
    back = ground (
      arith,
      s.back,
      s.distinct.0,
      linked (h.prev l.tail) last,
      sentinels,
      mem-tail m ys,
      has-append m.tail ys (m.tail ∷ []),
    );
  }

  move-Within : Within (nodes l (x ∷ xs) ++ nodes m ys) [] h moved
  move-Within = record {
    live = λ a. refl;
    next = λ a i.
        ground (arith, has-append a (nodes l (x ∷ xs)) (nodes m ys), inside (h.prev l.tail) last);
    prev = λ a i.
        ground (
          arith,
          has-append a (nodes l (x ∷ xs)) (nodes m ys),
          mem-tail l (x ∷ xs),
          first,
          r.chain,
        );
    owner = λ a i. refl;
  }

module _ (h : Heap) (l m : LinkList) (xs ys : List Ptr) (is : IsList h l xs) (js : IsList h m ys)
    (apart : Disjoint (nodes l xs) (nodes m ys)) where
  abbrev src_init : Heap
  src_init = init_heap l h

  abbrev both : Heap
  both = init_heap m src_init

  mid : IsList src_init m ys
  mid =
      IsList-frame (init_heap-Within h l xs) m ys
        (λ a i. ground (arith, apart a, mem-tail l xs, apart l.tail)) js

  src : IsReady both l xs
  src =
      IsReady-frame (init_heap-Within src_init m ys) l xs
        (λ a i. ground (arith, apart a i, mem-tail m ys)) is

  dst : IsReady both m ys
  dst = mid

  both-Within : Within (nodes l xs ++ nodes m ys) [] h both
  both-Within =
      Within-mono (nodes l xs ++ nodes m ys) []
        (Within-trans (init_heap-Within h l xs) (init_heap-Within src_init m ys))
        (λ a i.
          ground (arith, has-append a (nodes l xs) (nodes m ys), mem-tail l xs, mem-tail m ys))
        (λ a i. i)

  to_both : move_to_front_of l m h ≡ move_to_front_of l m both
  unfolding move_to_front_of
  to_both = rw (
    maybe_init h l xs is,
    maybe_init src_init m ys mid,
    is_empty-ready both l xs src,
    maybe_init_ready both l xs src,
    maybe_init_ready both m ys dst,
    is_empty-ready both l xs src,
  )

-- `move_to_front_of` between two well-formed lists that share no address ends without undefined
-- behaviour: the source is empty, the other list holds the links of both, those of the source
-- first and each list's in their order, and nothing outside the two lists changes.
pub move_to_front_of-append :
    (h : Heap) (l m : LinkList) (xs ys : List Ptr)
    → IsList h l xs
    → IsList h m ys
    → Disjoint (nodes l xs) (nodes m ys)
    → (g : Heap) × (move_to_front_of l m h ≡ ok tt g)
      × IsList g l []
      × IsList g m (xs ++ ys)
      × Within (nodes l xs ++ nodes m ys) [] h g
unfolding move_to_front_of
move_to_front_of-append h l m [] ys is js apart =
    let g = both h l m [] ys is js apart in
    let s = src h l m [] ys is js apart in
    let t = dst h l m [] ys is js apart in
    (
      g,
      to_both h l m [] ys is js apart
          ∙ rw (maybe_init_ready g l [] s, maybe_init_ready g m ys t)
              (rw (is_empty-ready g l [] s)),
      IsReady-IsList g l [] s,
      IsReady-IsList g m ys t,
      both-Within h l m [] ys is js apart,
    )
move_to_front_of-append h l m (x ∷ xs) ys is js apart =
    let b = both h l m (x ∷ xs) ys is js apart in
    let s = src h l m (x ∷ xs) ys is js apart in
    let t = dst h l m (x ∷ xs) ys is js apart in
    let g = moved b l m x xs ys s t apart in
    (
      g,
      to_both h l m (x ∷ xs) ys is js apart ∙ move-eq b l m x xs ys s t apart,
      IsReady-IsList g l [] (src-ready b l m x xs ys s t apart),
      IsReady-IsList g m (x ∷ xs ++ ys) (dst-ready b l m x xs ys s t apart),
      Within-mono (nodes l (x ∷ xs) ++ nodes m ys) []
          (Within-trans (both-Within h l m (x ∷ xs) ys is js apart)
            (move-Within b l m x xs ys s t apart))
          (λ a i.
            rw (has-append a (nodes l (x ∷ xs) ++ nodes m ys) (nodes l (x ∷ xs) ++ nodes m ys), i))
          (λ a i. i),
    )
