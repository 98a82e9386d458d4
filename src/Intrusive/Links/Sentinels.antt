-- ===== src/Intrusive/Links/Sentinels.antt =====
-- src/intrusive/internal/mod.rs: `maybe_init_head_tail`, which sets the sentinels of a list up when
-- it is first used, and `is_empty`.
use embedded_async.Base.{
  ◌≡◌, ap, ◌∙◌, sym, subst, List, [], ◌∷◌, arith, true, false, ◌∈◌, ◌==◌, has-append, Distinct, ok,
  Bool,
}
use embedded_async.Intrusive.Links.{Ptr, Heap, LinkList, maybe_init_head_tail, is_empty}
use embedded_async.Intrusive.Links.Chain.{Chain, last-mem, first-mem}
use embedded_async.Intrusive.Links.Invariant.{nodes, IsReady, init_heap, IsList, Within, mem-tail}

module _ (h : Heap) (l : LinkList) (xs : List Ptr) where
  pub mem-first : IsReady h l xs → h.next l.head ∈ nodes l xs
  mem-first r = ground (arith, first-mem h.next h.prev l.head xs l.tail r.chain)

  pub mem-last : IsReady h l xs → h.prev l.tail ∈ nodes l xs
  mem-last r = ground (
    arith,
    last-mem h.next h.prev l.head xs l.tail r.chain,
    has-append (h.prev l.tail) xs (l.tail ∷ []),
  )

  -- A list that is set up stays as it is.
  pub init_heap-ready : IsReady h l xs → init_heap l h ≡ h
  init_heap-ready r = ground (arith, r.valid (h.next l.head), mem-first r)

  pub init_heap-Within : Within (l.head ∷ l.tail ∷ []) [] h (init_heap l h)
  init_heap-Within = record {
    live = λ a. ground arith;
    next = λ a m. ground arith;
    prev = λ a m. ground arith;
    owner = λ a m. ground arith;
  }

  pub IsReady-IsList : IsReady h l xs → IsList h l xs
  IsReady-IsList r = subst (λ g. IsReady g l xs) (sym (init_heap-ready r)) r

  -- `maybe_init_head_tail` sets up a list that is not set up.
  pub maybe_init : IsList h l xs → maybe_init_head_tail l h ≡ ok tt (init_heap l h)
  unfolding maybe_init_head_tail
  maybe_init r = ground (arith, r.valid l.head, r.valid l.tail, mem-tail l xs)

-- The second of two calls in a row changes nothing.
pub maybe_init_again :
    (h : Heap) (l : LinkList) (xs : List Ptr)
    → IsList h l xs
    → maybe_init_head_tail l h ≡ maybe_init_head_tail l (init_heap l h)
maybe_init_again h l xs is =
    let g = init_heap l h in
    rw (
      maybe_init h l xs is,
      maybe_init g l xs (IsReady-IsList g l xs is),
      init_heap-ready g l xs is,
    )

abbrev pub is_nil {ℓ} : {A : Type ℓ} → List A → Bool
is_nil [] = true
is_nil (_ ∷ _) = false

module _ (h : Heap) (l : LinkList) (xs : List Ptr) where
  pub maybe_init_ready : IsReady h l xs → maybe_init_head_tail l h ≡ ok tt h
  maybe_init_ready r =
      maybe_init h l xs (IsReady-IsList h l xs r) ∙ ap (ok tt) (init_heap-ready h l xs r)

  first-is_nil : IsReady h l xs → (h.next l.head == l.tail) ≡ is_nil xs
  first-is_nil r = go xs r.chain r.distinct
    where
      go :
          (ys : List Ptr)
          → Chain h.next h.prev l.head ys l.tail
          → Distinct (nodes l ys)
          → (h.next l.head == l.tail) ≡ is_nil ys
      go [] c d = ground arith
      go (y ∷ ys) c d = ground (arith, has-append y ys (l.tail ∷ []))

  pub is_empty-ready : IsReady h l xs → is_empty l h ≡ ok (is_nil xs) h
  unfolding is_empty
  is_empty-ready r = rw (maybe_init_ready r) (ground (arith, first-is_nil r, r.valid l.head))

-- `is_empty` on a well-formed list answers whether the list holds no link, and at most sets up the
-- list.
pub is_empty-is_nil :
    (h : Heap) (l : LinkList) (xs : List Ptr)
    → IsList h l xs
    → is_empty l h ≡ ok (is_nil xs) (init_heap l h)
unfolding is_empty
is_empty-is_nil h l xs is = rw (maybe_init_again h l xs is) (is_empty-ready (init_heap l h) l xs is)
