-- ===== src/Intrusive/Links/Invariant.antt =====
-- When a heap holds a list: the sentinels and the linked addresses are distinct live links, and
-- the pointers form one chain. What an operation may write, and what survives it.
use embedded_async.Base.{
  ◌≡◌, ◌≢◌, List, [], ◌∷◌, ◌++◌, arith, true, ◌∈◌, ◌∉◌, has-append, Distinct, Disjoint, update,
  if◌then◌else◌,
}
use embedded_async.Intrusive.Links.{Ptr, null, Heap, is_null, LinkList}
use embedded_async.Intrusive.Links.Chain.{Chain, Chain-frame}

abbrev pub nodes : LinkList → List Ptr → List Ptr
nodes l xs = l.head ∷ xs ++ l.tail ∷ []

abbrev pub Valid : Heap → Ptr → Type 0
Valid h p = (p ≢ null) × (h.live p ≡ true)

-- The list `l` has set up its sentinels, and the links `xs` stand between them.
pub record IsReady (h : Heap) (l : LinkList) (xs : List Ptr) : Type 0 where
  pub valid : (a : Ptr) → a ∈ nodes l xs → Valid h a
  pub distinct : Distinct (nodes l xs)
  pub chain : Chain h.next h.prev l.head xs l.tail
  pub front : h.prev l.head ≡ null
  pub back : h.next l.tail ≡ null

-- The heap after the sentinels are set up, where that is still to be done.
abbrev pub init_heap : LinkList → Heap → Heap
init_heap l h =
    if is_null (h.next l.head)
    then record h { next = update h.next l.head l.tail; prev = update h.prev l.tail l.head }
    else h

-- The list `l` holds the links `xs`; a new list sets up its sentinels when it is first used.
abbrev pub IsList : Heap → LinkList → List Ptr → Type 0
IsList h l xs = IsReady (init_heap l h) l xs

-- From `h` to `g` only the pointers of `ys` and the owners of `os` have changed.
pub record Within (ys os : List Ptr) (h g : Heap) : Type 0 where
  pub live : (a : Ptr) → g.live a ≡ h.live a
  pub next : (a : Ptr) → a ∉ ys → g.next a ≡ h.next a
  pub prev : (a : Ptr) → a ∉ ys → g.prev a ≡ h.prev a
  pub owner : (a : Ptr) → a ∉ os → g.owner a ≡ h.owner a

-- From `h` to `g` nothing has changed but at the addresses `ys`.
pub record Outside (ys : List Ptr) (h g : Heap) : Type 0 where
  pub live : (a : Ptr) → a ∉ ys → g.live a ≡ h.live a
  pub next : (a : Ptr) → a ∉ ys → g.next a ≡ h.next a
  pub prev : (a : Ptr) → a ∉ ys → g.prev a ≡ h.prev a
  pub owner : (a : Ptr) → a ∉ ys → g.owner a ≡ h.owner a

pub Within-Outside :
    {ys os : List Ptr} {h g : Heap}
    → Within ys os h g
    → ((a : Ptr) → a ∉ ys → a ∉ os)
    → Outside ys h g
Within-Outside w sub = record {
  live = λ a m. w.live a;
  next = w.next;
  prev = w.prev;
  owner = λ a m. w.owner a (sub a m);
}

pub Outside-trans :
    {ys zs : List Ptr} {h g f : Heap} → Outside ys h g → Outside zs g f → Outside (ys ++ zs) h f
Outside-trans {ys} {zs} v w = record {
  live = λ a m. ground (arith, v.live a, w.live a, has-append a ys zs);
  next = λ a m. ground (arith, v.next a, w.next a, has-append a ys zs);
  prev = λ a m. ground (arith, v.prev a, w.prev a, has-append a ys zs);
  owner = λ a m. ground (arith, v.owner a, w.owner a, has-append a ys zs);
}

pub Outside-mono :
    {ys : List Ptr} {h g : Heap} (zs : List Ptr)
    → Outside ys h g
    → ((a : Ptr) → a ∉ zs → a ∉ ys)
    → Outside zs h g
Outside-mono zs w f = record {
  live = λ a m. w.live a (f a m);
  next = λ a m. w.next a (f a m);
  prev = λ a m. w.prev a (f a m);
  owner = λ a m. w.owner a (f a m);
}

-- Links and their pointers are the same but at the addresses `ys`; owners play no part in a list.
record Spares (ys : List Ptr) (h g : Heap) : Type 0 where
  live : (a : Ptr) → a ∉ ys → g.live a ≡ h.live a
  next : (a : Ptr) → a ∉ ys → g.next a ≡ h.next a
  prev : (a : Ptr) → a ∉ ys → g.prev a ≡ h.prev a

Within-Spares : {ys os : List Ptr} {h g : Heap} → Within ys os h g → Spares ys h g
Within-Spares w = record { live = λ a m. w.live a; next = w.next; prev = w.prev }

Outside-Spares : {ys : List Ptr} {h g : Heap} → Outside ys h g → Spares ys h g
Outside-Spares w = record { live = w.live; next = w.next; prev = w.prev }

module _ {ys : List Ptr} {h g : Heap} (w : Spares ys h g) (l : LinkList) (xs : List Ptr)
    (apart : Disjoint (nodes l xs) ys) where
  IsReady-Spares : IsReady h l xs → IsReady g l xs
  IsReady-Spares r = record {
    valid = λ a m. ground (arith, r.valid a, w.live a, apart a m);
    distinct = r.distinct;
    chain =
        Chain-frame h.next h.prev g.next g.prev l.head xs l.tail r.chain
          (λ c m. w.next c (apart c (ground (arith, has-append c xs (l.tail ∷ [])))))
          (λ c m. w.prev c (apart c (ground arith)));
    front = ground (arith, r.front, w.prev l.head, apart l.head);
    back = ground (arith, r.back, w.next l.tail, apart l.tail, has-append l.tail xs (l.tail ∷ []));
  }

module _ {ys : List Ptr} {h g : Heap} (w : Spares ys h g) (l : LinkList) where
  Spares-init : l.head ∉ ys → Spares ys (init_heap l h) (init_heap l g)
  Spares-init out = record {
    live = λ a m. ground (arith, w.live a, w.next l.head);
    next = λ a m. ground (arith, w.next a, w.next l.head);
    prev = λ a m. ground (arith, w.prev a, w.next l.head);
  }

  IsList-Spares : (xs : List Ptr) → Disjoint (nodes l xs) ys → IsList h l xs → IsList g l xs
  IsList-Spares xs apart r = IsReady-Spares (Spares-init (apart l.head (ground arith))) l xs apart r

module _ {ys : List Ptr} {h g : Heap} (w : Outside ys h g) (l : LinkList) (xs : List Ptr)
    (apart : Disjoint (nodes l xs) ys) where
  -- A list survives every change outside its addresses.
  pub IsList-outside : IsList h l xs → IsList g l xs
  IsList-outside = IsList-Spares (Outside-Spares w) l xs apart

module _ {ys os : List Ptr} {h g : Heap} (w : Within ys os h g) (l : LinkList) (xs : List Ptr)
    (apart : Disjoint (nodes l xs) ys) where
  pub IsReady-frame : IsReady h l xs → IsReady g l xs
  IsReady-frame = IsReady-Spares (Within-Spares w) l xs apart

  pub IsList-frame : IsList h l xs → IsList g l xs
  IsList-frame = IsList-Spares (Within-Spares w) l xs apart

pub Within-trans :
    {ys os zs ps : List Ptr} {h g f : Heap}
    → Within ys os h g
    → Within zs ps g f
    → Within (ys ++ zs) (os ++ ps) h f
Within-trans {ys} {os} {zs} {ps} v w = record {
  live = λ a. ground (arith, v.live a, w.live a);
  next = λ a m. ground (arith, v.next a, w.next a, has-append a ys zs);
  prev = λ a m. ground (arith, v.prev a, w.prev a, has-append a ys zs);
  owner = λ a m. ground (arith, v.owner a, w.owner a, has-append a os ps);
}

pub Within-mono :
    {ys os : List Ptr} {h g : Heap} (zs ps : List Ptr)
    → Within ys os h g
    → ((a : Ptr) → a ∉ zs → a ∉ ys)
    → ((a : Ptr) → a ∉ ps → a ∉ os)
    → Within zs ps h g
Within-mono zs ps w f k = record {
  live = w.live;
  next = λ a m. w.next a (f a m);
  prev = λ a m. w.prev a (f a m);
  owner = λ a m. w.owner a (k a m);
}

module _ (l : LinkList) (xs : List Ptr) where
  pub mem-tail : l.tail ∈ nodes l xs
  mem-tail = ground (arith, has-append l.tail xs (l.tail ∷ []))

  pub mem-left : (a : Ptr) → a ∈ xs → a ∈ nodes l xs
  mem-left a m = ground (arith, has-append a xs (l.tail ∷ []))

  pub not-mem-left : (a : Ptr) → a ∉ nodes l xs → a ∉ xs
  not-mem-left a m = ground (arith, has-append a xs (l.tail ∷ []))
