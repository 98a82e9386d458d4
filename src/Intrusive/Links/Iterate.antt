-- ===== src/Intrusive/Links/Iterate.antt =====
-- src/intrusive/internal/mod.rs: an iterator passes the owners of the links, in the order of the
-- list.
use mathlib.Core.Path.{fun_ext}
use embedded_async.Base.{
  ◌≢◌, All, subst, sym, ap, ℕ, zero, suc, ◌<◌, ◌≡◌, refl, List, [], ◌∷◌, map, ◌∈◌, ◌∉◌,
  Distinct-apart, has-append, length, arith, some, none, ok, out_of_fuel, Cmd, pure, ◌>>=◌,
}
use embedded_async.Intrusive.Links.{Ptr, null, Heap, LinkList, ListIterator, iter, iter_next}
use embedded_async.Intrusive.Links.Chain.{Chain}
use embedded_async.Intrusive.Links.Invariant.{Valid, IsList, init_heap}
use embedded_async.Intrusive.Links.Sentinels.{init_heap-Within, maybe_init}

-- Between `at` and the end of the list `l` stand the links `xs`.
pub record IsAt (h : Heap) (l : LinkList) (it : ListIterator) (xs : List Ptr) : Type 0 where
  pub before : Ptr
  pub at : it.at ≡ h.next before
  pub stop : it.stop ≡ l.tail
  pub chain : Chain h.next h.prev before xs l.tail
  pub valid : (a : Ptr) → a ∈ xs → Valid h a
  pub apart : l.tail ∉ xs

module _ (h : Heap) (l : LinkList) (it : ListIterator) where
  -- `next` passes the first link left and its owner.
  pub iter_next-cons :
      (x : Ptr) (xs : List Ptr)
      → IsAt h l it (x ∷ xs)
      → h.owner x ≢ null
      → (it' : ListIterator) × (iter_next it h ≡ ok (it', some (h.owner x)) h) × IsAt h l it' xs
  unfolding iter_next
  iter_next-cons x xs is owned = (
    record it { at = h.next it.at },
    ground (arith, is.at, is.stop, is.chain, is.apart, is.valid x, owned),
    record {
      before = x;
      at = ground (arith, is.at, is.chain);
      stop = is.stop;
      chain = is.chain.2;
      valid = λ a m. is.valid a (ground arith);
      apart = ground (arith, is.apart);
    },
  )

  pub iter_next-nil : IsAt h l it [] → iter_next it h ≡ ok (it, none) h
  unfolding iter_next
  iter_next-nil is = ground (arith, is.at, is.stop, is.chain)

-- `iter` on a well-formed list starts at its first link; it changes no link, but sets up the list.
pub iter-IsAt :
    (h : Heap) (l : LinkList) (xs : List Ptr)
    → IsList h l xs
    → (it : ListIterator) × (iter l h ≡ ok it (init_heap l h)) × IsAt (init_heap l h) l it xs
unfolding iter
iter-IsAt h l xs is = (
  record { at = (init_heap l h).next l.head; stop = l.tail },
  rw (maybe_init h l xs is) (ground (arith, is.valid l.head)),
  record {
    before = l.head;
    at = refl;
    stop = refl;
    chain = is.chain;
    valid = λ a m. is.valid a (ground (arith, has-append a xs (l.tail ∷ [])));
    apart = ground (
      arith,
      has-append l.tail xs (l.tail ∷ []),
      Distinct-apart xs (l.tail ∷ []) is.distinct.1 l.tail,
    );
  },
)

-- `for x in list.iter()`, where the body keeps each owner.
unfoldable pub visit : ℕ → ListIterator → Cmd Heap (List Ptr)
visit zero it = λ h. out_of_fuel
visit (suc fuel) it = do
  (it', owner) ← iter_next it
  elim owner [ none ↦ pure [] | some p ↦ visit fuel it' >>= λ ps. pure (p ∷ ps) ]

visit-owners :
    (fuel : ℕ) (h : Heap) (l : LinkList) (it : ListIterator) (xs : List Ptr)
    → IsAt h l it xs
    → All (λ x. h.owner x ≢ null) xs
    → length xs < fuel
    → visit fuel it h ≡ ok (map h.owner xs) h
unfolding visit
visit-owners zero h l it xs is owned few = absurd (omega arith)
visit-owners (suc fuel) h l it [] is owned few = rw (iter_next-nil h l it is)
visit-owners (suc fuel) h l it (x ∷ xs) is owned few =
    let p = iter_next-cons h l it x xs is owned.0 in
    rw (p.1, visit-owners fuel h l p.0 xs p.2 owned.1 (omega arith))

-- A loop over a well-formed list whose links have owners, with one round more than it has links,
-- passes the owners of its links, each once and in order, and then ends; all that it writes is what
-- sets up the list.
pub visit-iter :
    (fuel : ℕ) (h : Heap) (l : LinkList) (xs : List Ptr)
    → IsList h l xs
    → All (λ x. h.owner x ≢ null) xs
    → length xs < fuel
    → (iter l >>= visit fuel) h ≡ ok (map h.owner xs) (init_heap l h)
visit-iter fuel h l xs is owned few =
    let g = init_heap l h in
    let same : g.owner ≡ h.owner = fun_ext (λ a. (init_heap-Within h l xs).owner a refl) in
    let kept = subst (λ f. All (λ x. f x ≢ null) xs) (sym same) owned in
    let p = iter-IsAt h l xs is in
    rw (p.1, visit-owners fuel g l p.0 xs p.2 kept few) (ap (λ f. ok (map f xs) g) same)
