-- ===== src/World/Without.antt =====
-- A wait list less one of its links: what the drop of a future leaves.
use embedded_async.Base.{
  List, ◌≡◌, refl, ap, sym, subst, ◌∙◌, [], ◌∷◌, ◌++◌, ◌∈◌, ◌∉◌, arith, ◌==◌, false, if◌then◌else◌,
  Bool-cases, inl, inr, has, has-append, All, ok, length, ◌≤◌,
}
use embedded_async.Intrusive.Links.{Ptr, null, Heap, LinkList, drop_link}
use embedded_async.Intrusive.Links.Invariant.{
  nodes, Valid, IsList, IsList-outside, Outside, Outside-mono,
}
use embedded_async.Intrusive.Links.Unlink.{not-mem-rest}
use embedded_async.Intrusive.Links.Lifetime.{drop_link-free, drop_link-remove}
use embedded_async.World.Waits.{links_of, links_of-append}

module _ {A : Type 0} where
  -- The links that wait, less one.
  abbrev pub without : Ptr → List (Ptr × A) → List (Ptr × A)
  without x [] = []
  without x ((y, k) ∷ ts) = let rest = without x ts in if x == y then rest else (y, k) ∷ rest

  pub without_self : (x : Ptr) (ts : List (Ptr × A)) → x ∉ links_of ts → without x ts ≡ ts
  without_self x [] out = refl
  without_self x ((y, k) ∷ ts) out = ground (arith, out, without_self x ts)

  -- A future that waits stands somewhere in the queue; it is taken out of there.
  pub without-split :
      (x : Ptr) (ts : List (Ptr × A))
      → x ∈ links_of ts
      → (us : List (Ptr × A)) × (k : A) × (vs : List (Ptr × A)) × (ts ≡ us ++ (x, k) ∷ vs)
  without-split x [] m = absurd (ground arith)
  without-split x ((y, k) ∷ ts) m = elim (Bool-cases (x == y)) [
    | inl e ↦ ([], k, ts, ap (λ z. (z, k) ∷ ts) (ground (arith, e)))
    | inr ne ↦
        let p = without-split x ts (ground (arith, m, ne)) in
        ((y, k) ∷ p.0, p.1, p.2, ap (◌∷◌ (y, k)) p.3)
  ]

  pub without-append :
      (x : Ptr) (k : A) (us vs : List (Ptr × A))
      → x ∉ links_of us
      → x ∉ links_of vs
      → without x (us ++ (x, k) ∷ vs) ≡ us ++ vs
  without-append x k [] vs out_us out_vs = ground (arith, without_self x vs out_vs)
  without-append x k ((y, j) ∷ us) vs out_us out_vs =
      ground (arith, out_us, without-append x k us vs)

  pub without-out : (x : Ptr) (ts : List (Ptr × A)) → x ∉ links_of (without x ts)
  without-out x [] = refl
  without-out x ((y, k) ∷ ts) = ground (arith, without-out x ts)

  pub mem-without :
      (x a : Ptr) (ts : List (Ptr × A)) → a ∈ links_of (without x ts) → a ∈ links_of ts
  mem-without x a [] m = m
  mem-without x a ((y, k) ∷ ts) m = ground (arith, m, mem-without x a ts)

  pub mem-nodes-without :
      (l : LinkList) (x a : Ptr) (ts : List (Ptr × A))
      → a ∈ nodes l (links_of (without x ts))
      → a ∈ nodes l (links_of ts)
  mem-nodes-without l x a ts m = ground (
    arith,
    m,
    has-append a (links_of (without x ts)) (l.tail ∷ []),
    has-append a (links_of ts) (l.tail ∷ []),
    mem-without x a ts,
  )

  pub not-mem-without :
      (x a : Ptr) (ts : List (Ptr × A))
      → a ∉ links_of (without x ts)
      → (a == x) ≡ false
      → a ∉ links_of ts
  not-mem-without x a [] out ne = refl
  not-mem-without x a ((y, k) ∷ ts) out ne = ground (arith, out, ne, not-mem-without x a ts)

  pub length-without : (x : Ptr) (ts : List (Ptr × A)) → length (without x ts) ≤ length ts
  length-without x [] = omega arith
  length-without x ((y, k) ∷ ts) = ground (arith, length-without x ts)

  pub All-without {κ} :
      (P : Ptr × A → Type κ) (x : Ptr) (ts : List (Ptr × A)) → All P ts → All P (without x ts)
  All-without P x [] all = tt
  All-without P x ((y, k) ∷ ts) all = elim (Bool-cases (x == y)) [
    | inl e ↦ rw e (All-without P x ts all.1)
    | inr ne ↦ rw ne (all.0, All-without P x ts all.1)
  ]

-- What the drop of the link `x` makes of the heap `h`, whether the list holds it or not.
pub record Dropped {A : Type 0} (h : Heap) (l : LinkList) (ts : List (Ptr × A)) (x : Ptr) (g : Heap)
    : Type 0 where
  pub run : drop_link x h ≡ ok tt g
  pub list : IsList g l (links_of (without x ts))
  pub freed : g.live x ≡ false
  pub outside : Outside (x ∷ nodes l (links_of ts)) h g
  pub live : (a : Ptr) → (a == x) ≡ false → g.live a ≡ h.live a
  pub owner : (a : Ptr) → g.owner a ≡ h.owner a

module _ {A : Type 0} (h : Heap) (l : LinkList) (ts : List (Ptr × A)) (x : Ptr)
    (is : IsList h l (links_of ts)) where
  drop_waiting : x ∈ links_of ts → (g : Heap) × Dropped h l ts x g
  drop_waiting m =
      let (us, k, vs, e) = without-split x ts m in
      let split : links_of ts ≡ links_of us ++ x ∷ links_of vs =
        ap links_of e ∙ links_of-append us ((x, k) ∷ vs) in
      let is' = subst (IsList h l) split is in
      let d = drop_link-remove h l (links_of us) x (links_of vs) is' in
      let off = not-mem-rest h l (links_of us) x (links_of vs) is' in
      let off_us : x ∉ links_of us = ground (
        arith,
        off,
        has-append x (links_of us ++ links_of vs) (l.tail ∷ []),
        has-append x (links_of us) (links_of vs),
      ) in
      let off_vs : x ∉ links_of vs = ground (
        arith,
        off,
        has-append x (links_of us ++ links_of vs) (l.tail ∷ []),
        has-append x (links_of us) (links_of vs),
      ) in
      let rest : links_of (without x ts) ≡ links_of us ++ links_of vs =
        ap links_of (ap (without x) e ∙ without-append x k us vs off_us off_vs)
        ∙ links_of-append us vs in
      (
        d.0,
        record {
          run = d.1;
          list = subst (IsList d.0 l) (sym rest) d.2;
          freed = d.3;
          outside =
              Outside-mono (x ∷ nodes l (links_of ts)) d.4
                (λ a i. subst (λ ys. a ∉ nodes l ys) split (ground (arith, i)));
          live = d.5;
          owner = d.6;
        },
      )

  pub drop_link-without :
      Valid h x
      → (x ∉ links_of ts → (x ∉ nodes l (links_of ts)) × (h.next x ≡ null) × (h.prev x ≡ null))
      → (g : Heap) × Dropped h l ts x g
  drop_link-without v alone = elim (Bool-cases (has x (links_of ts))) [
    | inl m ↦ drop_waiting m
    | inr out ↦
        let (off, n, p) = alone out in
        let d = drop_link-free h x v n p in
        (
          d.0,
          record {
            run = d.1;
            list =
                subst (λ us. IsList d.0 l (links_of us)) (sym (without_self x ts out))
                  (IsList-outside d.3 l (links_of ts) (λ a m. ground (arith, off, m)) is);
            freed = d.2;
            outside = Outside-mono (x ∷ nodes l (links_of ts)) d.3 (λ a i. ground (arith, i));
            live = λ a ne. d.3.live a (ground arith);
            owner = d.4;
          },
        )
  ]
