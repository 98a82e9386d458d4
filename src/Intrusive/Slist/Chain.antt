-- ===== src/Intrusive/Slist/Chain.antt =====
-- src/intrusive/slist.rs: when the memory holds a list.
use embedded_async.Base.{
  ◌≡◌, ◌≢◌, ◌==◌, refl, List, [], ◌∷◌, ◌++◌, ◌∈◌, ◌∉◌, Distinct, update, arith, true, has-append,
  if◌then◌else◌,
}
use embedded_async.Intrusive.Links.{Ptr, null}
use embedded_async.Intrusive.Slist.{Stack}

-- From `p` the pointers lead through the links `xs` to null.
abbrev pub Linked : (Ptr → Ptr) → Ptr → List Ptr → Type 0
Linked next p [] = p ≡ null
Linked next p (x ∷ xs) = (p ≡ x) × Linked next (next x) xs

-- The list holds the links `xs`, each of them once.
pub record IsStack (s : Stack) (xs : List Ptr) : Type 0 where
  pub valid : (a : Ptr) → a ∈ xs → (a ≢ null) × (s.live a ≡ true)
  pub distinct : Distinct xs
  pub linked : Linked s.next s.head xs

pub Linked-frame :
    (next next' : Ptr → Ptr) (p : Ptr) (xs : List Ptr)
    → ((a : Ptr) → a ∈ xs → next' a ≡ next a)
    → Linked next p xs
    → Linked next' p xs
Linked-frame next next' p [] same l = l
Linked-frame next next' p (x ∷ xs) same (e, l) = (
  e,
  rw (same x (ground arith)) (Linked-frame next next' (next x) xs (λ a m. same a (ground arith)) l),
)

-- The pointers once the link `x`, which `b` points at, is taken out.
abbrev pub bypassed : (Ptr → Ptr) → Ptr → Ptr → Ptr → Ptr
bypassed next b x = update (update next b (next x)) x null

pub Linked-bypassed :
    (next : Ptr → Ptr) (p : Ptr) (us : List Ptr) (b x : Ptr) (vs : List Ptr)
    → Distinct (us ++ b ∷ x ∷ vs)
    → Linked next p (us ++ b ∷ x ∷ vs)
    → Linked (bypassed next b x) p (us ++ b ∷ vs)
Linked-bypassed next p [] b x vs distinct (e, (f, l)) =
    let at_b : bypassed next b x b ≡ next x = ground (arith, distinct) in
    (
      e,
      rw at_b
          (Linked-frame next (bypassed next b x) (next x) vs (λ a m. ground (arith, distinct)) l),
    )
Linked-bypassed next p (c ∷ us) b x vs distinct (e, l) =
    let at_c : bypassed next b x c ≡ next c =
      ground (arith, distinct.0, has-append c us (b ∷ x ∷ vs)) in
    (e, rw at_c (Linked-bypassed next (next c) us b x vs distinct.1 l))

-- The list of links without the link `x`.
abbrev pub erase : Ptr → List Ptr → List Ptr
erase x [] = []
erase x (y ∷ ys) = let rest = erase x ys in if x == y then ys else y ∷ rest

pub erase_out : (x : Ptr) (xs : List Ptr) → x ∉ xs → erase x xs ≡ xs
erase_out x [] out = refl
erase_out x (y ∷ ys) out = ground (arith, out, erase_out x ys)

pub erase-append : (x : Ptr) (us vs : List Ptr) → x ∉ us → erase x (us ++ x ∷ vs) ≡ us ++ vs
erase-append x [] vs out = ground arith
erase-append x (y ∷ us) vs out = ground (arith, out, erase-append x us vs)
