-- ===== src/Base/Lists.antt =====
-- Lists of numbers: membership as a test, distinct entries, maps that are written at one place.
use Prim.Native.Nat.{ℕ, suc, ◌+◌}
use mathlib.Core.Path.{◌≡◌, refl}
use mathlib.Core.Bool.{Bool, true, false, ◌||◌}
use mathlib.Core.List.{List, [], ◌∷◌, ◌++◌}
use native.Mathlib.Omega.{arith}
use embedded_async.Base.Tests.{◌==◌, if◌then◌else◌}

abbrev pub has : ℕ → List ℕ → Bool
has a [] = false
has a (x ∷ xs) = (a == x) || has a xs

infix 40 ◌∈◌ ◌∉◌
abbrev pub ◌∈◌ : ℕ → List ℕ → Type 0
a ∈ xs = has a xs ≡ true

abbrev pub ◌∉◌ : ℕ → List ℕ → Type 0
a ∉ xs = has a xs ≡ false

abbrev pub Distinct : List ℕ → Type 0
Distinct [] = Unit {0}
Distinct (x ∷ xs) = (x ∉ xs) × Distinct xs

abbrev pub Disjoint : List ℕ → List ℕ → Type 0
Disjoint xs ys = (a : ℕ) → a ∈ xs → a ∉ ys

pub Disjoint-symm : (xs ys : List ℕ) → Disjoint xs ys → Disjoint ys xs
Disjoint-symm xs ys apart a m = ground (arith, apart a)

abbrev pub All {ℓ κ} : {A : Type ℓ} → (A → Type κ) → List A → Type κ
All P [] = Unit
All P (x ∷ xs) = P x × All P xs

abbrev pub update {ℓ} : {A : Type ℓ} → (ℕ → A) → ℕ → A → ℕ → A
update f p v a = if a == p then v else f a

pub has-append : (a : ℕ) (xs ys : List ℕ) → has a (xs ++ ys) ≡ (has a xs || has a ys)
has-append a [] ys = refl
has-append a (x ∷ xs) ys = ground (arith, has-append a xs ys)

module _ {ℓ} {A : Type ℓ} where
  abbrev pub length : List A → ℕ
  length [] = 0
  length (_ ∷ xs) = suc (length xs)

  pub length-append : (xs ys : List A) → length (xs ++ ys) ≡ length xs + length ys
  length-append [] ys = omega arith
  length-append (x ∷ xs) ys = omega (arith, length-append xs ys)

pub All-mem {κ} : (P : ℕ → Type κ) (xs : List ℕ) (a : ℕ) → All P xs → a ∈ xs → P a
All-mem P [] a all m = absurd (cc)
All-mem P (x ∷ xs) a all m = ground (arith, All-mem P xs a all.1)

pub All-map {κ μ} :
    (P : ℕ → Type κ) (Q : ℕ → Type μ) (xs : List ℕ)
    → ((a : ℕ) → a ∈ xs → P a → Q a)
    → All P xs
    → All Q xs
All-map P Q [] f all = tt
All-map P Q (x ∷ xs) f all =
    (f x (ground arith) all.0, All-map P Q xs (λ a m. f a (ground arith)) all.1)

pub All-append {ℓ κ} :
    {A : Type ℓ} (P : A → Type κ) (xs ys : List A) → All P xs → All P ys → All P (xs ++ ys)
All-append P [] ys hx hy = hy
All-append P (x ∷ xs) ys hx hy = (hx.0, All-append P xs ys hx.1 hy)

pub Distinct-append :
    (xs ys : List ℕ) → Distinct xs → Distinct ys → Disjoint xs ys → Distinct (xs ++ ys)
Distinct-append [] ys dx dy apart = dy
Distinct-append (x ∷ xs) ys dx dy apart = (
  ground (arith, has-append x xs ys, apart x),
  Distinct-append xs ys dx.1 dy (λ a m. apart a (ground arith)),
)

pub Distinct-left : (xs ys : List ℕ) → Distinct (xs ++ ys) → Distinct xs
Distinct-left [] ys d = tt
Distinct-left (x ∷ xs) ys d = (ground (arith, has-append x xs ys), Distinct-left xs ys d.1)

pub Distinct-right : (xs ys : List ℕ) → Distinct (xs ++ ys) → Distinct ys
Distinct-right [] ys d = d
Distinct-right (x ∷ xs) ys d = Distinct-right xs ys d.1

pub Distinct-apart : (xs ys : List ℕ) → Distinct (xs ++ ys) → Disjoint xs ys
Distinct-apart [] ys d a m = absurd (cc)
Distinct-apart (x ∷ xs) ys d a m = ground (arith, has-append x xs ys, Distinct-apart xs ys d.1 a)

-- Distinct addresses stay distinct when one more is put among them, or one is taken out.
pub Distinct-insert :
    (xs ys : List ℕ) (x : ℕ) → Distinct (xs ++ ys) → x ∉ (xs ++ ys) → Distinct (xs ++ x ∷ ys)
Distinct-insert [] ys x d out = (out, d)
Distinct-insert (y ∷ xs) ys x d out = (
  ground (arith, has-append y xs (x ∷ ys), has-append y xs ys),
  Distinct-insert xs ys x d.1 (ground arith),
)

pub Distinct-remove :
    (xs ys : List ℕ) (x : ℕ) → Distinct (xs ++ x ∷ ys) → Distinct (xs ++ ys) × (x ∉ (xs ++ ys))
Distinct-remove [] ys x d = (d.1, d.0)
Distinct-remove (y ∷ xs) ys x d =
    let (rest, out) = Distinct-remove xs ys x d.1 in
    (
      (ground (arith, has-append y xs (x ∷ ys), has-append y xs ys), rest),
      ground (arith, has-append y xs (x ∷ ys)),
    )

pub All-middle {ℓ κ} :
    {A : Type ℓ} (P : A → Type κ) (xs : List A) (y : A) (ys : List A) → All P (xs ++ y ∷ ys) → P y
All-middle P [] y ys all = all.0
All-middle P (x ∷ xs) y ys all = All-middle P xs y ys all.1

pub All-remove {ℓ κ} :
    {A : Type ℓ} (P : A → Type κ) (xs : List A) (y : A) (ys : List A)
    → All P (xs ++ y ∷ ys)
    → All P (xs ++ ys)
All-remove P [] y ys all = all.1
All-remove P (x ∷ xs) y ys all = (all.0, All-remove P xs y ys all.1)

-- How often an entry stands in a list.
abbrev pub count : ℕ → List ℕ → ℕ
count a [] = 0
count a (x ∷ xs) = let rest = count a xs in if a == x then suc rest else rest

pub count-append : (a : ℕ) (xs ys : List ℕ) → count a (xs ++ ys) ≡ count a xs + count a ys
count-append a [] ys = omega arith
count-append a (x ∷ xs) ys = ground (arith, count-append a xs ys)

pub count-last : (a : ℕ) (xs : List ℕ) → count a (xs ++ a ∷ []) ≡ suc (count a xs)
count-last a [] = ground arith
count-last a (x ∷ xs) = ground (arith, count-last a xs)
