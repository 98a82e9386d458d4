-- ===== src/Intrusive/Links/Chain.antt =====
-- Chains of links: between two ends the `next` pointers lead through a list of addresses, and the
-- `prev` pointers lead back. What a write to the pointers does to a chain.
use mathlib.Core.List.{append-nil}
use embedded_async.Base.{ℕ, ◌≡◌, ◌≢◌, List, [], ◌∷◌, ◌++◌, arith, ◌∈◌, Distinct}

abbrev pub Chain : (next prev : ℕ → ℕ) → ℕ → List ℕ → ℕ → Type 0
Chain n p a [] b = (n a ≡ b) × (p b ≡ a)
Chain n p a (x ∷ xs) b = (n a ≡ x) × (p x ≡ a) × Chain n p x xs b

module _ (n p : ℕ → ℕ) where
  -- The last address before the end.
  pub last-mem : (a : ℕ) (xs : List ℕ) (b : ℕ) → Chain n p a xs b → p b ∈ (a ∷ xs)
  last-mem a [] b c = ground arith
  last-mem a (x ∷ xs) b c = ground (arith, last-mem x xs b)

  -- The first address after the start.
  pub first-mem : (a : ℕ) (xs : List ℕ) (b : ℕ) → Chain n p a xs b → n a ∈ (xs ++ b ∷ [])
  first-mem a [] b c = ground arith
  first-mem a (x ∷ xs) b c = ground arith

  pub Chain-append :
      (a : ℕ) (xs : List ℕ) (x : ℕ) (ys : List ℕ) (b : ℕ)
      → Chain n p a xs x
      → Chain n p x ys b
      → Chain n p a (xs ++ x ∷ ys) b
  Chain-append a [] x ys b c d = (c.0, c.1, d)
  Chain-append a (y ∷ xs) x ys b c d = (c.0, c.1, Chain-append y xs x ys b c.2 d)

  pub Chain-left :
      (a : ℕ) (xs : List ℕ) (x : ℕ) (ys : List ℕ) (b : ℕ)
      → Chain n p a (xs ++ x ∷ ys) b
      → Chain n p a xs x
  Chain-left a [] x ys b c = (c.0, c.1)
  Chain-left a (y ∷ xs) x ys b c = (c.0, c.1, Chain-left y xs x ys b c.2)

  pub Chain-right :
      (a : ℕ) (xs : List ℕ) (x : ℕ) (ys : List ℕ) (b : ℕ)
      → Chain n p a (xs ++ x ∷ ys) b
      → Chain n p x ys b
  Chain-right a [] x ys b c = c.2
  Chain-right a (y ∷ xs) x ys b c = Chain-right y xs x ys b c.2

module _ (n p n' p' : ℕ → ℕ) where
  -- A chain survives a write that spares its own pointers.
  pub Chain-frame :
      (a : ℕ) (xs : List ℕ) (b : ℕ)
      → Chain n p a xs b
      → ((c : ℕ) → c ∈ (a ∷ xs) → n' c ≡ n c)
      → ((c : ℕ) → c ∈ (xs ++ b ∷ []) → p' c ≡ p c)
      → Chain n' p' a xs b
  Chain-frame a [] b c keep_n keep_p = ground (arith, keep_n a, keep_p b)
  Chain-frame a (x ∷ xs) b c keep_n keep_p = (
    ground (arith, keep_n a),
    ground (arith, keep_p x),
    Chain-frame x xs b c.2 (λ d m. keep_n d (ground arith)) (λ d m. keep_p d (ground arith)),
  )

  -- The last link of a chain is turned to another end.
  pub Chain-end :
      (a : ℕ) (xs : List ℕ) (b e : ℕ)
      → Chain n p a xs b
      → Distinct (a ∷ xs)
      → ((c : ℕ) → c ∈ (a ∷ xs) → c ≢ p b → n' c ≡ n c)
      → n' (p b) ≡ e
      → ((c : ℕ) → c ∈ xs → p' c ≡ p c)
      → p' e ≡ p b
      → Chain n' p' a xs e
  Chain-end a [] b e c out keep_n turn keep_p back = ground arith
  Chain-end a (x ∷ xs) b e c out keep_n turn keep_p back = (
    ground (arith, keep_n a, last-mem n p x xs b c.2),
    ground (arith, keep_p x),
    Chain-end x xs b e c.2 out.1 (λ d m ne. keep_n d (ground arith) ne) turn
        (λ d m. keep_p d (ground arith)) back,
  )

  -- The first link of a chain is turned to another start.
  pub Chain-start :
      (a : ℕ) (xs : List ℕ) (b s : ℕ)
      → Chain n p a xs b
      → n' s ≡ n a
      → p' (n a) ≡ s
      → ((c : ℕ) → c ∈ xs → n' c ≡ n c)
      → ((c : ℕ) → c ∈ (xs ++ b ∷ []) → c ≢ n a → p' c ≡ p c)
      → Distinct (xs ++ b ∷ [])
      → Chain n' p' s xs b
  Chain-start a [] b s c turn back keep_n keep_p out = ground arith
  Chain-start a (x ∷ xs) b s c turn back keep_n keep_p out = (
    ground arith,
    ground arith,
    Chain-frame x xs b c.2 keep_n (λ d m. keep_p d (ground arith) (ground arith)),
  )

  -- Two chains are joined: the last link of one is turned to the first link behind the other's
  -- start.
  pub Chain-join :
      (a : ℕ) (xs : List ℕ) (u v : ℕ) (ys : List ℕ) (b : ℕ)
      → Chain n p a xs u
      → Chain n p v ys b
      → Distinct (a ∷ xs)
      → n' (p u) ≡ n v
      → p' (n v) ≡ p u
      → ((c : ℕ) → c ∈ (a ∷ xs) → c ≢ p u → n' c ≡ n c)
      → ((c : ℕ) → c ∈ ys → n' c ≡ n c)
      → ((c : ℕ) → c ∈ xs → p' c ≡ p c)
      → ((c : ℕ) → c ∈ (ys ++ b ∷ []) → c ≢ n v → p' c ≡ p c)
      → Distinct (ys ++ b ∷ [])
      → Chain n' p' a (xs ++ ys) b
  Chain-join a xs u v [] b c d da turn back keep_n rest_n keep_p rest_p db =
      rw append-nil (Chain-end a xs u b c da keep_n (ground arith) keep_p (ground arith))
  Chain-join a xs u v (y ∷ ys) b c d da turn back keep_n rest_n keep_p rest_p db =
      Chain-append n' p' a xs y ys b
        (Chain-end a xs u y c da keep_n (ground arith) keep_p (ground arith))
        (Chain-frame y ys b d.2 rest_n (λ e m. rest_p e (ground arith) (ground arith)))
