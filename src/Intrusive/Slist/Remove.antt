-- ===== src/Intrusive/Slist/Remove.antt =====
-- src/intrusive/slist.rs: `remove` takes a link out of a list wherever it stands.
use embedded_async.Base.{
  ℕ, zero, suc, ◌<◌, ◌≡◌, ◌≢◌, ◌==◌, ◌∙◌, refl, sym, ap, subst, Bool, true, false, List, [], ◌∷◌,
  ◌++◌, ◌∈◌, ◌∉◌, length, length-append, Distinct-remove, has, has-append, update, arith, ok,
  Bool-cases, inl, inr,
}
use embedded_async.Intrusive.Links.{Ptr, null, is_null}
use embedded_async.Intrusive.Slist.{Stack, head_ref, get_next, bypass, search_from, remove}
use embedded_async.Intrusive.Slist.Chain.{
  Linked, IsStack, Linked-frame, bypassed, Linked-bypassed, erase, erase_out, erase-append,
}

-- Where a link stands first in a list.
mem-split :
    (x : Ptr) (xs : List Ptr)
    → x ∈ xs
    → (us : List Ptr) × (vs : List Ptr) × (xs ≡ us ++ x ∷ vs) × (x ∉ us)
mem-split x [] m = absurd (ground (arith, m))
mem-split x (y ∷ ys) m = elim (Bool-cases (x == y)) [
  | inl e ↦ ([], ys, ap (λ z. z ∷ ys) (ground (arith, e)), refl)
  | inr ne ↦
      let p = mem-split x ys (ground (arith, m, ne)) in
      (y ∷ p.0, p.1, ap (◌∷◌ y) p.2, ground (arith, ne, p.3))
]

-- The links `at ∷ us`: all but the last, and the last.
abbrev front : Ptr → List Ptr → List Ptr
front at [] = []
front at (u ∷ us) = at ∷ front u us

abbrev last : Ptr → List Ptr → Ptr
last at [] = at
last at (u ∷ us) = last u us

front-last : (at : Ptr) (us ws : List Ptr) → at ∷ us ++ ws ≡ front at us ++ last at us ∷ ws
front-last at [] ws = refl
front-last at (u ∷ us) ws = ap (◌∷◌ at) (front-last u us ws)

module _ (s : Stack) (x : Ptr) (ne : x ≢ null) where
  abbrev Live : List Ptr → Type 0
  Live xs = (a : Ptr) → a ∈ xs → (a ≢ null) × (s.live a ≡ true)

  -- The loop finds the link behind the last of those before it.
  search_found :
      (fuel : ℕ) (at : Ptr) (us vs : List Ptr)
      → Live (at ∷ us ++ x ∷ vs)
      → x ∉ us
      → Linked s.next (s.next at) (us ++ x ∷ vs)
      → length us < fuel
      → search_from fuel at x s ≡ bypass (last at us) x s
  unfolding search_from get_next
  search_found zero at us vs live out linked few = absurd (omega arith)
  search_found (suc fuel) at [] vs live out linked few = ground (arith, live at, linked, ne)
  search_found (suc fuel) at (u ∷ us) vs live out linked few =
      let rest =
        search_found fuel u us vs (λ a m. live a (ground arith)) (ground arith) linked.1
          (omega arith) in
      ground (arith, live at, live u, linked, ne, out, rest)

  -- The loop ends at the end of the list where the link is not in it.
  search_missing :
      (fuel : ℕ) (at : Ptr) (us : List Ptr)
      → Live (at ∷ us)
      → x ∉ us
      → Linked s.next (s.next at) us
      → length us < fuel
      → search_from fuel at x s ≡ ok false s
  unfolding search_from get_next
  search_missing zero at us live out linked few = absurd (omega arith)
  search_missing (suc fuel) at [] live out linked few = ground (arith, live at, linked)
  search_missing (suc fuel) at (u ∷ us) live out linked few =
      let rest =
        search_missing fuel u us (λ a m. live a (ground arith)) (ground arith) linked.1
          (omega arith) in
      ground (arith, live at, live u, linked, out, rest)

  -- Behind the first link `remove` is the loop from there.
  remove-search_from :
      (fuel : ℕ)
      → (s.head == x) ≡ false
      → (s.head ≢ null) × (s.live s.head ≡ true)
      → remove fuel x s ≡ search_from (suc fuel) s.head x s
  unfolding remove search_from get_next
  remove-search_from fuel other live = elim (Bool-cases (s.next s.head == x)) [
    | inl found ↦ ground (arith, other, live, ne, found)
    | inr on ↦ elim (Bool-cases (is_null (s.next s.head))) [
      | inl end ↦ ground (arith, other, live, on, end)
      | inr more ↦ ground (arith, other, live, on, more)
    ]
  ]

  -- What `bypass` does behind a live link.
  bypass-bypassed :
      (b : Ptr)
      → (b ≢ null) × (s.live b ≡ true)
      → s.live x ≡ true
      → bypass b x s ≡ ok true (record s { next = bypassed s.next b x })
  unfolding bypass
  bypass-bypassed b live_b live = ground (arith, live_b, live, ne)

  module _ (xs : List Ptr) (is : IsStack s xs) (live : s.live x ≡ true) where
    -- What `remove` promises.
    abbrev Removes : ℕ → Bool → List Ptr → Type 0
    Removes fuel found ys =
        (t : Stack) × (remove fuel x s ≡ ok found t)
        × IsStack t ys
        × (t.owner ≡ s.owner)
        × (t.live ≡ s.live)

    remove_first : (fuel : ℕ) (vs : List Ptr) → xs ≡ x ∷ vs → Removes fuel true vs
    unfolding remove get_next
    remove_first fuel vs e =
        let held : IsStack s (x ∷ vs) = subst (IsStack s) e is in
        let next' = update s.next x null in
        (
          record s { head = s.next x; next = next' },
          ground (arith, held.linked.0, live, ne),
          record {
            valid = λ a m. held.valid a (ground arith);
            distinct = held.distinct.1;
            linked =
                Linked-frame s.next next' (s.next x) vs (λ a m. ground (arith, m, held.distinct.0))
                  held.linked.1;
          },
          refl,
          refl,
        )

    remove_later :
        (fuel : ℕ) (y : Ptr) (us vs : List Ptr)
        → xs ≡ y ∷ us ++ x ∷ vs
        → x ∉ (y ∷ us)
        → length us < suc fuel
        → Removes fuel true (y ∷ us ++ vs)
    remove_later fuel y us vs e out few =
        let held : IsStack s (y ∷ us ++ x ∷ vs) = subst (IsStack s) e is in
        let b = last y us in
        let split = front-last y us (x ∷ vs) in
        let kept = front-last y us vs in
        let at : IsStack s (front y us ++ b ∷ x ∷ vs) = subst (IsStack s) split held in
        let head_live : (s.head ≢ null) × (s.live s.head ≡ true) =
          ground (arith, held.linked.0, held.valid y) in
        let b_live = at.valid b (ground (arith, has-append b (front y us) (b ∷ x ∷ vs))) in
        (
          record s { next = bypassed s.next b x },
          remove-search_from fuel (ground (arith, held.linked.0, out)) head_live
              ∙ ap (λ p. search_from (suc fuel) p x s) held.linked.0
              ∙ search_found (suc fuel) y us vs held.valid (ground (arith, out)) held.linked.1 few
              ∙ bypass-bypassed b b_live live,
          record {
            valid = λ a m.
                held.valid a (ground (arith, m, has-append a us vs, has-append a us (x ∷ vs)));
            distinct = (Distinct-remove (y ∷ us) vs x held.distinct).0;
            linked =
                subst (Linked (bypassed s.next b x) s.head) (sym kept)
                  (Linked-bypassed s.next s.head (front y us) b x vs at.distinct at.linked);
          },
          refl,
          refl,
        )

    remove_missing :
        (fuel : ℕ) (ys : List Ptr)
        → xs ≡ ys
        → x ∉ ys
        → length ys < suc fuel
        → remove fuel x s ≡ ok false s
    unfolding remove head_ref
    remove_missing fuel [] e out few =
        let held : IsStack s [] = subst (IsStack s) e is in ground (arith, held.linked, ne)
    remove_missing fuel (y ∷ us) e out few =
        let held : IsStack s (y ∷ us) = subst (IsStack s) e is in
        remove-search_from fuel (ground (arith, held.linked.0, out))
          (ground (arith, held.linked.0, held.valid y))
        ∙ ap (λ p. search_from (suc fuel) p x s) held.linked.0
        ∙ search_missing (suc fuel) y us held.valid (ground (arith, out)) held.linked.1
            (omega arith)

    remove_at :
        (fuel : ℕ) (us vs : List Ptr)
        → xs ≡ us ++ x ∷ vs
        → x ∉ us
        → length us < suc (suc fuel)
        → Removes fuel true (us ++ vs)
    remove_at fuel [] vs e out few = remove_first fuel vs e
    remove_at fuel (y ∷ us) vs e out few = remove_later fuel y us vs e out (omega arith)

    -- `remove` of a live link from a well-formed list of at most `fuel` links says whether the list
    -- held the link and ends without undefined behaviour: the list keeps its other links in order,
    -- as the removal of an address from a list of addresses does, and no owner changes.
    pub remove-erase :
        (fuel : ℕ)
        → length xs < suc fuel
        → (t : Stack) × (remove fuel x s ≡ ok (has x xs) t)
          × IsStack t (erase x xs)
          × (t.owner ≡ s.owner)
          × (t.live ≡ s.live)
    remove-erase fuel few = elim (Bool-cases (has x xs)) [
      | inl m ↦
          let (us, vs, e, out) = mem-split x xs m in
          let q = ap length e ∙ length-append {0} us (x ∷ vs) in
          let (t, d, is_t, owner, lives) = remove_at fuel us vs e out (omega (arith, q)) in
          (
            t,
            d ∙ ap (λ b. ok b t) (sym m),
            subst (IsStack t) (sym (ap (erase x) e ∙ erase-append x us vs out)) is_t,
            owner,
            lives,
          )
      | inr out ↦ (
        s,
        remove_missing fuel xs refl out few ∙ ap (λ b. ok b s) (sym out),
        subst (IsStack s) (sym (erase_out x xs out)) is,
        refl,
        refl,
      )
    ]
