-- ===== src/Intrusive/Slist/Ends.antt =====
-- src/intrusive/slist.rs: what `push`, `pop` and `take` do to a list.
use embedded_async.Base.{
  ◌≡◌, ◌≢◌, ◌∙◌, refl, List, [], ◌∷◌, ◌∉◌, update, arith, true, some, none, ok, ◌>>◌,
}
use embedded_async.Intrusive.Links.{Ptr, null}
use embedded_async.Intrusive.Slist.{Stack, push, pop, take}
use embedded_async.Intrusive.Slist.Chain.{IsStack, Linked-frame}

-- `push` of a live link that the list does not hold puts it first, with the given owner.
pub push-cons :
    (s : Stack) (xs : List Ptr) (o x : Ptr)
    → IsStack s xs
    → (x ≢ null) × (s.live x ≡ true)
    → x ∉ xs
    → (t : Stack) × (push o x s ≡ ok tt t)
      × IsStack t (x ∷ xs)
      × (t.owner ≡ update s.owner x o)
      × (t.live ≡ s.live)
unfolding push
push-cons s xs o x is live out =
    let next' = update s.next x s.head in
    let at_x : next' x ≡ s.head = ground arith in
    (
      record s { owner = update s.owner x o; next = next'; head = x },
      ground (arith, live),
      record {
        valid = λ a m. ground (arith, m, live, is.valid a);
        distinct = (out, is.distinct);
        linked = (
          refl,
          rw at_x (Linked-frame s.next next' s.head xs (λ a m. ground (arith, m, out)) is.linked),
        );
      },
      refl,
      refl,
    )

-- `pop` of a list that holds links takes the first one off, and its pointer is null then.
pub pop-cons :
    (s : Stack) (x : Ptr) (xs : List Ptr)
    → IsStack s (x ∷ xs)
    → (t : Stack) × (pop s ≡ ok (some x) t)
      × IsStack t xs
      × (t.next x ≡ null)
      × (t.owner ≡ s.owner)
      × (t.live ≡ s.live)
unfolding pop
pop-cons s x xs is =
    let next' = update s.next x null in
    (
      record s { next = next'; head = s.next x },
      ground (arith, is.linked.0, is.valid x),
      record {
        valid = λ a m. is.valid a (ground arith);
        distinct = is.distinct.1;
        linked =
            Linked-frame s.next next' (s.next x) xs (λ a m. ground (arith, m, is.distinct.0))
              is.linked.1;
      },
      ground arith,
      refl,
      refl,
    )

pub pop-nil : (s : Stack) → IsStack s [] → pop s ≡ ok none s
unfolding pop
pop-nil s is = ground (arith, is.linked)

-- A link that was pushed is the first one popped, with the list as it was but for the owner.
pub pop-push :
    (s : Stack) (xs : List Ptr) (o x : Ptr)
    → IsStack s xs
    → (x ≢ null) × (s.live x ≡ true)
    → x ∉ xs
    → (t : Stack) × ((push o x >> pop) s ≡ ok (some x) t)
      × IsStack t xs
      × (t.owner ≡ update s.owner x o)
pop-push s xs o x is live out =
    let (u, e, pushed, owner, same) = push-cons s xs o x is live out in
    let (t, d, popped, next, kept, lives) = pop-cons u x xs pushed in
    (t, rw (e, d), popped, kept ∙ owner)

-- `take` gives the whole list away and leaves this one empty.
pub take-nil :
    (s : Stack) (xs : List Ptr)
    → IsStack s xs
    → (t : Stack) × (take s ≡ ok s.head t) × IsStack t [] × IsStack (record t { head = s.head }) xs
unfolding take
take-nil s xs is = (
  record s { head = null },
  refl,
  record { valid = λ a m. absurd (ground (arith, m)); distinct = tt; linked = refl },
  record { valid = is.valid; distinct = is.distinct; linked = is.linked },
)
