-- ===== src/Channel/Queue.antt =====
-- `heapless::spsc::Queue`, which src/channel/mod.rs uses and which is not part of the crate: its
-- operations, and the documented behaviour that the channel relies on, by the list of its items.
use embedded_async.Base.{
  ℕ, ◌<◌, ◌≤◌, ◌≡◌, refl, Bool, Option, none, some, List, [], ◌∷◌, ◌++◌, length, arith,
  if◌then◌else◌, ltb,
}
use embedded_async.Intrusive.Links.Sentinels.{is_nil}

pub record SpscQueue (T : Type 0) : Type 1 where
  pub Q : Type 0
  pub new_queue : Q
  -- `Err` gives the value back.
  pub enqueue : T → Q → Q × Option T
  pub dequeue : Q → Q × Option T
  pub is_empty : Q → Bool
  pub len : Q → ℕ
  pub capacity : ℕ
  pub items : Q → List T
  pub items_new : items new_queue ≡ []
  pub enqueue_room :
      (v : T) (q : Q)
      → length (items q) < capacity
      → ((enqueue v q).1 ≡ none) × (items (enqueue v q).0 ≡ items q ++ v ∷ [])
  pub enqueue_full : (v : T) (q : Q) → capacity ≤ length (items q) → enqueue v q ≡ (q, some v)
  pub dequeue_nil : (q : Q) → items q ≡ [] → dequeue q ≡ (q, none)
  pub dequeue_cons :
      (q : Q) (v : T) (vs : List T)
      → items q ≡ v ∷ vs
      → ((dequeue q).1 ≡ some v) × (items (dequeue q).0 ≡ vs)
  pub is_empty_items : (q : Q) → is_empty q ≡ is_nil (items q)
  pub len_items : (q : Q) → len q ≡ length (items q)

module _ {T : Type 0} where
  abbrev list_dequeue : List T → List T × Option T
  list_dequeue [] = ([], none)
  list_dequeue (v ∷ vs) = (vs, some v)

  abbrev list_enqueue : ℕ → T → List T → List T × Option T
  list_enqueue n v q = if ltb (length q) n then (q ++ v ∷ [], none) else (q, some v)

  pub list_enqueue_room :
      (n : ℕ) (v : T) (q : List T)
      → length q < n
      → ((list_enqueue n v q).1 ≡ none) × ((list_enqueue n v q).0 ≡ q ++ v ∷ [])
  list_enqueue_room n v q h = ground arith

  pub list_enqueue_full :
      (n : ℕ) (v : T) (q : List T) → n ≤ length q → list_enqueue n v q ≡ (q, some v)
  list_enqueue_full n v q h = ground arith

  pub list_dequeue_nil : (q : List T) → q ≡ [] → list_dequeue q ≡ (q, none)
  list_dequeue_nil q e = rw e

  pub list_dequeue_cons :
      (q : List T) (v : T) (vs : List T)
      → q ≡ v ∷ vs
      → ((list_dequeue q).1 ≡ some v) × ((list_dequeue q).0 ≡ vs)
  list_dequeue_cons q v vs e = rw e (refl, refl)

  -- A queue that is its list of items: the documented behaviour can be met at any capacity.
  abbrev pub list_queue : ℕ → SpscQueue T
  list_queue n = record {
    Q = List T;
    new_queue = [];
    enqueue = list_enqueue n;
    dequeue = list_dequeue;
    is_empty = is_nil;
    len = length;
    capacity = n;
    items = λ q. q;
    items_new = refl;
    enqueue_room = list_enqueue_room n;
    enqueue_full = list_enqueue_full n;
    dequeue_nil = list_dequeue_nil;
    dequeue_cons = list_dequeue_cons;
    is_empty_items = λ q. refl;
    len_items = λ q. refl;
  }
