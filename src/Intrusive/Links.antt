-- ===== src/Intrusive/Links.antt =====
-- src/intrusive/internal/mod.rs: links, nodes and the doubly linked list between two sentinels.
-- The memory of all links is an explicit heap. A pointer is an address, and 0 is null.
pub mod Chain
pub mod Invariant
pub mod Sentinels
pub mod Push
pub mod Unlink
pub mod Move
pub mod Lifetime
pub mod Iterate
pub mod UnitTests
use embedded_async.Base.{
  ℕ, Bool, true, false, not, ◌&&◌, Option, none, some, ◌==◌, if◌then◌else◌, update, ok, fault, Cmd,
  pure, ◌>>=◌, ◌>>◌, unless,
}

abbrev pub Ptr : Type 0
Ptr = ℕ

abbrev pub null : Ptr
null = 0

-- The three fields of every link, by address; `live` says which addresses hold a link.
pub record Heap : Type 0 where
  pub live : Ptr → Bool
  pub owner : Ptr → Ptr
  pub prev : Ptr → Ptr
  pub next : Ptr → Ptr

abbrev pub is_null : Ptr → Bool
is_null p = p == null

-- A dereference: undefined behaviour unless the pointer is to a link.
unfoldable pub deref : Ptr → Cmd Heap (Unit {0})
deref p h = if not (is_null p) && h.live p then ok tt h else fault

unfoldable pub get_owner : Ptr → Cmd Heap Ptr
unfolding deref
get_owner p = do deref p; λ h. ok (h.owner p) h

unfoldable pub get_prev : Ptr → Cmd Heap Ptr
unfolding deref
get_prev p = do deref p; λ h. ok (h.prev p) h

unfoldable pub get_next : Ptr → Cmd Heap Ptr
unfolding deref
get_next p = do deref p; λ h. ok (h.next p) h

unfoldable pub set_owner : Ptr → Ptr → Cmd Heap (Unit {0})
unfolding deref
set_owner p q = do deref p; λ h. ok tt (record h { owner = update h.owner p q })

unfoldable pub set_prev : Ptr → Ptr → Cmd Heap (Unit {0})
unfolding deref
set_prev p q = do deref p; λ h. ok tt (record h { prev = update h.prev p q })

unfoldable pub set_next : Ptr → Ptr → Cmd Heap (Unit {0})
unfolding deref
set_next p q = do deref p; λ h. ok tt (record h { next = update h.next p q })

-- `Link::new` written at the address `p`.
unfoldable pub new_link : Ptr → Cmd Heap (Unit {0})
new_link p h = ok tt (record {
  live = update h.live p true;
  owner = update h.owner p null;
  prev = update h.prev p null;
  next = update h.next p null;
})

-- `Link::owner`: `as_ref` of the pointer.
unfoldable pub owner_of : Ptr → Cmd Heap (Option Ptr)
unfolding get_owner
owner_of p = do o ← get_owner p; pure (if is_null o then none else some o)

-- `Link::unlink`
unfoldable pub unlink : Ptr → Cmd Heap (Unit {0})
unfolding get_prev get_next set_prev set_next
unlink p = do
  before ← get_prev p
  unless (is_null before) (do after ← get_next p; set_next before after)
  after ← get_next p
  unless (is_null after) (do before ← get_prev p; set_prev after before)
  set_prev p null
  set_next p null

-- `Drop for Link`: the address holds no link from then on.
unfoldable pub drop_link : Ptr → Cmd Heap (Unit {0})
unfolding unlink
drop_link p = do unlink p; λ h. ok tt (record h { live = update h.live p false })

-- `struct List`: the addresses of its two sentinels.
pub record LinkList : Type 0 where
  pub head : Ptr
  pub tail : Ptr

-- `List::new`
unfoldable pub new_list : LinkList → Cmd Heap (Unit {0})
unfolding new_link
new_list l = do new_link l.head; new_link l.tail

-- The two sentinels are dropped with the list, in the order of their declaration.
unfoldable pub drop_list : LinkList → Cmd Heap (Unit {0})
unfolding drop_link
drop_list l = do drop_link l.head; drop_link l.tail

unfoldable pub maybe_init_head_tail : LinkList → Cmd Heap (Unit {0})
unfolding get_next set_next set_prev
maybe_init_head_tail l = do
  first ← get_next l.head
  unless (not (is_null first)) (do set_next l.head l.tail; set_prev l.tail l.head)

unfoldable pub is_empty : LinkList → Cmd Heap Bool
unfolding maybe_init_head_tail
is_empty l = do maybe_init_head_tail l; first ← get_next l.head; pure (first == l.tail)

unfoldable pub push_link_front : LinkList → Ptr → Ptr → Cmd Heap (Unit {0})
unfolding maybe_init_head_tail set_owner
push_link_front l link_owner link = do
  maybe_init_head_tail l
  set_owner link link_owner
  first ← get_next l.head
  set_prev first link
  first ← get_next l.head
  set_next link first
  set_prev link l.head
  set_next l.head link

unfoldable pub push_link_back : LinkList → Ptr → Ptr → Cmd Heap (Unit {0})
unfolding maybe_init_head_tail set_owner get_prev
push_link_back l link_owner link = do
  maybe_init_head_tail l
  set_owner link link_owner
  last ← get_prev l.tail
  set_next last link
  set_next link l.tail
  last ← get_prev l.tail
  set_prev link last
  set_prev l.tail link

-- `struct Node`: its value and its link, each at an address.
pub record Node : Type 0 where
  pub data_at : Ptr
  pub link : Ptr

unfoldable pub push_node_front : LinkList → Node → Cmd Heap (Unit {0})
unfolding push_link_front
push_node_front l node = push_link_front l node.data_at node.link

unfoldable pub push_node_back : LinkList → Node → Cmd Heap (Unit {0})
unfolding push_link_back
push_node_back l node = push_link_back l node.data_at node.link

unfoldable pub pop_front : LinkList → Cmd Heap (Option Ptr)
unfolding maybe_init_head_tail is_empty unlink
pop_front l = do
  maybe_init_head_tail l
  empty ← is_empty l
  if empty
      then pure none
      else do front ← get_next l.head; deref front; unlink front; pure (some front)

-- Moves all links of `l` to the front of `dst`.
unfoldable pub move_to_front_of : LinkList → LinkList → Cmd Heap (Unit {0})
unfolding maybe_init_head_tail is_empty get_prev
move_to_front_of l dst = do
  maybe_init_head_tail l
  maybe_init_head_tail dst
  empty ← is_empty l
  unless empty (do
    dst_front ← get_next dst.head
    last ← get_prev l.tail
    set_prev dst_front last
    last ← get_prev l.tail
    set_next last dst_front
    first ← get_next l.head
    set_next dst.head first
    first ← get_next l.head
    set_prev first dst.head
    set_next l.head l.tail
    set_prev l.tail l.head)

-- `struct ListIterator`
pub record ListIterator : Type 0 where
  pub at : Ptr
  pub stop : Ptr

unfoldable pub iter : LinkList → Cmd Heap ListIterator
unfolding maybe_init_head_tail
iter l = do
  maybe_init_head_tail l
  first ← get_next l.head
  pure (record { at = first; stop = l.tail })

-- `Iterator::next`: the iterator moved on, and the owner that it passed, a reference to which is
-- undefined behaviour if it is null. What lies at the owner is not in this memory.
unfoldable pub iter_next : ListIterator → Cmd Heap (ListIterator × Option Ptr)
unfolding get_next get_owner
iter_next it = if it.at == it.stop then pure (it, none) else do
  after ← get_next it.at
  o ← get_owner it.at
  if is_null o then (λ h. fault) else pure (record it { at = after }, some o)
