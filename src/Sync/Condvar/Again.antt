-- ===== src/Sync/Condvar/Again.antt =====
-- src/sync/condvar.rs: a waiting future that is polled again while its link is in the wait list.
use embedded_async.Base.{
  ℕ, zero, suc, ◌≡◌, ◌==◌, refl, sym, ap, subst, ◌++◌, inl, inr, Option-cases, ◌≢◌, ◌∙◌, [], ◌∷◌,
  arith, false, some, ok, out_of_fuel, update,
}
use embedded_async.Intrusive.Links.{Ptr, null, Heap, LinkList, pop_front, push_link_back}
use embedded_async.Intrusive.Links.Invariant.{Valid, IsList, init_heap}
use embedded_async.Intrusive.Links.Sentinels.{maybe_init}
use embedded_async.World.{World, Waker, pending, pop_each}
use embedded_async.Sync.Condvar.{
  Waiter, Condvar, WaitFuture, notify, notify_owner, try_notify_all, poll_wait,
}
use embedded_async.Sync.Condvar.Notify.{asleep, awake, IsCondvar}

-- The list starts with the link `x`, which is not in it.
record IsStuck (h : Heap) (l : LinkList) (x : Ptr) : Type 0 where
  head : Valid h l.head
  link : Valid h x
  first : h.next l.head ≡ x
  not_head : (x == l.head) ≡ false
  not_tail : (x == l.tail) ≡ false
  next : h.next x ≡ null
  prev : h.prev x ≡ null

pop-IsStuck :
    (h : Heap) (l : LinkList) (x : Ptr)
    → IsStuck h l x
    → (g : Heap) × (pop_front l h ≡ ok (some x) g) × IsStuck g l x × (g.owner ≡ h.owner)
unfolding pop_front
pop-IsStuck h l x s =
    let g : Heap = record h { prev = update h.prev x null; next = update h.next x null } in
    (
      g,
      ground (arith, s.head, s.link, s.first, s.not_head, s.not_tail, s.next, s.prev),
      record {
        head = ground (arith, s.head);
        link = ground (arith, s.link);
        first = ground (arith, s.first, s.not_head);
        not_head = s.not_head;
        not_tail = s.not_tail;
        next = ground arith;
        prev = ground arith;
      },
      refl,
    )

-- What the second push of the only link leaves: the link stands before itself.
record IsLooped (h : Heap) (l : LinkList) (x : Ptr) : Type 0 where
  head : Valid h l.head
  tail : Valid h l.tail
  link : Valid h x
  first : h.next l.head ≡ x
  not_head : (x == l.head) ≡ false
  not_tail : (x == l.tail) ≡ false
  next : h.next x ≡ l.tail
  prev : h.prev x ≡ x

push-IsLooped :
    (h : Heap) (l : LinkList) (o x : Ptr)
    → IsList h l (x ∷ [])
    → (g : Heap) × (push_link_back l o x h ≡ ok tt g) × IsLooped g l x × (g.owner x ≡ o)
unfolding push_link_back
push-IsLooped h l o x is =
    let r = init_heap l h in
    let g : Heap = record r {
      owner = update r.owner x o;
      next = update (update r.next x x) x l.tail;
      prev = update (update r.prev x x) l.tail x;
    } in
    (
      g,
      rw (maybe_init h l (x ∷ []) is)
          (ground (arith, is.valid l.head, is.valid l.tail, is.valid x, is.chain, is.distinct)),
      record {
        head = ground (arith, is.valid l.head);
        tail = ground (arith, is.valid l.tail);
        link = ground (arith, is.valid x);
        first = ground (arith, is.chain, is.distinct);
        not_head = ground (arith, is.distinct);
        not_tail = ground (arith, is.distinct);
        next = ground arith;
        prev = ground (arith, is.distinct);
      },
      ground arith,
    )

pop-IsLooped :
    (h : Heap) (l : LinkList) (x : Ptr)
    → IsLooped h l x
    → (g : Heap) × (pop_front l h ≡ ok (some x) g) × IsStuck g l x × (g.owner ≡ h.owner)
unfolding pop_front
pop-IsLooped h l x s =
    let g : Heap = record h {
      prev = update (update h.prev l.tail x) x null;
      next = update (update h.next x l.tail) x null;
    } in
    (
      g,
      ground (arith, s.head, s.tail, s.link, s.first, s.not_head, s.not_tail, s.next, s.prev),
      record {
        head = ground (arith, s.head);
        link = ground (arith, s.link);
        first = ground (arith, s.first, s.not_head);
        not_head = s.not_head;
        not_tail = s.not_tail;
        next = ground arith;
        prev = ground arith;
      },
      refl,
    )

-- The waiter that owns the link `x`.
abbrev Owned : World Waiter Condvar → Ptr → Ptr → Type 0
Owned w x o = (w.links.owner x ≡ o) × (o ≢ null) × (v : Waiter) × (w.waiter o ≡ some v)

notified-Owned :
    (w : World Waiter Condvar) (x o : Ptr)
    → Valid w.links x
    → Owned w x o
    → (u : World Waiter Condvar) × (notify_owner x w ≡ ok tt u) × Owned u x o × (u.links ≡ w.links)
unfolding notify_owner notify
notified-Owned w x o live (e, ne, v, has) = elim (Option-cases v.waker) [
  | inl none_left ↦ (
    record w { waiter = update w.waiter o (some awake) },
    ground (arith, live, e, ne, has, none_left),
    (e, ne, awake, ground arith),
    refl,
  )
  | inr (k, some_left) ↦ (
    record w { waiter = update w.waiter o (some awake); woken = w.woken ++ k ∷ [] },
    ground (arith, live, e, ne, has, some_left),
    (e, ne, awake, ground arith),
    refl,
  )
]

stuck-runs :
    (fuel : ℕ) (w : World Waiter Condvar) (l : LinkList) (x o : Ptr)
    → IsStuck w.links l x
    → Owned w x o
    → pop_each fuel l notify_owner w ≡ out_of_fuel
unfolding pop_each
stuck-runs zero w l x o s own = refl
stuck-runs (suc fuel) w l x o s own =
    let p = pop-IsStuck w.links l x s in
    let w1 : World Waiter Condvar = record w { links = p.0 } in
    let n = notified-Owned w1 x o p.2.link (ap (λ f. f x) p.3 ∙ own.0, own.1, own.2, own.3) in
    rw (p.1, n.1) (stuck-runs fuel n.0 l x o (subst (λ h. IsStuck h l x) (sym n.3) p.2) n.2)

looped-runs :
    (fuel : ℕ) (w : World Waiter Condvar) (l : LinkList) (x o : Ptr)
    → IsLooped w.links l x
    → Owned w x o
    → pop_each fuel l notify_owner w ≡ out_of_fuel
unfolding pop_each
looped-runs zero w l x o s own = refl
looped-runs (suc fuel) w l x o s own =
    let p = pop-IsLooped w.links l x s in
    let w1 : World Waiter Condvar = record w { links = p.0 } in
    let n = notified-Owned w1 x o p.2.link (ap (λ f. f x) p.3 ∙ own.0, own.1, own.2, own.3) in
    rw (p.1, n.1) (stuck-runs fuel n.0 l x o (subst (λ h. IsStuck h l x) (sym n.3) p.2) n.2)

-- If the only future that waits is polled again before it is notified, while there is a notifier, it
-- is pending, and from then on `try_notify_all` does not end, however many rounds it may take.
pub poll_wait-again :
    (fuel : ℕ) (w : World Waiter Condvar) (me : WaitFuture) (k j : Waker)
    → IsCondvar w ((me.node.link, k) ∷ [])
    → me.node.data_at ≡ w.links.owner me.node.link
    → w.self.rc_notifier.ref_count ≢ 0
    → (u : World Waiter Condvar) × (poll_wait me j w ≡ ok pending u)
      × (try_notify_all fuel u ≡ out_of_fuel)
unfolding poll_wait try_notify_all
poll_wait-again fuel w me k j is own some_notifier =
    let o = me.node.data_at in
    let x = me.node.link in
    let p = push-IsLooped w.links w.self.waiters o x is.list in
    let u : World Waiter Condvar = record w {
      links = p.0;
      waiter = update w.waiter o (some (asleep j));
    } in
    (
      u,
      ground (arith, own, is.waits.0, p.1, some_notifier),
      looped-runs fuel u w.self.waiters x o p.2
          (p.3, ground (arith, own, is.waits.0), asleep j, ground arith),
    )
