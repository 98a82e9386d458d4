-- ===== src/Timer/Cancel.antt =====
-- src/timer/mod.rs: what the drop of a delay does to the lists of the timer.
use embedded_async.Base.{
  ◌≡◌, sym, subst, [], ◌∷◌, ◌++◌, ◌∈◌, ◌∉◌, has, ◌==◌, false, Disjoint, Distinct, Distinct-append,
  Distinct-left, Distinct-right, Distinct-apart, Bool-cases, inl, inr, update, arith, none, ok,
}
use embedded_async.Intrusive.Links.{Ptr, null, Heap, LinkList, drop_link}
use embedded_async.Intrusive.Links.Invariant.{nodes, Valid, IsList, IsList-outside, mem-left}
use embedded_async.World.Without.{
  without, without_self, mem-nodes-without, All-without, drop_link-without,
}
use embedded_async.Timer.{TimerBackend}
use embedded_async.Timer.Sleepers.{
  Sleepers, links_of, owners, Sleeping, HasTime, owners-same, Sleeping-frame, Sleeping-owners,
}
use embedded_async.Timer.Loop.{Memory}
use embedded_async.Timer.Elapse.{IsTimer}

module _ (owner : Ptr → Ptr) (x : Ptr) where
  mem-owners-without :
      (a : Ptr) (ts : Sleepers)
      → a ∈ owners owner (links_of (without x ts))
      → a ∈ owners owner (links_of ts)
  mem-owners-without a [] m = m
  mem-owners-without a ((y, k) ∷ ts) m = ground (arith, m, mem-owners-without a ts)

  Distinct-owners-without :
      (ts : Sleepers)
      → Distinct (owners owner (links_of ts))
      → Distinct (owners owner (links_of (without x ts)))
  Distinct-owners-without [] d = tt
  Distinct-owners-without ((y, k) ∷ ts) d = elim (Bool-cases (x == y)) [
    | inl e ↦ rw e (Distinct-owners-without ts d.1)
    | inr ne ↦
        rw ne (ground (arith, d.0, mem-owners-without (owner y) ts), Distinct-owners-without ts d.1)
  ]

  Distinct-without :
      (ts ns : Sleepers)
      → Distinct (owners owner (links_of ts) ++ owners owner (links_of ns))
      → Distinct (owners owner (links_of (without x ts)) ++ owners owner (links_of (without x ns)))
  Distinct-without ts ns d =
      let os = owners owner (links_of ts) in
      let ps = owners owner (links_of ns) in
      Distinct-append (owners owner (links_of (without x ts)))
        (owners owner (links_of (without x ns)))
        (Distinct-owners-without ts (Distinct-left os ps d))
        (Distinct-owners-without ns (Distinct-right os ps d))
        (λ a m.
          ground
            (arith, mem-owners-without a ts m, Distinct-apart os ps d a, mem-owners-without a ns))

-- The two lists of a timer once the link `x` was dropped.
pub record Gone (h : Heap) (l m : LinkList) (ts ns : Sleepers) (x : Ptr) (g : Heap) : Type 0 where
  pub run : drop_link x h ≡ ok tt g
  pub list : IsList g l (links_of (without x ts))
  pub new_list : IsList g m (links_of (without x ns))
  pub dead : (a : Ptr) → h.live a ≡ false → g.live a ≡ false
  pub owner : (a : Ptr) → g.owner a ≡ h.owner a

module _ (h : Heap) (l m : LinkList) (ts ns : Sleepers) (x : Ptr) (is : IsList h l (links_of ts))
    (js : IsList h m (links_of ns))
    (apart : Disjoint (nodes l (links_of ts)) (nodes m (links_of ns))) (v : Valid h x) where
  -- The link of a delay that the list `l` holds, or none.
  leave_first :
      x ∉ nodes m (links_of ns)
      → (x ∉ links_of ts → (x ∉ nodes l (links_of ts)) × (h.next x ≡ null) × (h.prev x ≡ null))
      → (g : Heap) × Gone h l m ts ns x g
  leave_first off alone =
      let (g, d) = drop_link-without h l ts x is v alone in
      let out : x ∉ links_of ns = ground (arith, off, mem-left m (links_of ns) x) in
      (
        g,
        record {
          run = d.run;
          list = d.list;
          new_list =
              subst (λ us. IsList g m (links_of us)) (sym (without_self x ns out))
                (IsList-outside d.outside m (links_of ns) (λ a i. ground (arith, apart a, off, i))
                  js);
          dead = λ a n. ground (arith, n, d.live a, v);
          owner = d.owner;
        },
      )

  -- The link of a delay that the list `m` holds.
  leave_second : x ∈ links_of ns → (g : Heap) × Gone h l m ts ns x g
  leave_second i =
      let off : x ∉ nodes l (links_of ts) = ground (arith, apart x, mem-left m (links_of ns) x i) in
      let out : x ∉ links_of ts = ground (arith, off, mem-left l (links_of ts) x) in
      let (g, d) = drop_link-without h m ns x js v (λ o. absurd (ground (arith, o, i))) in
      (
        g,
        record {
          run = d.run;
          list =
              subst (λ us. IsList g l (links_of us)) (sym (without_self x ts out))
                (IsList-outside d.outside l (links_of ts) (λ a j. ground (arith, apart a, off, j))
                  is);
          new_list = d.list;
          dead = λ a n. ground (arith, n, d.live a, v);
          owner = d.owner;
        },
      )

  -- The drop of the link of a delay takes it out of the list that holds it, if one does; it must
  -- be a live link with null pointers where none does.
  pub drop_link-Gone :
      (x ∉ links_of ts
        → x ∉ links_of ns
        → (x ∉ nodes l (links_of ts))
          × (x ∉ nodes m (links_of ns))
          × (h.next x ≡ null)
          × (h.prev x ≡ null))
      → (g : Heap) × Gone h l m ts ns x g
  drop_link-Gone alone = elim (Bool-cases (has x (links_of ns))) [
    | inl i ↦ leave_second i
    | inr out ↦ elim (Bool-cases (has x (links_of ts))) [
      | inl i ↦
          leave_first (apart x (mem-left l (links_of ts) x i)) (λ o. absurd (ground (arith, o, i)))
      | inr out_first ↦
          let (off, off_new, n, p) = alone out_first out in leave_first off_new (λ o. (off, n, p))
    ]
  ]

-- A timer whose delay goes stays well formed, with the others in order.
pub Gone-IsTimer :
    (ops : TimerBackend) (w : Memory ops) (ts ns : Sleepers) (x p : Ptr) (g : Heap)
    → IsTimer ops w ts ns
    → Gone w.links w.self.sleeping_timers w.self.new_timers ts ns x g
    → p ∉ owners w.links.owner (links_of (without x ts))
    → p ∉ owners w.links.owner (links_of (without x ns))
    → IsTimer ops
        (record w { links = g; waiter = update w.waiter p none })
        (without x ts)
        (without x ns)
Gone-IsTimer ops w ts ns x p g is gone free free_new =
    let waiter' = update w.waiter p none in
    record {
      list = gone.list;
      new_list = gone.new_list;
      apart = λ a i. ground (
        arith,
        is.apart a,
        mem-nodes-without w.self.sleeping_timers x a ts i,
        mem-nodes-without w.self.new_timers x a ns,
      );
      waits =
          Sleeping-owners w.links.owner g.owner waiter' (without x ts) (λ y i. gone.owner y)
            (Sleeping-frame w.links.owner w.waiter waiter' (without x ts)
              (λ q i. ground (arith, i, free))
              (All-without (Sleeping w.links.owner w.waiter) x ts is.waits));
      new_waits =
          Sleeping-owners w.links.owner g.owner waiter' (without x ns) (λ y i. gone.owner y)
            (Sleeping-frame w.links.owner w.waiter waiter' (without x ns)
              (λ q i. ground (arith, i, free_new))
              (All-without (Sleeping w.links.owner w.waiter) x ns is.new_waits));
      own =
          rw
            (
              owners-same w.links.owner g.owner (links_of (without x ts)) (λ y i. gone.owner y),
              owners-same w.links.owner g.owner (links_of (without x ns)) (λ y i. gone.owner y),
            )
            (Distinct-without w.links.owner x ts ns is.own);
      time = All-without HasTime x ts is.time;
      new_time = All-without HasTime x ns is.new_time;
    }
