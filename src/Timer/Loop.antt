-- ===== src/Timer/Loop.antt =====
-- src/timer/mod.rs: the state in the middle of the loops of `update_sleeping_timers` and
-- `append_new_timers`, which take the links from a list of their own and put some of them in the
-- list of the sleeping timers.
use mathlib.Core.List.{append_assoc}
use embedded_async.Base.{
  ℕ, ◌≡◌, refl, sym, subst, ◌∙◌, ◌==◌, List, [], ◌∷◌, ◌++◌, All, All-append, ◌∈◌, ◌∉◌, has-append,
  Distinct, Distinct-remove, Disjoint, arith, false, some, ok, Option,
}
use embedded_async.Intrusive.Links.{Ptr, null, Heap, LinkList, pop_front, push_link_back}
use embedded_async.Intrusive.Links.Invariant.{nodes, Valid, IsList, Within, IsList-frame}
use embedded_async.Intrusive.Links.Push.{push_link_back-append}
use embedded_async.Intrusive.Links.Unlink.{pop_front-cons, not-mem-rest}
use embedded_async.World.{World, Waker}
use embedded_async.Timer.{WaitingTimer, Timer, TimerBackend}
use embedded_async.Timer.Sleepers.{
  Sleepers, links_of, owners, Sleeping, links_of-append, owners-append, Sleeping-frame,
}

-- A link moved from one list to the back of another leaves them apart.
apart-moved :
    (l m : LinkList) (x : Ptr) (xs zs : List Ptr)
    → Disjoint (nodes l (x ∷ xs)) (nodes m zs)
    → x ∉ nodes l xs
    → Disjoint (nodes l xs) (nodes m (zs ++ x ∷ []))
apart-moved l m x xs zs apart out a i =
    let off : a ∉ nodes m zs = apart a (ground arith) in
    let ne : (a == x) ≡ false = ground (arith, i, out) in
    ground (
      arith,
      off,
      ne,
      has-append a (zs ++ x ∷ []) (m.tail ∷ []),
      has-append a zs (x ∷ []),
      has-append a zs (m.tail ∷ []),
    )

-- A list that is apart from both stays so.
apart-third :
    (l m : LinkList) (x : Ptr) (xs zs ys : List Ptr)
    → Disjoint ys (nodes l (x ∷ xs))
    → Disjoint ys (nodes m zs)
    → Disjoint ys (nodes m (zs ++ x ∷ []))
apart-third l m x xs zs ys from_l from_m a i =
    let off : a ∉ nodes m zs = from_m a i in
    let ne : (a == x) ≡ false = ground (arith, from_l a i) in
    ground (
      arith,
      off,
      ne,
      has-append a (zs ++ x ∷ []) (m.tail ∷ []),
      has-append a zs (x ∷ []),
      has-append a zs (m.tail ∷ []),
    )

module _ (ops : TimerBackend) where
  abbrev pub Memory : Type 0
  Memory = World WaitingTimer (Timer ops)

  -- The call's own list `local` holds the timers `todo`, the list of the sleeping timers those of
  -- `done`, and a third list `spare` the timers `ns`. The owners of the links are `owner`.
  pub record Loop (owner : Ptr → Ptr) (local spare : LinkList) (ns : Sleepers) (w : Memory)
      (done todo : Sleepers) : Type 0 where
    pub source : IsList w.links local (links_of todo)
    pub target : IsList w.links w.self.sleeping_timers (links_of done)
    pub third : IsList w.links spare (links_of ns)
    pub apart :
        Disjoint (nodes local (links_of todo)) (nodes w.self.sleeping_timers (links_of done))
    pub third_source : Disjoint (nodes spare (links_of ns)) (nodes local (links_of todo))
    pub third_target :
        Disjoint (nodes spare (links_of ns)) (nodes w.self.sleeping_timers (links_of done))
    pub same : (a : Ptr) → w.links.owner a ≡ owner a
    pub wait_todo : All (Sleeping owner w.waiter) todo
    pub wait_done : All (Sleeping owner w.waiter) done
    pub wait_third : All (Sleeping owner w.waiter) ns
    pub own : Distinct (
        owners owner (links_of done)
        ++ (owners owner (links_of todo) ++ owners owner (links_of ns)))

  module _ (owner : Ptr → Ptr) (local spare : LinkList) (ns : Sleepers) (w : Memory)
      (done : Sleepers) (x : Ptr) (k : Waker) (t : ℕ) (ts : Sleepers)
      (is : Loop owner local spare ns w done ((x, (k, t)) ∷ ts)) where
    abbrev os : List Ptr
    os = owners owner (links_of done)

    abbrev rest : List Ptr
    rest = owners owner (links_of ts) ++ owners owner (links_of ns)

    removed : Distinct (os ++ rest) × (owner x ∉ (os ++ rest))
    removed = Distinct-remove os rest (owner x) is.own

    pub popped :
        (g : Heap) × (pop_front local w.links ≡ ok (some x) g)
        × IsList g local (links_of ts)
        × (g.next x ≡ null)
        × (g.prev x ≡ null)
        × Within (nodes local (x ∷ links_of ts)) [] w.links g
    popped = pop_front-cons w.links local x (links_of ts) is.source

    pub live : Valid popped.0 x
    live = ground (arith, is.source.valid x, popped.5.live x)

    pub keeps : (a : Ptr) → popped.0.owner a ≡ owner a
    keeps a = popped.5.owner a refl ∙ is.same a

    target_kept : IsList popped.0 w.self.sleeping_timers (links_of done)
    target_kept =
        IsList-frame popped.5 w.self.sleeping_timers (links_of done)
          (λ a m. ground (arith, is.apart a)) is.target

    third_kept : IsList popped.0 spare (links_of ns)
    third_kept = IsList-frame popped.5 spare (links_of ns) is.third_source is.third

    -- A round that writes only the waiter of `x`.
    module _ (waiter' : Ptr → Option WaitingTimer) (woken : List Waker)
        (written : (p : Ptr) → (p == owner x) ≡ false → waiter' p ≡ w.waiter p) where
      kept :
          (us : Sleepers)
          → ((p : Ptr) → p ∈ owners owner (links_of us) → p ∈ (os ++ rest))
          → All (Sleeping owner w.waiter) us
          → All (Sleeping owner waiter') us
      kept us sub =
          Sleeping-frame owner w.waiter waiter' us
            (λ p m. ground (arith, written p, removed.1, sub p m))

      in_done : (p : Ptr) → p ∈ os → p ∈ (os ++ rest)
      in_done p m = ground (arith, has-append p os rest)

      in_todo : (p : Ptr) → p ∈ owners owner (links_of ts) → p ∈ (os ++ rest)
      in_todo p m = ground (
        arith,
        has-append p os rest,
        has-append p (owners owner (links_of ts)) (owners owner (links_of ns)),
      )

      in_third : (p : Ptr) → p ∈ owners owner (links_of ns) → p ∈ (os ++ rest)
      in_third p m = ground (
        arith,
        has-append p os rest,
        has-append p (owners owner (links_of ts)) (owners owner (links_of ns)),
      )

      -- The link is in no list then.
      pub leaves-Loop :
          Loop owner local spare ns
            (record w { links = popped.0; waiter = waiter'; woken = woken })
            done
            ts
      leaves-Loop = record {
        source = popped.2;
        target = target_kept;
        third = third_kept;
        apart = λ a m. ground (arith, is.apart a);
        third_source = λ a m. ground (arith, is.third_source a);
        third_target = is.third_target;
        same = keeps;
        wait_todo = kept ts in_todo is.wait_todo.1;
        wait_done = kept done in_done is.wait_done;
        wait_third = kept ns in_third is.wait_third;
        own = removed.0;
      }

      -- The link is put last in the list of the sleeping timers, with `left` as its time.
      pub moves-Loop :
          (left : ℕ)
          → waiter' (owner x) ≡ some (record { time_until_timeout = left; waker = some k })
          → (g : Heap) × (push_link_back w.self.sleeping_timers (owner x) x popped.0 ≡ ok tt g)
            × Loop owner local spare ns
                (record w { links = g; waiter = waiter'; woken = woken })
                (done ++ (x, (k, left)) ∷ [])
                ts
      moves-Loop left e =
          let sl = w.self.sleeping_timers in
          let xs = links_of ts in
          let p =
            push_link_back-append popped.0 sl (links_of done) (owner x) x target_kept live
              (is.apart x (ground arith)) in
          let out = not-mem-rest w.links local [] x xs is.source in
          let joined : links_of (done ++ (x, (k, left)) ∷ []) ≡ links_of done ++ x ∷ [] =
            links_of-append done ((x, (k, left)) ∷ []) in
          (
            p.0,
            p.1,
            record {
              source = IsList-frame p.4 local xs (λ a m. ground (arith, is.apart a, out)) popped.2;
              target = rw joined p.2;
              third =
                  IsList-frame p.4 spare (links_of ns)
                    (λ a m. ground (arith, is.third_source a, is.third_target a)) third_kept;
              apart =
                  subst (λ zs. Disjoint (nodes local xs) (nodes sl zs)) (sym joined)
                    (apart-moved local sl x xs (links_of done) is.apart out);
              third_source = λ a m. ground (arith, is.third_source a);
              third_target =
                  subst (λ zs. Disjoint (nodes spare (links_of ns)) (nodes sl zs)) (sym joined)
                    (apart-third local sl x xs (links_of done) (nodes spare (links_of ns))
                      is.third_source is.third_target);
              same = λ a. ground (arith, p.3, p.4.owner a, keeps a);
              wait_todo = kept ts in_todo is.wait_todo.1;
              wait_done =
                  All-append (Sleeping owner waiter') done ((x, (k, left)) ∷ [])
                    (kept done in_done is.wait_done) ((is.wait_todo.0.0, e), tt);
              wait_third = kept ns in_third is.wait_third;
              own =
                  rw
                    (
                      joined,
                      owners-append owner (links_of done) (x ∷ []),
                      append_assoc os (owner x ∷ []) rest,
                    )
                    is.own;
            },
          )
