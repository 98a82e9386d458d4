-- ===== src/Timer/Elapse.antt =====
-- src/timer/mod.rs: what `update_sleeping_timers` and `append_new_timers` do to a well-formed timer.
use mathlib.Core.List.{append-nil}
use embedded_async.Base.{
  ℕ, ◌<◌, ◌≡◌, sym, subst, ◌∙◌, [], ◌∷◌, ◌++◌, All, All-append, ◌∈◌, ◌∉◌, Distinct, Disjoint,
  Disjoint-symm, length, arith, ok, none, false, Option,
}
use embedded_async.Intrusive.Links.{Ptr, Heap, LinkList, drop_list}
use embedded_async.Intrusive.Links.Invariant.{nodes, IsList, IsReady, mem-left, IsList-outside}
use embedded_async.Intrusive.Links.Lifetime.{Fresh, drop_list-nil}
use embedded_async.Timer.{TimerBackend, WaitingTimer, update_sleeping_timers, append_new_timers}
use embedded_async.Timer.Sleepers.{
  Sleepers, links_of, owners, Sleeping, HasTime, remaining, expired, least_of, Sleeping-owners,
  owners-same, remaining-HasTime, Settled, Settled-owners, Keeps, Keeps-append, mem-remaining,
}
use embedded_async.Timer.Local.{move-Moved}
use embedded_async.Timer.Loop.{Memory, Loop}
use embedded_async.Timer.Update.{fold_each-updates}
use embedded_async.Timer.Append.{fold_each-appends}

-- The list of sleeping timers holds those of `ts` in order, the list of new timers those of `ns`,
-- each with a waiter of its own that has time left.
pub record IsTimer (ops : TimerBackend) (w : Memory ops) (ts ns : Sleepers) : Type 0 where
  pub list : IsList w.links w.self.sleeping_timers (links_of ts)
  pub new_list : IsList w.links w.self.new_timers (links_of ns)
  pub apart :
      Disjoint (nodes w.self.sleeping_timers (links_of ts)) (nodes w.self.new_timers (links_of ns))
  pub waits : All (Sleeping w.links.owner w.waiter) ts
  pub new_waits : All (Sleeping w.links.owner w.waiter) ns
  pub own : Distinct (owners w.links.owner (links_of ts) ++ owners w.links.owner (links_of ns))
  pub time : All HasTime ts
  pub new_time : All HasTime ns

-- What the end of a call leaves: both lists, and its own memory free again.
record Ended (g : Heap) (local l m : LinkList) (waiter : Ptr → Option WaitingTimer)
    (ts ns : Sleepers) : Type 0 where
  list : IsList g l (links_of ts)
  other : IsList g m (links_of ns)
  waits : All (Sleeping g.owner waiter) ts
  other_waits : All (Sleeping g.owner waiter) ns
  own : Distinct (owners g.owner (links_of ts) ++ owners g.owner (links_of ns))
  freed : (g.live local.head ≡ false) × (g.live local.tail ≡ false)

module _ (ops : TimerBackend) where
  drop-Ended :
      (owner : Ptr → Ptr) (local m : LinkList) (ns : Sleepers) (u : Memory ops) (ts : Sleepers)
      → Loop ops owner local m ns u ts []
      → IsReady u.links local []
      → (g : Heap) × (drop_list local u.links ≡ ok tt g)
        × Ended g local u.self.sleeping_timers m u.waiter ts ns
        × Keeps owner g.owner ts
        × Keeps owner g.owner ns
  drop-Ended owner local m ns u ts is r =
      let d = drop_list-nil u.links local r in
      let l = u.self.sleeping_timers in
      let off : Disjoint (nodes l (links_of ts)) (local.head ∷ local.tail ∷ []) =
        λ a i. ground (arith, is.apart a) in
      let off_m : Disjoint (nodes m (links_of ns)) (local.head ∷ local.tail ∷ []) =
        λ a i. ground (arith, is.third_source a) in
      let same : (x : Ptr) → x ∈ links_of ts → d.0.owner x ≡ owner x =
        λ x i. d.4.owner x (off x (mem-left l (links_of ts) x i)) ∙ is.same x in
      let same_m : (x : Ptr) → x ∈ links_of ns → d.0.owner x ≡ owner x =
        λ x i. d.4.owner x (off_m x (mem-left m (links_of ns) x i)) ∙ is.same x in
      (
        d.0,
        d.1,
        record {
          list = IsList-outside d.4 l (links_of ts) off is.target;
          other = IsList-outside d.4 m (links_of ns) off_m is.third;
          waits = Sleeping-owners owner d.0.owner u.waiter ts same is.wait_done;
          other_waits = Sleeping-owners owner d.0.owner u.waiter ns same_m is.wait_third;
          own =
              rw
                (
                  owners-same owner d.0.owner (links_of ts) same,
                  owners-same owner d.0.owner (links_of ns) same_m,
                )
                is.own;
          freed = (d.2, d.3);
        },
        same,
        same_m,
      )

  module _ (fuel : ℕ) (local : LinkList) (w : Memory ops) (ts ns : Sleepers)
      (fresh : Fresh w.links local) (is : IsTimer ops w ts ns) where
    abbrev sl : LinkList
    sl = w.self.sleeping_timers

    abbrev nl : LinkList
    nl = w.self.new_timers

    -- `update_sleeping_timers`, given fresh memory for its own list and one round more than there
    -- are timers, takes the time elapsed from every sleeping timer: those that have none left are
    -- taken off the list and their tasks woken, once each and in order, the others sleep on in
    -- order with what is left, the new timers stay, and the result is the least time left, if a
    -- timer is left. The waiter of each holds the time that is left, and no waker if there is none;
    -- no other waiter changes, and the links keep their owners.
    pub update_sleeping_timers-remaining :
        (elapsed : ℕ)
        → length ts < fuel
        → (u : Memory ops) × (update_sleeping_timers ops fuel local elapsed w
            ≡ ok (least_of none (remaining elapsed ts)) u)
          × IsTimer ops u (remaining elapsed ts) ns
          × (u.self ≡ w.self)
          × (u.woken ≡ w.woken ++ expired elapsed ts)
          × Fresh u.links local
          × All (Settled w.links.owner u.waiter elapsed) ts
          × Keeps w.links.owner u.links.owner (remaining elapsed ts)
          × Keeps w.links.owner u.links.owner ns
          × ((p : Ptr) → p ∉ owners w.links.owner (links_of ts) → u.waiter p ≡ w.waiter p)
    unfolding update_sleeping_timers
    update_sleeping_timers-remaining elapsed few =
        let mv =
          move-Moved w.links local sl nl (links_of ts) (links_of ns) fresh is.list is.new_list
            is.apart in
        let owner = mv.0.owner in
        let rest = remaining elapsed ts in
        let start : Loop ops owner local nl ns (record w { links = mv.1 }) [] ts = record {
          source = mv.4.held;
          target = mv.4.empty;
          third = mv.4.other;
          apart = mv.4.local_l;
          third_source = mv.4.m_local;
          third_target = mv.4.m_l;
          same = mv.4.owner;
          wait_todo = Sleeping-owners w.links.owner owner w.waiter ts mv.4.owner_l is.waits;
          wait_done = tt;
          wait_third = Sleeping-owners w.links.owner owner w.waiter ns mv.4.owner_m is.new_waits;
          own =
              rw
                (
                  owners-same w.links.owner owner (links_of ts) mv.4.owner_l,
                  owners-same w.links.owner owner (links_of ns) mv.4.owner_m,
                )
                is.own;
        } in
        let p =
          fold_each-updates ops fuel elapsed none owner local nl ns (record w { links = mv.1 }) []
            ts start few in
        let d = drop-Ended owner local nl ns p.0 rest p.2 p.5 in
        (
          record p.0 { links = d.0 },
          rw (mv.2, mv.3, p.1, d.1),
          record {
            list = d.2.list;
            new_list = subst (λ c. IsList d.0 c.new_timers (links_of ns)) (sym p.3) d.2.other;
            apart =
                subst
                  (λ c.
                    Disjoint (nodes p.0.self.sleeping_timers (links_of rest))
                      (nodes c.new_timers (links_of ns)))
                  (sym p.3)
                  (Disjoint-symm (nodes nl (links_of ns))
                    (nodes p.0.self.sleeping_timers (links_of rest)) p.2.third_target);
            waits = d.2.waits;
            new_waits = d.2.other_waits;
            own = d.2.own;
            time = remaining-HasTime elapsed ts;
            new_time = is.new_time;
          },
          p.3,
          p.4,
          record {
            head = (fresh.head.0, d.2.freed.0);
            tail = (fresh.tail.0, d.2.freed.1);
            apart = fresh.apart;
          },
          Settled-owners owner w.links.owner p.0.waiter elapsed ts mv.4.owner_l p.6,
          λ x i. d.3 x i ∙ mv.4.owner_l x (mem-remaining elapsed x ts i),
          λ x i. d.4 x i ∙ mv.4.owner_m x i,
          λ q off. p.7 q (rw (owners-same w.links.owner owner (links_of ts) mv.4.owner_l) off),
        )

    -- `append_new_timers`, given fresh memory for its own list and one round more than there are new
    -- timers, puts the new timers behind those that sleep, in order, and leaves no new one; it wakes
    -- nobody, and the result is the least time of a new timer, if there is one.
    pub append_new_timers-append :
        length ns < fuel
        → (u : Memory ops) × (append_new_timers ops fuel local w ≡ ok (least_of none ns) u)
          × IsTimer ops u (ts ++ ns) []
          × (u.self ≡ w.self)
          × (u.woken ≡ w.woken)
          × Fresh u.links local
          × (u.waiter ≡ w.waiter)
          × Keeps w.links.owner u.links.owner (ts ++ ns)
    unfolding append_new_timers
    append_new_timers-append few =
        let mv =
          move-Moved w.links local nl sl (links_of ns) (links_of ts) fresh is.new_list is.list
            (Disjoint-symm (nodes sl (links_of ts)) (nodes nl (links_of ns)) is.apart) in
        let owner = mv.0.owner in
        let os = owners owner (links_of ts) in
        let start : Loop ops owner local nl [] (record w { links = mv.1 }) ts ns = record {
          source = mv.4.held;
          target = mv.4.other;
          third = mv.4.empty;
          apart = Disjoint-symm (nodes sl (links_of ts)) (nodes local (links_of ns)) mv.4.m_local;
          third_source = Disjoint-symm (nodes local (links_of ns)) (nodes nl []) mv.4.local_l;
          third_target = Disjoint-symm (nodes sl (links_of ts)) (nodes nl []) mv.4.m_l;
          same = mv.4.owner;
          wait_todo = Sleeping-owners w.links.owner owner w.waiter ns mv.4.owner_l is.new_waits;
          wait_done = Sleeping-owners w.links.owner owner w.waiter ts mv.4.owner_m is.waits;
          wait_third = tt;
          own =
              rw
                (
                  append-nil (owners owner (links_of ns)),
                  owners-same w.links.owner owner (links_of ts) mv.4.owner_m,
                  owners-same w.links.owner owner (links_of ns) mv.4.owner_l,
                )
                is.own;
        } in
        let p =
          fold_each-appends ops fuel none owner local nl [] (record w { links = mv.1 }) ts ns start
            is.new_time few in
        let d = drop-Ended owner local nl [] p.0 (ts ++ ns) p.2 p.5 in
        (
          record p.0 { links = d.0 },
          rw (mv.2, mv.3, p.1, d.1),
          record {
            list = d.2.list;
            new_list = subst (λ c. IsList d.0 c.new_timers []) (sym p.3) d.2.other;
            apart =
                subst
                  (λ c.
                    Disjoint (nodes p.0.self.sleeping_timers (links_of (ts ++ ns)))
                      (nodes c.new_timers []))
                  (sym p.3)
                  (Disjoint-symm (nodes nl [])
                    (nodes p.0.self.sleeping_timers (links_of (ts ++ ns))) p.2.third_target);
            waits = d.2.waits;
            new_waits = tt;
            own = d.2.own;
            time = All-append HasTime ts ns is.time is.new_time;
            new_time = tt;
          },
          p.3,
          p.4,
          record {
            head = (fresh.head.0, d.2.freed.0);
            tail = (fresh.tail.0, d.2.freed.1);
            apart = fresh.apart;
          },
          p.6,
          λ x i. d.3 x i ∙ Keeps-append w.links.owner owner ts ns mv.4.owner_m mv.4.owner_l x i,
        )
