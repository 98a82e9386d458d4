-- ===== src/Timer/Refine.antt =====
-- src/timer/mod.rs refines the clock of Timer/Spec.
pub mod Polls
pub mod Delays
use embedded_async.Base.{
  ◌⊎◌, ℕ, ◌+◌, ◌<◌, ◌≡◌, ◌≢◌, ◌==◌, refl, ap, ◌^◌, false, true, [], ◌∷◌, ◌++◌, ◌∈◌, ◌∉◌, Disjoint,
  none, some, ok, pure, ◌>>=◌, ◌>>◌, arith, Option, is_some, ◌||◌, List,
}
use embedded_async.Intrusive.Links.{Ptr, null, Heap, LinkList, Node}
use embedded_async.Intrusive.Links.Invariant.{nodes, Valid, Outside, IsList-outside, mem-left}
use embedded_async.Intrusive.Links.Lifetime.{Fresh}
use embedded_async.Intrusive.Rc.{RcAnchor, rc_ref}
use embedded_async.World.{Waker, Poll}
use embedded_async.World.Without.{without}
use embedded_async.Timer.{
  is_zero, TimerBackend, TimerCmd, WaitingTimer, TimerHandle, DelayFuture, clone_handle,
  drop_handle, delay, poll_delay, drop_delay, poll_runner,
}
use embedded_async.Timer.Sleepers.{
  Sleepers, links_of, owners, owners-same, Sleeping-frame, Sleeping-owners,
}
use embedded_async.Timer.Loop.{Memory}
use embedded_async.Timer.Elapse.{IsTimer}
use embedded_async.Timer.Stages.{Stage, idle, queued, asleep, value, Placed}
use embedded_async.Timer.Spec.{
  Clock, Request, clones, drops, makes, polls, cancels, runs, Answer, done, polled, answer,
}

abbrev pub handle : TimerHandle
handle = record { rc = rc_ref }

abbrev pub future : Node → DelayFuture
future node = record { timer = handle; intrusive_node = node }

module _ (ops : TimerBackend) (fuel : ℕ) (local : LinkList) where
  -- The operation of the code that each request stands for.
  unfoldable pub perform : Request → TimerCmd ops Answer
  perform clones = do h ← clone_handle ops handle; pure done
  perform drops = do drop_handle ops handle; pure done
  perform (makes t node) = do me ← delay ops handle t node; pure done
  perform (polls node k) = do r ← poll_delay ops (future node) k; pure (polled r)
  perform (cancels node) = do drop_delay ops (future node); pure done
  perform (runs k) = do r ← poll_runner ops fuel local local k; pure (polled r)

  -- The memory `w` holds the clock `s`.
  pub record Models (w : Memory ops) (s : Clock ops) : Type 0 where
    pub timer : IsTimer ops w s.sleeping s.starting
    pub fresh : Fresh w.links local
    pub handles : w.self.rc_delays.ref_count ≡ s.handles
    pub few : s.handles < 2 ^ 32
    pub runner : w.self.waker ≡ s.runner
    pub backend : w.self.backend ≡ some s.backend
    pub woken : w.woken ≡ s.woken
    pub values : (p : Ptr) → w.waiter p ≡ value (s.delays p)
    pub places : (p : Ptr) → Placed w.links.owner s.sleeping s.starting p (s.delays p)

  -- The address `p` owns no link of the timers that sleep or are new.
  abbrev pub Free : Memory ops → Sleepers → Sleepers → Ptr → Type 0
  Free w ts ns p =
      (p ∉ owners w.links.owner (links_of ts)) × (p ∉ owners w.links.owner (links_of ns))

  -- The node of a delay that may go: its link is live, and null where no list holds it, and its
  -- value belongs to no other link, and to that one where a list holds it.
  pub record Leaves (w : Memory ops) (s : Clock ops) (node : Node) : Type 0 where
    pub live : Valid w.links node.link
    pub alone :
        node.link ∉ links_of s.sleeping
        → node.link ∉ links_of s.starting
        → (node.link ∉ nodes w.self.sleeping_timers (links_of s.sleeping))
          × (node.link ∉ nodes w.self.new_timers (links_of s.starting))
          × (w.links.next node.link ≡ null)
          × (w.links.prev node.link ≡ null)
    pub owns : node.link ∈ links_of s.sleeping → w.links.owner node.link ≡ node.data_at
    pub owns_new : node.link ∈ links_of s.starting → w.links.owner node.link ≡ node.data_at
    pub own : Free w (without node.link s.sleeping) (without node.link s.starting) node.data_at

  -- The link of a delay that has time left, and that nobody waits for, is live and in no list.
  abbrev pub Polled : Memory ops → Clock ops → Node → Option Stage → Type 0
  Polled w s node (some (idle t)) =
      (is_zero t ≡ true)
      ⊎ (Valid w.links node.link
          × (node.link ∉ nodes w.self.sleeping_timers (links_of s.sleeping))
          × (node.link ∉ nodes w.self.new_timers (links_of s.starting))
          × (node.data_at ≢ null))
  Polled w s node (some (queued t k)) = Unit
  Polled w s node (some (asleep t k)) = Unit
  Polled w s node none = ⊥

  -- A handle is there that is cloned or dropped, and less than 2 ^ 32 are made. The link and the
  -- value of a new delay lie in unused memory; a delay that is polled was made before.
  abbrev pub Allowed : Memory ops → Clock ops → Request → Type 0
  Allowed w s clones = (0 < s.handles) × (s.handles + 1 < 2 ^ 32)
  Allowed w s drops = 0 < s.handles
  Allowed w s (makes t node) =
      (0 < s.handles)
      × (s.handles + 1 < 2 ^ 32)
      × (node.link ≢ null)
      × (w.links.live node.link ≡ false)
      × (node.link ∉ (local.head ∷ local.tail ∷ []))
      × (s.delays node.data_at ≡ none)
  Allowed w s (polls node k) = Polled w s node (s.delays node.data_at)
  Allowed w s (cancels node) = (0 < s.handles) × Leaves w s node
  Allowed w s (runs k) = Unit {0}

  abbrev pub Refines : Memory ops → Clock ops → Request → Type 0
  Refines w s r = (u : Memory ops) × (perform r w ≡ ok (answer r s).0 u) × Models u (answer r s).1

-- A timer stays well formed through a change of memory that spares its lists and their waiters,
-- whatever becomes of the counts.
pub still-IsTimer :
    (ops : TimerBackend) (w : Memory ops) (ts ns : Sleepers)
    → IsTimer ops w ts ns
    → (ys : List Ptr) (g : Heap) (waiter : Ptr → Option WaitingTimer) (rc : RcAnchor Ptr)
      (woken : List Waker)
    → Outside ys w.links g
    → Disjoint (nodes w.self.sleeping_timers (links_of ts)) ys
    → Disjoint (nodes w.self.new_timers (links_of ns)) ys
    → ((p : Ptr) → p ∈ owners w.links.owner (links_of ts) → waiter p ≡ w.waiter p)
    → ((p : Ptr) → p ∈ owners w.links.owner (links_of ns) → waiter p ≡ w.waiter p)
    → IsTimer ops
        (record {
          links = g;
          waiter = waiter;
          woken = woken;
          self = record w.self { rc_delays = rc };
        })
        ts
        ns
still-IsTimer ops w ts ns is ys g waiter rc woken out off off_new same same_new =
    let sl = w.self.sleeping_timers in
    let nl = w.self.new_timers in
    let keeps : (x : Ptr) → x ∈ links_of ts → g.owner x ≡ w.links.owner x =
      λ x i. out.owner x (off x (mem-left sl (links_of ts) x i)) in
    let keeps_new : (x : Ptr) → x ∈ links_of ns → g.owner x ≡ w.links.owner x =
      λ x i. out.owner x (off_new x (mem-left nl (links_of ns) x i)) in
    record {
      list = IsList-outside out sl (links_of ts) off is.list;
      new_list = IsList-outside out nl (links_of ns) off_new is.new_list;
      apart = is.apart;
      waits =
          Sleeping-owners w.links.owner g.owner waiter ts keeps
            (Sleeping-frame w.links.owner w.waiter waiter ts same is.waits);
      new_waits =
          Sleeping-owners w.links.owner g.owner waiter ns keeps_new
            (Sleeping-frame w.links.owner w.waiter waiter ns same_new is.new_waits);
      own =
          rw
            (
              owners-same w.links.owner g.owner (links_of ts) keeps,
              owners-same w.links.owner g.owner (links_of ns) keeps_new,
            )
            is.own;
      time = is.time;
      new_time = is.new_time;
    }

-- The same, where memory does not change.
pub counted-IsTimer :
    (ops : TimerBackend) (w : Memory ops) (ts ns : Sleepers) (rc : RcAnchor Ptr)
    (woken : List Waker)
    → IsTimer ops w ts ns
    → IsTimer ops (record w { woken = woken; self = record w.self { rc_delays = rc } }) ts ns
counted-IsTimer ops w ts ns rc woken is = record {
  list = is.list;
  new_list = is.new_list;
  apart = is.apart;
  waits = is.waits;
  new_waits = is.new_waits;
  own = is.own;
  time = is.time;
  new_time = is.new_time;
}
