-- ===== src/Sync/Mutex/System.antt =====
-- src/sync/mutex.rs: a mutex with all its references, guards and futures, and the operations on it
-- in any order.
use embedded_async.Base.{
  ℕ, ◌+◌, ◌-◌, ◌<◌, ◌≡◌, ◌≢◌, false, List, [], ◌∷◌, ◌++◌, ◌∉◌, length, update, Option, none, some,
  ok, pure, ◌>>=◌, ◌>>◌,
}
use embedded_async.Intrusive.Links.{Ptr, null, Heap, LinkList, new_list}
use embedded_async.Intrusive.Links.Lifetime.{Fresh}
use embedded_async.Intrusive.Rc.{rc_ref}
use embedded_async.World.{World, Waker, Poll, pending, ready}
use embedded_async.World.Waits.{Waits, links_of}
use embedded_async.World.Without.{without}
use embedded_async.Sync.Mutex.{
  MutexWaiter, Inner, MutexGuard, MutexCmd, new, take_ref, clone, drop_mutex_ref, try_lock, lock,
  poll, drop_future, drop_guard, write,
}

-- The memory, and what of the program is alive: the number of references of every kind, the number
-- of guards among them, the futures by the addresses of their links and waiters, and those that
-- wait, each with the task that polled it, in the order of their polls.
pub record System (T : Type 0) : Type 0 where
  pub mem : World MutexWaiter (Inner T)
  pub refs : ℕ
  pub guards : ℕ
  pub future : Ptr → Option Ptr
  pub waiting : Waits

pub data Action (T : Type 0) : Type 0 where
  takes : (me : Ptr) → Action T  -- `take_ref`
  clones : Action T  -- `MutexRef::clone`, `MutexGuard::source`
  drops : Action T  -- the drop of a `MutexRef`
  tries : Action T  -- `try_lock`
  locks : (link waiter : Ptr) → Action T  -- `lock`
  polls : (link waiter : Ptr) (k : Waker) → Action T  -- a poll of a `LockFuture`
  cancels : (link waiter : Ptr) → Action T  -- the drop of a `LockFuture`
  unlocks : (fuel : ℕ) (local : LinkList) → Action T  -- the drop of a guard
  writes : T → Action T  -- a write through a guard

pub data Reply : Type 0 where
  done : Reply
  guarded : Reply  -- a new guard
  blocked : Reply  -- no guard

abbrev pub guard_reply : Option MutexGuard → Reply
guard_reply none = blocked
guard_reply (some g) = guarded

abbrev pub poll_reply : Poll MutexGuard → Reply
poll_reply pending = blocked
poll_reply (ready g) = guarded

module _ {T : Type 0} where
  unfoldable pub perform : Action T → MutexCmd T Reply
  perform (takes me) = do take_ref me; pure done
  perform clones = do clone rc_ref; pure done
  perform drops = do drop_mutex_ref (record { ref = rc_ref }); pure done
  perform tries = do g ← try_lock; pure (guard_reply g)
  perform (locks x o) = do lock x o; pure done
  perform (polls x o k) = do
    r ← poll (record { link = x; waiter = o; ref = rc_ref }) k
    pure (poll_reply r)
  perform (cancels x o) = do drop_future (record { link = x; waiter = o; ref = rc_ref }); pure done
  perform (unlocks fuel local) = do drop_guard fuel local (record { ref = rc_ref }); pure done
  perform (writes v) = do write (record { ref = rc_ref }) v; pure done

  -- What the program's ownership and its executor grant: an operation has a reference or a guard to
  -- work on, new objects lie in fresh memory, and a future that waits is polled again only once its
  -- task was woken.
  abbrev pub Allowed : System T → Action T → Type 0
  Allowed s (takes me) = me ≢ null
  Allowed s clones = 0 < s.refs
  Allowed s drops = 0 < s.refs
  Allowed s tries = 0 < s.refs
  Allowed s (locks x o) =
      (0 < s.refs)
      × (x ≢ null)
      × (s.mem.links.live x ≡ false)
      × (o ≢ null)
      × (s.mem.waiter o ≡ none)
  Allowed s (polls x o k) = (0 < s.refs) × (s.future x ≡ some o) × (x ∉ links_of s.waiting)
  Allowed s (cancels x o) = (0 < s.refs) × (s.future x ≡ some o)
  Allowed s (unlocks fuel local) =
      (0 < s.refs) × (0 < s.guards) × Fresh s.mem.links local × (length s.waiting < fuel)
  Allowed s (writes v) = 0 < s.guards

  -- What is alive afterwards.
  abbrev pub after : System T → Action T → Reply → World MutexWaiter (Inner T) → System T
  after s (takes me) r m = record s { mem = m; refs = s.refs + 1 }
  after s clones r m = record s { mem = m; refs = s.refs + 1 }
  after s drops r m = record s { mem = m; refs = s.refs - 1 }
  after s tries guarded m = record s { mem = m; refs = s.refs + 1; guards = s.guards + 1 }
  after s tries r m = record s { mem = m }
  after s (locks x o) r m = record s {
    mem = m;
    refs = s.refs + 1;
    future = update s.future x (some o);
  }
  after s (polls x o k) guarded m = record s { mem = m; refs = s.refs + 1; guards = s.guards + 1 }
  after s (polls x o k) r m = record s { mem = m; waiting = s.waiting ++ (x, k) ∷ [] }
  after s (cancels x o) r m = record s {
    mem = m;
    refs = s.refs - 1;
    future = update s.future x none;
    waiting = without x s.waiting;
  }
  after s (unlocks fuel local) r m = record s {
    mem = m;
    refs = s.refs - 1;
    guards = s.guards - 1;
    waiting = [];
  }
  after s (writes v) r m = record s { mem = m }

  -- A new mutex, its sentinels in fresh memory, before the first reference is taken.
  abbrev pub starting : T → LinkList → Heap → (Ptr → Option MutexWaiter) → List Waker → System T
  starting value l h waiter woken = record {
    mem = record { links = h; waiter = waiter; woken = woken; self = new value l };
    refs = 0;
    guards = 0;
    future = λ x. none;
    waiting = [];
  }

  pub data Reach : System T → Type 0 where
    start :
        (value : T) {h g : Heap} (l : LinkList) (waiter : Ptr → Option MutexWaiter)
        (woken : List Waker)
        → Fresh h l
        → new_list l h ≡ ok tt g
        → Reach (starting value l g waiter woken)
    later :
        {s t : System T} (a : Action T) {r : Reply} {m : World MutexWaiter (Inner T)}
        → Reach s
        → Allowed s a
        → perform a s.mem ≡ ok r m
        → t ≡ after s a r m
        → Reach t
