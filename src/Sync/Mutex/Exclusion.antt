-- ===== src/Sync/Mutex/Exclusion.antt =====
-- src/sync/mutex.rs: the states a program reaches with one mutex.
use embedded_async.Base.{
  ℕ, ◌≤◌, ◌%◌, ◌^◌, ◌≡◌, refl, sym, subst, ◌∙◌, true, false, [], arith, if◌then◌else◌, ok, ap,
  Bool-cases, inl, inr, ◌⊎◌, ◌++◌,
}
use embedded_async.Intrusive.Links.{Ptr, LinkList}
use embedded_async.Intrusive.Rc.{rc_ref}
use embedded_async.Intrusive.Links.Invariant.{IsList}
use embedded_async.Intrusive.Links.Lifetime.{new_list-nil}
use embedded_async.World.{World, Waker}
use embedded_async.World.Waits.{wakers_of}
use embedded_async.Sync.Mutex.{MutexWaiter, Inner}
use embedded_async.Sync.Mutex.Laws.{IsMutex, drop_guard-wakes, poll-unlocked}
use embedded_async.Sync.Mutex.System.{
  System, Action, takes, clones, drops, tries, locks, polls, cancels, unlocks, writes, Reply, done,
  guarded, perform, Allowed, after, Reach, start, later,
}
use embedded_async.Sync.Mutex.Steps.{
  Good, Goes, takes-Good, clones-Good, drops-Good, tries-Good, writes-Good,
}
use embedded_async.Sync.Mutex.Lives.{locks-Good}
use embedded_async.Sync.Mutex.Cancel.{cancels-Good}
use embedded_async.Sync.Mutex.Queue.{polls-Good, unlocks-Good}

module _ {T : Type 0} where
  perform-Good : (s : System T) → Good s → (a : Action T) → Allowed s a → Goes s a
  perform-Good s good (takes me) may = takes-Good s good me may
  perform-Good s good clones may = clones-Good s good may
  perform-Good s good drops may = drops-Good s good may
  perform-Good s good tries may = tries-Good s good may
  perform-Good s good (locks x o) may = locks-Good s good x o may
  perform-Good s good (polls x o k) may = polls-Good s good x o k may
  perform-Good s good (cancels x o) may = cancels-Good s good x o may
  perform-Good s good (unlocks fuel local) may = unlocks-Good s good fuel local may
  perform-Good s good (writes v) may = writes-Good s good v may

  -- An operation has one outcome.
  same-Good :
      (s : System T) (a : Action T) {r : Reply} {m : World MutexWaiter (Inner T)}
      → Goes s a
      → perform a s.mem ≡ ok r m
      → Good (after s a r m)
  same-Good s a {r} {m} (q, n, e, good) d =
      let same : ok q n ≡ ok r m = sym e ∙ d in
      subst (λ x. Good (after s a x m)) (cc) (subst (λ x. Good (after s a q x)) (cc) good)

  Reach-Good : {s : System T} → Reach s → Good s
  Reach-Good (start value {h} {g} l waiter woken fresh made) =
      let (g', made', list, outside) = new_list-nil h l fresh in
      let eq : ok tt g' ≡ ok tt g = sym made' ∙ made in
      let same : g' ≡ g = (cc) in
      record {
        mutex = record { list = subst (λ f. IsList f l []) same list; waits = tt };
        guards = refl;
        idle = λ e. refl;
        count = refl;
        anchor = λ e. refl;
        live = λ x o f. absurd (ground (arith, f));
        inner = λ x o f. absurd (ground (arith, f));
        waiter = λ x o f. absurd (ground (arith, f));
        own = λ x y o f. absurd (ground (arith, f));
        alone = λ x o f. absurd (ground (arith, f));
        waits = λ x m. absurd (ground (arith, m));
      }
  Reach-Good (later {s} {t} a reach may e same) =
      subst Good (sym same) (same-Good s a (perform-Good s (Reach-Good reach) a may) e)

  -- In every state that a program reaches with a new mutex, whatever the order of its operations
  -- and of the polls of its futures (an operation has a reference or a guard to work on, new
  -- objects lie in fresh memory, and a future that waits is polled again only once its task was
  -- woken): at most one guard is alive, and one is alive exactly where the mutex is locked; a
  -- future that waits does so because of that guard; the reference
  -- count is the number of the references that are alive, modulo 2 ^ 32; and the wait list is well
  -- formed and holds the futures that wait, in the order of their polls.
  pub Reach-exclusion :
      {s : System T}
      → Reach s
      → (s.guards ≤ 1)
        × (s.guards ≡ (if s.mem.self.locked then 1 else 0))
        × ((s.waiting ≡ []) ⊎ (s.guards ≡ 1))
        × (s.mem.self.rc.ref_count ≡ s.refs % 2 ^ 32)
        × IsMutex s.mem s.waiting
  Reach-exclusion {s} reach =
      let good = Reach-Good reach in
      (
        ground (arith, good.guards),
        good.guards,
        elim (Bool-cases s.mem.self.locked) [
          | inl held ↦ inr (ground (arith, good.guards, held))
          | inr free ↦ inl (good.idle free)
        ],
        good.count,
        good.mutex,
      )

  -- In every state that a program reaches with a new mutex, every operation that it may do (it has
  -- a reference or a guard to work on, new objects lie in fresh memory, and a future that waits is
  -- polled again only once its task was woken) ends and leaves such a state: no operation has
  -- undefined behaviour or panics, and the drop of a guard ends given one round more than there are
  -- futures that wait.
  pub perform-ends :
      {s : System T} (a : Action T)
      → Reach s
      → Allowed s a
      → (r : Reply) × (m : World MutexWaiter (Inner T)) × (perform a s.mem ≡ ok r m)
        × Reach (after s a r m)
  perform-ends {s} a reach may =
      let (r, m, e, good) = perform-Good s (Reach-Good reach) a may in
      (r, m, e, later a reach may e refl)

  -- In every state that a program reaches with a new mutex, by operations that it may do, the drop
  -- of a guard wakes every task that waits, once each and in the order of their polls, and
  -- whichever future is polled first after it gets the lock, whether it waited or not. The drop
  -- needs one round more than there are futures that wait.
  pub unlocks-polls :
      {s : System T} (fuel : ℕ) (local : LinkList) (x o : Ptr) (k : Waker)
      → Reach s
      → Allowed s (unlocks fuel local)
      → (m n : World MutexWaiter (Inner T)) × (perform (unlocks fuel local) s.mem ≡ ok done m)
        × (m.woken ≡ s.mem.woken ++ wakers_of s.waiting)
        × (m.self.locked ≡ false)
        × (perform (polls x o k) m ≡ ok guarded n)
        × (n.self.locked ≡ true)
        × (n.woken ≡ m.woken)
  unfolding perform
  unlocks-polls {s} fuel local x o k reach (some_ref, some_guard, fresh, few) =
      let good = Reach-Good reach in
      let p =
        drop_guard-wakes s.mem s.waiting good.mutex fuel local (record { ref = rc_ref }) fresh
          few in
      let free = ap (λ c. c.locked) p.3 in
      let q = poll-unlocked p.0 [] p.2 (record { link = x; waiter = o; ref = rc_ref }) k free in
      (p.0, q.0, rw p.1, p.4, free, rw q.1, ap (λ c. c.locked) q.2, q.3)
