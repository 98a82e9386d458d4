-- ===== src/Timer.antt =====
-- src/timer/mod.rs: the timer, its runner and its delays. A `Timer` is the primitive of a `World`,
-- and its waiters are the values of the nodes inside the delays. The timer backend is a parameter.
pub mod Sleepers
pub mod Local
pub mod Loop
pub mod Update
pub mod Append
pub mod Elapse
pub mod Delay
pub mod Least
pub mod Iterate
pub mod Stages
pub mod Runner
pub mod OnTime
pub mod Spec
pub mod Cancel
pub mod Refine
pub mod Trace
pub mod Ready
pub mod Timeout
pub mod Duration
use embedded_async.Base.{
  ℕ, zero, suc, ◌-◌, Bool, true, false, not, Option, none, some, is_some, ◌==◌, ltb, if◌then◌else◌,
  ok, fault, panic, out_of_fuel, Cmd, pure, ◌>>=◌, ◌>>◌, expect, unless,
}
use embedded_async.Intrusive.Links.{
  Ptr, null, is_null, LinkList, ListIterator, Node, owner_of, new_link, drop_link, new_list,
  drop_list, move_to_front_of, pop_front, push_link_back, push_node_back, iter, iter_next,
}
use embedded_async.Intrusive.Rc.{
  RcAnchor, RcRef, rc_ref, new_anchor, get_ref, clone_ref, drop_ref, drop_anchor,
}
use embedded_async.World.{
  World, Waker, Poll, pending, ready, on_links, wake, get, put, load, store, forget,
}

-- `Duration` as `etime_impl` gives it, on the count of time units.
abbrev pub is_zero : ℕ → Bool
is_zero d = d == 0

abbrev pub saturating_sub : ℕ → ℕ → ℕ
saturating_sub a b = a - b

abbrev pub min : ℕ → ℕ → ℕ
min a b = if ltb b a then b else a

-- `TimerBackend`
pub record TimerBackend : Type 1 where
  pub B : Type 0
  pub wake_in : Waker → ℕ → B → B
  pub pause : B → B × ℕ

pub record WaitingTimer : Type 0 where
  pub time_until_timeout : ℕ
  pub waker : Option Waker

-- The anchors hold the address of the timer, or null.
pub record Timer (ops : TimerBackend) : Type 0 where
  pub backend : Option ops.B
  pub waker : Option Waker
  pub sleeping_timers : LinkList
  pub new_timers : LinkList
  pub rc_delays : RcAnchor Ptr
  pub rc_runner : RcAnchor Ptr

pub record TimerTask : Type 0 where
  pub timer : RcRef

-- `TimerHandle`, which is a `TimerHandleRcRef`
pub record TimerHandle : Type 0 where
  pub rc : RcRef

pub record DelayFuture : Type 0 where
  pub timer : TimerHandle
  pub intrusive_node : Node

abbrev pub TimerCmd : TimerBackend → Type 0 → Type 0
TimerCmd ops A = Cmd (World WaitingTimer (Timer ops)) A

-- The least of the times seen so far and one more.
abbrev pub sooner : Option ℕ → ℕ → Option ℕ
sooner none t = some t
sooner (some m) t = some (min m t)

-- The match in `TimerTaskRunner::poll`.
abbrev pub soonest : Option ℕ → Option ℕ → Option ℕ
soonest none y = y
soonest (some x) none = some x
soonest (some x) (some y) = some (min x y)

module _ (ops : TimerBackend) where
  -- `Timer::new`, with the addresses of the sentinels of its lists.
  abbrev pub new : ops.B → (sleeping_timers new_timers : LinkList) → Timer ops
  new backend sleeping_timers new_timers = record {
    backend = some backend;
    waker = none;
    sleeping_timers = sleeping_timers;
    new_timers = new_timers;
    rc_delays = new_anchor null;
    rc_runner = new_anchor null;
  }

  abbrev pub wake_if_some : Option Waker → TimerCmd ops (Unit {0})
  wake_if_some none = pure tt
  wake_if_some (some k) = wake k

  unfoldable pub replace_anchor : RcAnchor Ptr → Ptr → TimerCmd ops (RcAnchor Ptr)
  unfolding drop_anchor
  replace_anchor old me = elim (drop_anchor old) [
    | ok _ _ ↦ pure (new_anchor me)
    | _ ↦ (λ w. panic)
  ]

  -- `Timer::split`, at the address `me`.
  unfoldable pub split : Ptr → TimerCmd ops (Option (TimerTask × TimerHandle))
  unfolding replace_anchor
  split me = do
    c ← get
    if not (is_null c.rc_runner.contents) then pure none else do
      delays ← replace_anchor c.rc_delays me
      runner ← replace_anchor c.rc_runner me
      let (runner, r) = get_ref runner
      let (delays, h) = get_ref delays
      put (record c { rc_delays = delays; rc_runner = runner })
      pure (some (record { timer = r }, record { rc = h }))

  abbrev pub drop_anchor_of : RcAnchor Ptr → TimerCmd ops (Unit {0})
  drop_anchor_of a = elim (drop_anchor a) [ ok _ _ ↦ pure tt | _ ↦ (λ w. panic) ]

  -- `Timer::consume`; the timer goes at its end, field by field.
  unfoldable pub consume : TimerCmd ops (Option ops.B)
  unfolding drop_list drop_anchor
  consume = do
    c ← get
    put (record c { backend = none })
    on_links (drop_list c.sleeping_timers)
    on_links (drop_list c.new_timers)
    drop_anchor_of c.rc_delays
    drop_anchor_of c.rc_runner
    pure c.backend

  -- `Timer::consume_task`; the task goes at its end, which drops its reference.
  unfoldable pub consume_task : TimerTask → TimerCmd ops (Option ops.B)
  consume_task task = do
    c ← get
    put (record c { backend = none; rc_runner = drop_ref task.timer c.rc_runner })
    pure c.backend

  -- `Clone for TimerHandle` and `Clone for TimerHandleRcRef`
  unfoldable pub clone_handle : TimerHandle → TimerCmd ops TimerHandle
  clone_handle from = do
    c ← get
    put (record c { rc_delays = (clone_ref from.rc c.rc_delays).0 })
    pure (record { rc = rc_ref })

  -- `Drop for TimerHandleRcRef`, then the drop of its reference.
  unfoldable pub drop_handle : TimerHandle → TimerCmd ops (Unit {0})
  drop_handle me = do
    c ← get
    unless (not (c.rc_delays.ref_count == 1)) (wake_if_some c.waker)
    put (record c { rc_delays = drop_ref me.rc c.rc_delays })

  -- What `update_sleeping_timers` does with one link: the least time that is left so far goes in and
  -- comes out.
  unfoldable pub update_one : ℕ → Option ℕ → Ptr → TimerCmd ops (Option ℕ)
  unfolding owner_of push_link_back
  update_one elapsed next x = do
    owner ← on_links (owner_of x)
    elim owner [
      | none ↦ (λ w. fault)
      | some p ↦ load p >>= λ v.
          (let left = saturating_sub v.time_until_timeout elapsed in
            store p (record v { time_until_timeout = left })
            >> (if not (is_zero left)
                then (do
                  c ← get
                  on_links (push_link_back c.sleeping_timers p x)
                  pure (sooner next left))
                else (do
                  k ← expect v.waker
                  store p (record { time_until_timeout = left; waker = none })
                  wake k
                  pure next)))
    ]

  -- What `append_new_timers` does with one link.
  unfoldable pub append_one : Option ℕ → Ptr → TimerCmd ops (Option ℕ)
  unfolding owner_of push_link_back
  append_one least x = do
    owner ← on_links (owner_of x)
    p ← expect owner
    v ← load p
    if not (is_zero v.time_until_timeout)
        then (do
          c ← get
          on_links (push_link_back c.sleeping_timers p x)
          pure (sooner least v.time_until_timeout))
        else (do wake_if_some v.waker; pure least)

  -- `while let Some(x) = l.pop_front()` with a time that goes from round to round.
  unfoldable pub fold_each :
      ℕ → LinkList → (Option ℕ → Ptr → TimerCmd ops (Option ℕ)) → Option ℕ → TimerCmd ops (Option ℕ)
  unfolding pop_front
  fold_each zero l body least = λ w. out_of_fuel
  fold_each (suc fuel) l body least = do
    front ← on_links (pop_front l)
    elim front [ none ↦ pure least | some x ↦ body least x >>= λ m. fold_each fuel l body m ]

  unfoldable pub update_sleeping_timers : ℕ → LinkList → ℕ → TimerCmd ops (Option ℕ)
  unfolding update_one
  update_sleeping_timers fuel local elapsed = do
    on_links (new_list local)
    c ← get
    on_links (move_to_front_of c.sleeping_timers local)
    least ← fold_each fuel local (update_one elapsed) none
    on_links (drop_list local)
    pure least

  unfoldable pub append_new_timers : ℕ → LinkList → TimerCmd ops (Option ℕ)
  unfolding append_one
  append_new_timers fuel local = do
    on_links (new_list local)
    c ← get
    on_links (move_to_front_of c.new_timers local)
    least ← fold_each fuel local append_one none
    on_links (drop_list local)
    pure least

  -- The loop over `sleeping_timers.iter()`.
  unfoldable pub least_time : ℕ → ListIterator → Option ℕ → TimerCmd ops (Option ℕ)
  unfolding iter_next
  least_time zero it least = λ w. out_of_fuel
  least_time (suc fuel) it least = do
    (it', owner) ← on_links (iter_next it)
    elim owner [
      | none ↦ pure least
      | some p ↦ load p >>= λ v. least_time fuel it' (sooner least v.time_until_timeout)
    ]

  -- `backend_mut` and `pause_backend`
  unfoldable pub pause_backend : TimerCmd ops ℕ
  pause_backend = do
    c ← get
    b ← expect c.backend
    put (record c { backend = some (ops.pause b).0 })
    pure (ops.pause b).1

  abbrev pub start_backend : Waker → Option ℕ → TimerCmd ops (Unit {0})
  start_backend k none = pure tt
  start_backend k (some t) = do
    c ← get
    b ← expect c.backend
    put (record c { backend = some (ops.wake_in k t b) })

  -- `TimerTaskRunner::poll`, in the task that `waker` wakes.
  unfoldable pub poll_runner : ℕ → LinkList → LinkList → Waker → TimerCmd ops (Poll (Unit {0}))
  unfolding pause_backend
  poll_runner fuel local1 local2 waker = do
    c ← get
    if c.rc_delays.ref_count == 0 then pure (ready tt) else do
      put (record c { waker = some waker })
      elapsed ← pause_backend
      next ←
          if not (is_zero elapsed)
          then update_sleeping_timers fuel local1 elapsed
          else (do it ← on_links (iter c.sleeping_timers); least_time fuel it none)
      new_min ← append_new_timers fuel local2
      start_backend waker (soonest next new_min)
      pure pending

  -- `TimerTask::run`: it gives the task back once the runner is ready.
  unfoldable pub poll_run :
      ℕ → LinkList → LinkList → TimerTask → Waker → TimerCmd ops (Poll TimerTask)
  poll_run fuel local1 local2 task waker = do
    done ← poll_runner fuel local1 local2 waker
    pure (elim done [ pending ↦ pending | ready _ ↦ ready task ])

  -- `TimerHandle::delay`, at the addresses of the new future's node.
  unfoldable pub delay : TimerHandle → ℕ → Node → TimerCmd ops DelayFuture
  unfolding clone_handle new_link
  delay from duration node = do
    h ← clone_handle from
    on_links (new_link node.link)
    store node.data_at (record { time_until_timeout = duration; waker = none })
    pure (record { timer = h; intrusive_node = node })

  -- `DelayFuture::poll`
  unfoldable pub poll_delay : DelayFuture → Waker → TimerCmd ops (Poll (Unit {0}))
  unfolding push_node_back
  poll_delay me waker = do
    v ← load me.intrusive_node.data_at
    if is_some v.waker
        then pure pending
        else if not (is_zero v.time_until_timeout)
        then (do
          c ← get
          on_links (push_node_back c.new_timers me.intrusive_node)
          store me.intrusive_node.data_at (record v { waker = some waker })
          wake_if_some c.waker
          pure pending)
        else pure (ready tt)

  -- The drop of a `DelayFuture`: its handle, then its node.
  unfoldable pub drop_delay : DelayFuture → TimerCmd ops (Unit {0})
  unfolding drop_handle drop_link
  drop_delay me = do
    drop_handle me.timer
    forget me.intrusive_node.data_at
    on_links (drop_link me.intrusive_node.link)
