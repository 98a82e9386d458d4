-- ===== src/Timer/Update.antt =====
-- src/timer/mod.rs: the loop of `update_sleeping_timers`.
use mathlib.Core.List.{append-nil, append_assoc}
use embedded_async.Base.{
  ℕ, zero, suc, ◌<◌, ◌≡◌, refl, ◌∙◌, [], ◌∷◌, ◌++◌, length, update, arith, true, false, Bool-cases,
  inl, inr, ap, All, ◌∉◌, has-append, Distinct-right, some, none, ok, Option,
}
use embedded_async.Intrusive.Links.{Ptr, LinkList}
use embedded_async.Intrusive.Links.Invariant.{IsReady, IsList-frame}
use embedded_async.Intrusive.Links.Sentinels.{IsReady-IsList}
use embedded_async.Intrusive.Links.Unlink.{pop_front-nil}
use embedded_async.World.{Waker}
use embedded_async.Timer.{
  WaitingTimer, TimerBackend, is_zero, saturating_sub, sooner, TimerCmd, update_one, fold_each,
}
use embedded_async.Timer.Sleepers.{
  Sleepers, links_of, owners, remaining, expired, least_of, Settled,
}
use embedded_async.Timer.Loop.{Memory, Loop, popped, live, keeps, leaves-Loop, moves-Loop}

module _ (ops : TimerBackend) where
  -- The end of a loop: the call's own list has no link left.
  pub nil-Loop :
      (owner : Ptr → Ptr) (local spare : LinkList) (ns : Sleepers) (w : Memory ops)
      (done : Sleepers) (fuel : ℕ) (body : Option ℕ → Ptr → TimerCmd ops (Option ℕ))
      (least : Option ℕ)
      → Loop ops owner local spare ns w done []
      → (u : Memory ops) × (fold_each ops (suc fuel) local body least w ≡ ok least u)
        × Loop ops owner local spare ns u done []
        × (u.self ≡ w.self)
        × (u.woken ≡ w.woken)
        × IsReady u.links local []
        × (u.waiter ≡ w.waiter)
  unfolding fold_each
  nil-Loop owner local spare ns w done fuel body least is =
      let p = pop_front-nil w.links local is.source in
      (
        record w { links = p.0 },
        rw p.1,
        record {
          source = IsReady-IsList p.0 local [] p.2;
          target =
              IsList-frame p.3 w.self.sleeping_timers (links_of done)
                (λ a m. ground (arith, is.apart a)) is.target;
          third = IsList-frame p.3 spare (links_of ns) is.third_source is.third;
          apart = is.apart;
          third_source = is.third_source;
          third_target = is.third_target;
          same = λ a. p.3.owner a refl ∙ is.same a;
          wait_todo = tt;
          wait_done = is.wait_done;
          wait_third = is.wait_third;
          own = is.own;
        },
        refl,
        refl,
        p.2,
        refl,
      )

  module _ (owner : Ptr → Ptr) (local spare : LinkList) (ns : Sleepers) (w : Memory ops)
      (done : Sleepers) (x : Ptr) (k : Waker) (t : ℕ) (ts : Sleepers)
      (is : Loop ops owner local spare ns w done ((x, (k, t)) ∷ ts)) (elapsed : ℕ)
      (least : Option ℕ) where
    abbrev left : ℕ
    left = saturating_sub t elapsed

    abbrev reduced_waiter : Ptr → Option WaitingTimer
    reduced_waiter =
        update w.waiter (owner x) (some (record { time_until_timeout = left; waker = some k }))

    abbrev expired_waiter : Ptr → Option WaitingTimer
    expired_waiter =
        update reduced_waiter (owner x) (some (record { time_until_timeout = left; waker = none }))

    abbrev after_pop : Memory ops
    after_pop = record w { links = (popped ops owner local spare ns w done x k t ts is).0 }

    -- The round for a timer that has no time left: its task is woken, and it is in no list.
    round-expires :
        is_zero left ≡ true
        → (v : Memory ops) × (update_one ops elapsed least x after_pop ≡ ok least v)
          × Loop ops owner local spare ns v done ts
          × (v.self ≡ w.self)
          × (v.woken ≡ w.woken ++ k ∷ [])
          × (v.waiter ≡ expired_waiter)
    unfolding update_one
    round-expires over = (
      record after_pop { waiter = expired_waiter; woken = w.woken ++ k ∷ [] },
      ground (
        arith,
        live ops owner local spare ns w done x k t ts is,
        keeps ops owner local spare ns w done x k t ts is x,
        is.wait_todo.0,
        over,
      ),
      leaves-Loop ops owner local spare ns w done x k t ts is expired_waiter (w.woken ++ k ∷ [])
          (λ p ne. ground arith),
      refl,
      refl,
      refl,
    )

    -- The round for a timer that has time left: it is put last in the list of sleeping timers.
    round-remains :
        is_zero left ≡ false
        → (v : Memory ops) × (update_one ops elapsed least x after_pop ≡ ok (sooner least left) v)
          × Loop ops owner local spare ns v (done ++ (x, (k, left)) ∷ []) ts
          × (v.self ≡ w.self)
          × (v.woken ≡ w.woken)
          × (v.waiter ≡ reduced_waiter)
    unfolding update_one
    round-remains some_left =
        let p =
          moves-Loop ops owner local spare ns w done x k t ts is reduced_waiter w.woken
            (λ q ne. ground arith) left (ground arith) in
        (
          record w { links = p.0; waiter = reduced_waiter },
          ground (
            arith,
            live ops owner local spare ns w done x k t ts is,
            keeps ops owner local spare ns w done x k t ts is x,
            is.wait_todo.0,
            some_left,
            p.1,
          ),
          p.2,
          refl,
          refl,
          refl,
        )

  -- No other timer of the list has the owner of the first one.
  first_owner :
      (owner : Ptr → Ptr) (local spare : LinkList) (ns : Sleepers) (w : Memory ops)
      (done : Sleepers) (x : Ptr) (k : Waker) (t : ℕ) (ts : Sleepers)
      → Loop ops owner local spare ns w done ((x, (k, t)) ∷ ts)
      → owner x ∉ owners owner (links_of ts)
  first_owner owner local spare ns w done x k t ts is =
      let os = owners owner (links_of ts) in
      let ps = owners owner (links_of ns) in
      ground (
        arith,
        (Distinct-right (owners owner (links_of done)) (owner x ∷ (os ++ ps)) is.own).0,
        has-append (owner x) os ps,
      )

  -- The loop, from its middle. It leaves each of its waiters with the time that is left, and without
  -- its waker if there is none, and no other waiter changes.
  pub fold_each-updates :
      (fuel elapsed : ℕ) (least : Option ℕ) (owner : Ptr → Ptr) (local spare : LinkList)
      (ns : Sleepers) (w : Memory ops) (done todo : Sleepers)
      → Loop ops owner local spare ns w done todo
      → length todo < fuel
      → (u : Memory ops) × (fold_each ops fuel local (update_one ops elapsed) least w
          ≡ ok (least_of least (remaining elapsed todo)) u)
        × Loop ops owner local spare ns u (done ++ remaining elapsed todo) []
        × (u.self ≡ w.self)
        × (u.woken ≡ w.woken ++ expired elapsed todo)
        × IsReady u.links local []
        × All (Settled owner u.waiter elapsed) todo
        × ((p : Ptr) → p ∉ owners owner (links_of todo) → u.waiter p ≡ w.waiter p)
  unfolding fold_each
  fold_each-updates zero elapsed least owner local spare ns w done todo is few =
      absurd (omega arith)
  fold_each-updates (suc fuel) elapsed least owner local spare ns w done [] is few =
      let q = nil-Loop owner local spare ns w done fuel (update_one ops elapsed) least is in
      rw (append-nil done, append-nil w.woken)
        (q.0, q.1, q.2, q.3, q.4, q.5, tt, λ p out. ap (λ f. f p) q.6)
  fold_each-updates (suc fuel) elapsed least owner local spare ns w done ((x, (k, t)) ∷ ts) is few =
      let first = (popped ops owner local spare ns w done x k t ts is).1 in
      let out = first_owner owner local spare ns w done x k t ts is in
      elim (Bool-cases (is_zero (saturating_sub t elapsed))) [
        | inl over ↦
            let p = round-expires owner local spare ns w done x k t ts is elapsed least over in
            let rest =
              fold_each-updates fuel elapsed least owner local spare ns p.0 done ts p.2
                (omega arith) in
            (
              rest.0,
              rw (over, first, p.1, rest.1),
              rw over rest.2,
              rest.3 ∙ p.3,
              rw (over, rest.4, p.4, append_assoc),
              rest.5,
              (ground (arith, rest.7 (owner x) out, ap (λ f. f (owner x)) p.5, over), rest.6),
              λ q off. ground (arith, off, rest.7 q, ap (λ f. f q) p.5),
            )
        | inr some_left ↦
            let left = saturating_sub t elapsed in
            let p = round-remains owner local spare ns w done x k t ts is elapsed least some_left in
            let rest =
              fold_each-updates fuel elapsed (sooner least left) owner local spare ns p.0
                (done ++ (x, (k, left)) ∷ []) ts p.2 (omega arith) in
            (
              rest.0,
              rw (some_left, first, p.1, rest.1),
              rw (some_left, ← append_assoc done ((x, (k, left)) ∷ []) (remaining elapsed ts))
                  rest.2,
              rest.3 ∙ p.3,
              rw (some_left, rest.4, p.4),
              rest.5,
              (ground (arith, rest.7 (owner x) out, ap (λ f. f (owner x)) p.5, some_left), rest.6),
              λ q off. ground (arith, off, rest.7 q, ap (λ f. f q) p.5),
            )
      ]
