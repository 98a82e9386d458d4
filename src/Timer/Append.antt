-- ===== src/Timer/Append.antt =====
-- src/timer/mod.rs: the loop of `append_new_timers`.
use mathlib.Core.List.{append-nil, append_assoc}
use embedded_async.Base.{
  ℕ, zero, suc, ◌<◌, ◌≡◌, ◌≢◌, refl, ◌∙◌, [], ◌∷◌, ◌++◌, All, length, arith, ok, Option,
}
use embedded_async.Intrusive.Links.{Ptr, LinkList}
use embedded_async.Intrusive.Links.Invariant.{IsReady}
use embedded_async.World.{Waker}
use embedded_async.Timer.{TimerBackend, sooner, append_one, fold_each}
use embedded_async.Timer.Sleepers.{Sleepers, HasTime, least_of}
use embedded_async.Timer.Loop.{Memory, Loop, popped, live, keeps, moves-Loop}
use embedded_async.Timer.Update.{nil-Loop}

module _ (ops : TimerBackend) where
  -- The round for a timer that has time left: it is put last in the list of sleeping timers.
  round-appends :
      (owner : Ptr → Ptr) (local spare : LinkList) (ns : Sleepers) (w : Memory ops)
      (done : Sleepers) (x : Ptr) (k : Waker) (t : ℕ) (ts : Sleepers)
      (is : Loop ops owner local spare ns w done ((x, (k, t)) ∷ ts)) (least : Option ℕ)
      → t ≢ 0
      → (v : Memory ops) × (append_one ops least x
            (record w { links = (popped ops owner local spare ns w done x k t ts is).0 })
          ≡ ok (sooner least t) v)
        × Loop ops owner local spare ns v (done ++ (x, (k, t)) ∷ []) ts
        × (v.self ≡ w.self)
        × (v.woken ≡ w.woken)
        × (v.waiter ≡ w.waiter)
  unfolding append_one
  round-appends owner local spare ns w done x k t ts is least ne =
      let p =
        moves-Loop ops owner local spare ns w done x k t ts is w.waiter w.woken (λ q n. refl) t
          is.wait_todo.0.1 in
      (
        record w { links = p.0 },
        ground (
          arith,
          live ops owner local spare ns w done x k t ts is,
          keeps ops owner local spare ns w done x k t ts is x,
          is.wait_todo.0,
          ne,
          p.1,
        ),
        p.2,
        refl,
        refl,
        refl,
      )

  -- The loop, from its middle.
  pub fold_each-appends :
      (fuel : ℕ) (least : Option ℕ) (owner : Ptr → Ptr) (local spare : LinkList) (ns : Sleepers)
      (w : Memory ops) (done todo : Sleepers)
      → Loop ops owner local spare ns w done todo
      → All HasTime todo
      → length todo < fuel
      → (u : Memory ops) × (fold_each ops fuel local (append_one ops) least w
          ≡ ok (least_of least todo) u)
        × Loop ops owner local spare ns u (done ++ todo) []
        × (u.self ≡ w.self)
        × (u.woken ≡ w.woken)
        × IsReady u.links local []
        × (u.waiter ≡ w.waiter)
  unfolding fold_each
  fold_each-appends zero least owner local spare ns w done todo is all few = absurd (omega arith)
  fold_each-appends (suc fuel) least owner local spare ns w done [] is all few =
      rw append-nil (nil-Loop ops owner local spare ns w done fuel (append_one ops) least is)
  fold_each-appends (suc fuel) least owner local spare ns w done ((x, (k, t)) ∷ ts) is all few =
      let p = round-appends owner local spare ns w done x k t ts is least all.0 in
      let rest =
        fold_each-appends fuel (sooner least t) owner local spare ns p.0 (done ++ (x, (k, t)) ∷ [])
          ts p.2 all.1 (omega arith) in
      (
        rest.0,
        rw ((popped ops owner local spare ns w done x k t ts is).1, p.1, rest.1),
        rw (← append_assoc done ((x, (k, t)) ∷ []) ts) rest.2,
        rest.3 ∙ p.3,
        rest.4 ∙ p.4,
        rest.5,
        rest.6 ∙ p.5,
      )
