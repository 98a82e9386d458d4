-- ===== src/Timer/Iterate.antt =====
-- src/timer/mod.rs: the loop of the runner over the timers that sleep, when no time has passed.
use embedded_async.Base.{ℕ, zero, suc, ◌<◌, ◌≡◌, [], ◌∷◌, All, length, arith, Option, ok}
use embedded_async.Intrusive.Links.{LinkList, ListIterator}
use embedded_async.Intrusive.Links.Iterate.{IsAt, iter_next-cons, iter_next-nil}
use embedded_async.Timer.{TimerBackend, sooner, least_time}
use embedded_async.Timer.Sleepers.{Sleepers, links_of, Sleeping, least_of}
use embedded_async.Timer.Loop.{Memory}

-- Its result is the least time of the timers that the iterator has before it.
pub least_time-least_of :
    (ops : TimerBackend) (fuel : ℕ) (w : Memory ops) (l : LinkList) (it : ListIterator)
    (least : Option ℕ) (ts : Sleepers)
    → IsAt w.links l it (links_of ts)
    → All (Sleeping w.links.owner w.waiter) ts
    → length ts < fuel
    → least_time ops fuel it least w ≡ ok (least_of least ts) w
unfolding least_time
least_time-least_of ops zero w l it least ts is all few = absurd (omega arith)
least_time-least_of ops (suc fuel) w l it least [] is all few = rw (iter_next-nil w.links l it is)
least_time-least_of ops (suc fuel) w l it least ((x, (k, t)) ∷ ts) is all few =
    let p = iter_next-cons w.links l it x (links_of ts) is all.0.0 in
    rw (p.1, all.0.1)
      (least_time-least_of ops fuel w l p.0 (sooner least t) ts p.2 all.1 (omega arith))
