-- ===== src/Timer/Locks/Iterators.antt =====
-- The iterators of `Update` under the other threads and callbacks that do not call `Update`.
use qing.Common.{ℕ, ◌≡◌, ◌≢◌, none, some}
use qing.Timer.Defs.{Slot, TimerThread, Host}
use qing.Timer.Valid.{IsValid}
use qing.Timer.Locks.{runner_step, held, System, Reach}
use qing.Timer.Locks.Frames.{runner_step-Goes}
use qing.Timer.Locks.Safe.{starts_with, starts_with-IsSafe, Reach-IsSafe}

-- From an engine whose maps are in order, if no callback calls `Update`: whatever passes, callbacks
-- and other calls the threads are in, and however their statements come between one another, the maps are in order again, the next
-- statement of a thread never meets an iterator or a reference whose node is gone, and no two
-- threads hold the mutex of the same map.
pub iterators_stand :
    (h : Host) (e : TimerThread) (w : System) (a b : ℕ) (s : Slot)
    → IsValid e
    → Reach h (starts_with e) w
    → a ≢ b
    → IsValid w.engine
      × (runner_step h s (w.runners a) w.engine ≢ none)
      × ¬ ((held (w.runners a).frame ≡ some s) × (held (w.runners b).frame ≡ some s))
iterators_stand h e w a b s v r ne =
    let safe = Reach-IsSafe h r (starts_with-IsSafe e v) in
    let (r', e', q, _) =
      runner_step-Goes h s w.engine safe.valid (w.runners a) (safe.fits a) (safe.stands a) in
    (safe.valid, λ p. cc (p, q), λ (p, q). safe.alone a b s ne p q)
