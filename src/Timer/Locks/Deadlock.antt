-- ===== src/Timer/Locks/Deadlock.antt =====
-- Two threads in `Update`, whose callbacks call `UnRegister`, waiting for one another.
use qing.Common.{ℕ, ◌≡◌, refl, sym, ap, ◌∙◌, ◌≢◌, some}
use qing.Timer.Defs.{Slot, slot1, slot2, Host}
use qing.Timer.Locks.{
  before_second, before_first, outside, Runner, at_frame, held, System, put, MayStep, Step, moves,
  calls, updates, Reach, here, next_step,
}
use qing.Timer.Locks.Runners.{put_ne}

-- Each of two threads holds the mutex that the other waits for.
pub record IsDeadlocked (a b k l : ℕ) (w : System) : Type 0 where
  pub apart : a ≢ b
  pub has_first : held (w.runners a).frame ≡ some slot1
  pub wants_second : (w.runners a).act ≡ some (before_second k)
  pub has_second : held (w.runners b).frame ≡ some slot2
  pub wants_first : (w.runners b).act ≡ some (before_first l)

-- What the two are in.
abbrev Same : ℕ → ℕ → System → System → Type 0
Same a b w w' = (w'.runners a ≡ w.runners a) × (w'.runners b ≡ w.runners b)

module _ (a b k l : ℕ) (w : System) (d : IsDeadlocked a b k l w) where
  -- A thread with a step to make, or with nothing to do, is neither of the two.
  others_move : (c : ℕ) (s : Slot) → MayStep s c w → (a ≢ c) × (b ≢ c)
  others_move c s may = (
    λ p. may slot2 b (rw (← p, d.wants_second) refl) (λ q. d.apart (p ∙ sym q)) d.has_second,
    λ p. may slot1 a (rw (← p, d.wants_first) refl) (λ q. d.apart (q ∙ sym p)) d.has_first,
  )

  others_idle : (c : ℕ) → w.runners c ≡ at_frame outside → (a ≢ c) × (b ≢ c)
  others_idle c idle = (
    λ p. let f = rw (p, idle) at d.has_first in cc f,
    λ p. let f = rw (p, idle) at d.has_second in cc f,
  )

  put-Same :
      (c : ℕ) (r : Runner) (w' : System)
      → w'.runners ≡ put c r w.runners
      → (a ≢ c) × (b ≢ c)
      → Same a b w w'
  put-Same c r w' q (ne1, ne2) = rw q (put_ne c a r w.runners ne1, put_ne c b r w.runners ne2)

  Step-Same : (h : Host) {w' : System} → Step h w w' → Same a b w w'
  Step-Same h {w'} (moves c s r e' may p q) =
      put-Same c r w' (ap (λ x. x.runners) q) (others_move c s may)
  Step-Same h {w'} (calls c x idle q) = put-Same c _ w' (ap (λ x. x.runners) q) (others_idle c idle)
  Step-Same h {w'} (updates c idle q) = put-Same c _ w' (ap (λ x. x.runners) q) (others_idle c idle)

Same-IsDeadlocked :
    (a b k l : ℕ) (w w' : System) → Same a b w w' → IsDeadlocked a b k l w → IsDeadlocked a b k l w'
Same-IsDeadlocked a b k l w w' (p, q) d = record {
  apart = d.apart;
  has_first = rw p d.has_first;
  wants_second = rw p d.wants_second;
  has_second = rw q d.has_second;
  wants_first = rw q d.wants_first;
}

-- A thread in the loop over `_timers1` whose callback is about to lock `_timers2_mutex`, and another
-- in the loop over `_timers2` whose callback is about to lock `_timers1_mutex`, both in
-- `UnRegister`, stay where they are for ever, whatever the other threads do.
pub deadlock_stays :
    (h : Host) (a b k l : ℕ) (w w' : System)
    → IsDeadlocked a b k l w
    → Reach h w w'
    → (w'.runners a ≡ w.runners a) × (w'.runners b ≡ w.runners b)
deadlock_stays h a b k l w w' d here = (refl, refl)
deadlock_stays h a b k l w w' d (next_step {w' = w1} r st) =
    let (p, q) = deadlock_stays h a b k l w w1 d r in
    let (p', q') = Step-Same a b k l w1 (Same-IsDeadlocked a b k l w w1 (p, q) d) h st in
    (p' ∙ p, q' ∙ q)
