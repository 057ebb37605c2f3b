-- ===== src/Timer/Locks/Shots.antt =====
-- A timer that runs once and stands in a map, among the statements of several threads.
use qing.Common.{
  ℕ, suc, ◌≤◌, ◌<◌, ◌≡◌, refl, sym, ap, ◌∙◌, ◌≢◌, inl, inr, true, some, arith, count, Bool-cases,
  ◌==◌, ==_iff, ne_of_==_false,
}
use qing.Common.OrdMap.{find}
use qing.Timer.Defs.{ETimer, Slot, TimerThread, table, Host}
use qing.Timer.Deleted.{Settled}
use qing.Timer.Locks.{Frame, Runner, held, System, put, Step, Reach, here, next_step}
use qing.Timer.Locks.Runners.{put-all, put_self, put_ne}
use qing.Timer.Locks.Moves.{awaited, Moved, IsAt, Once, stays, runs, ends}
use qing.Timer.Locks.Awaited.{inserting_of-awaited, still_unclaimed}
use qing.Timer.Locks.Safe.{IsSafe, Step-IsSafe, Step-Stepped}

-- The timer `k`, whose id was `n` times in the log: it has not run, a thread is in its callback, or it
-- is gone.
pub data Shot (k n : ℕ) (w : System) : Type 0 where
  unspent :
      (s : Slot) (t : ETimer)
      → find k (table s w.engine) ≡ some t
      → t.run_once ≡ true
      → count k w.engine.fired ≡ n
      → ((a : ℕ) → ¬ IsAt s k (w.runners a).frame)
      → Shot k n w
  running :
      (s : Slot) (t : ETimer) (a : ℕ)
      → find k (table s w.engine) ≡ some t
      → t.run_once ≡ true
      → count k w.engine.fired ≡ suc n
      → IsAt s k (w.runners a).frame
      → Shot k n w
  spent : (m : ℕ) → m ≤ suc n → Settled k m w.engine → Shot k n w

pub Shot-count : (k n : ℕ) (w : System) → Shot k n w → count k w.engine.fired ≤ suc n
Shot-count k n w (unspent s t f o c na) = omega (arith, c)
Shot-count k n w (running s t a f o c at) = omega (arith, c)
Shot-count k n w (spent m le d) = omega (arith, le, d.runs)

pub record IsShot (k n : ℕ) (w : System) : Type 0 where
  pub safe : IsSafe w
  pub positive : 0 < k
  pub old : k ≤ w.engine.cur_timer_id
  pub shot : Shot k n w
  pub unclaimed : (a : ℕ) → awaited (w.runners a).act ≢ k

-- A thread in a callback holds its map's mutex, and is not about to look at a node.
IsAt-held : (s : Slot) (k : ℕ) (f : Frame) → IsAt s k f → held f ≡ some s
IsAt-held s k f (cs, q) = rw q refl

module _ (h : Host) (k n : ℕ) (s : Slot) (a : ℕ) (r : Runner) (e' : TimerThread) (w : System)
    (m : Moved s (w.runners a) r w.engine e') (d : IsShot k n w) where
  abbrev now : System
  now = record { engine = e'; runners = put a r w.runners }

  unspent-Shot :
      (s' : Slot)
      → count k w.engine.fired ≡ n
      → ((b : ℕ) → ¬ IsAt s' k (w.runners b).frame)
      → Once s' k (w.runners a).frame r.frame w.engine e'
      → Shot k n now
  unspent-Shot s' c not_at (stays u f o same at) = unspent s' u f o (same ∙ c) (
      put-all (λ b x. ¬ IsAt s' k x.frame) a r w.runners (λ x. not_at a (at.1 x))
        (λ b ne. not_at b))
  unspent-Shot s' c not_at (runs u f o more before at) =
      running s' u a f o (more ∙ ap suc c) (rw (put_self a r w.runners) at)
  unspent-Shot s' c not_at (ends x) = spent (count k w.engine.fired) (omega (arith, c)) x

  running-Shot :
      (s' : Slot) (b : ℕ)
      → count k w.engine.fired ≡ suc n
      → IsAt s' k (w.runners b).frame
      → Once s' k (w.runners a).frame r.frame w.engine e'
      → Shot k n now
  running-Shot s' b c in_it (ends x) = spent (count k w.engine.fired) (omega (arith, c)) x
  running-Shot s' b c in_it (stays u f o same at) =
      running s' u b f o (same ∙ c) (elim (Bool-cases (b == a)) [
        | inl mine ↦
            let is = (==_iff b a).0 mine in rw (is, put_self a r w.runners) (at.0 (rw is at in_it))
        | inr other ↦ rw (put_ne a b r w.runners (ne_of_==_false b a other)) in_it
      ])
  running-Shot s' b c in_it (runs u f o more before at) = elim (Bool-cases (b == a)) [
    | inl mine ↦ let (cs, q) = rw ((==_iff b a).0 mine) at in_it in cc (q, before)
    | inr other ↦ absurd (
        d.safe.alone b a s' (ne_of_==_false b a other) (IsAt-held s' k (w.runners b).frame in_it)
          (rw before refl))
  ]

  moved-Shot : Shot k n w → Shot k n now
  moved-Shot (unspent s' t f o c not_at) = unspent-Shot s' c not_at (m.once s' k t f o)
  moved-Shot (running s' t b f o c in_it) = running-Shot s' b c in_it (m.once s' k t f o)
  moved-Shot (spent j le x) = spent j le (
      m.deed.settled k j
        (λ p. elim (inserting_of-awaited (w.runners a).act) [
          | inl zero_now ↦ omega (arith, d.positive, p, zero_now)
          | inr its ↦ d.unclaimed a (sym (p ∙ its))
        ])
        x)

module _ (h : Host) (k n : ℕ) where
  Step-IsShot : {w w' : System} → Step h w w' → IsShot k n w → IsShot k n w'
  Step-IsShot {w} {w'} st d =
      let x = Step-Stepped h st d.safe in
      let safe = rw x.is at (Step-IsSafe h st d.safe) in
      rw x.is (record {
        safe = safe;
        positive = d.positive;
        old = omega (arith, d.old, x.moved.deed.ids);
        shot = moved-Shot h k n x.slot x.who x.runner w'.engine w x.moved d d.shot;
        unclaimed = still_unclaimed k x.who x.runner w d.positive d.old x.moved.waits d.unclaimed;
      })

  pub Reach-IsShot : {w w' : System} → Reach h w w' → IsShot k n w → IsShot k n w'
  Reach-IsShot here d = d
  Reach-IsShot (next_step r st) d = Step-IsShot st (Reach-IsShot r d)
