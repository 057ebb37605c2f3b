-- ===== src/Timer/Walk.antt =====
-- A plain walk over a map of timers: what a loop of `Update` comes to when nothing interferes.
use qing.Common.{ℕ, suc, ◌≡◌, Bool, true, false, List, [], ◌∷◌, arith, leb, if◌then◌else◌}
use qing.Timer.Clock.{get_interval_macro_secs}
use qing.Timer.Defs.{ETimer, Slot, slot1, slot2, TimerThread, restarted, Host}

-- The nodes that a walk leaves, the readings of the clock after it, and the log.
pub record Walked : Type 0 where
  pub nodes : List (ℕ × ETimer)
  pub reads : ℕ
  pub log : List ℕ

abbrev pub keeping : ℕ → ETimer → Walked → Walked
keeping k t w = record w { nodes = (k, t) ∷ w.nodes }

-- The map with one table, the readings and the log replaced.
abbrev pub with_table : Slot → List (ℕ × ETimer) → ℕ → List ℕ → TimerThread → TimerThread
with_table slot1 m n log e = record e { timers1 = m; reads = n; fired = log }
with_table slot2 m n log e = record e { timers2 = m; reads = n; fired = log }

module _ (h : Host) where
  abbrev pub due_at : ℕ → ETimer → Bool
  due_at n t = leb t.leftsecs (get_interval_macro_secs h.ticks (h.clock n) t.startclock)

  -- From the first node to the last: a marked timer goes; one that is due runs, and goes if it runs
  -- once, or starts again at the next reading; any other stays as it is.
  unfoldable pub walk : List (ℕ × ETimer) → ℕ → List ℕ → Walked
  walk [] n log = record { nodes = []; reads = n; log = log }
  walk ((k, t) ∷ m) n log =
      let gone = walk m n log in
      let ran = walk m (suc (suc n)) (k ∷ log) in
      let waits = keeping k t (walk m (suc n) log) in
      if t.need_delete
      then gone
      else (if due_at n t
          then (if t.run_once then ran else keeping k (restarted (h.clock (suc n)) t) ran)
          else waits)

  module _ (k n : ℕ) (t : ETimer) (m : List (ℕ × ETimer)) (log : List ℕ) where
    pub walk_marked : t.need_delete ≡ true → walk ((k, t) ∷ m) n log ≡ walk m n log
    unfolding walk
    walk_marked d = ground arith

    pub walk_waiting :
        t.need_delete ≡ false
        → due_at n t ≡ false
        → walk ((k, t) ∷ m) n log ≡ keeping k t (walk m (suc n) log)
    unfolding walk
    walk_waiting d w = ground arith

    pub walk_once :
        t.need_delete ≡ false
        → due_at n t ≡ true
        → t.run_once ≡ true
        → walk ((k, t) ∷ m) n log ≡ walk m (suc (suc n)) (k ∷ log)
    unfolding walk
    walk_once d w once = ground arith

    pub walk_again :
        t.need_delete ≡ false
        → due_at n t ≡ true
        → t.run_once ≡ false
        → walk ((k, t) ∷ m) n log
          ≡ keeping k (restarted (h.clock (suc n)) t) (walk m (suc (suc n)) (k ∷ log))
    unfolding walk
    walk_again d w again = ground arith
