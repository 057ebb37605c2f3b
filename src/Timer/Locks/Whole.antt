-- ===== src/Timer/Locks/Whole.antt =====
-- The passes and the calls of the engine as a whole, as statements that nothing comes between.
use qing.Common.{ℕ, zero, suc, ◌≡◌, refl, ◌∙◌, Option, none, some, [], arith, along_some}
use qing.Common.OrdMap.{find, begin, next}
use qing.Timer.Defs.{
  ETimer, Slot, slot1, slot2, TimerThread, table, Host, get_clock, rearm, sweep, update_all,
}
use qing.Timer.Tables.{table_eq}
use qing.Timer.Visit.{
  Visited, missing, deleted, waiting, fires, called_back, sweep-step, update_all-loops,
}
use qing.Timer.Valid.{IsValid}
use qing.Timer.Preserve.{Visited-IsValid, sweep-IsValid}
use qing.Timer.Frame.{Carried-some, apply_calls-Extends}
use qing.Timer.Locks.{
  outside, locking, looping, calling_back, at_frame, unlocked, look, frame_step, runner_step,
}
use qing.Timer.Locks.Deeds.{handed_out}
use qing.Timer.Locks.Moves.{Stands}
use qing.Timer.Locks.Frames.{next-Stands, begin-Stands}
use qing.Timer.Locks.Alone.{Alone, rests, goes, Alone-trans, callback_whole}

-- Of the timer `rearm` needs to know only whether it runs once.
pub rearm-once_eq :
    (h : Host) (s : Slot) (k : ℕ) (t u : ETimer) (e : TimerThread)
    → u.run_once ≡ t.run_once
    → rearm h s k u e ≡ rearm h s k t e
unfolding rearm
rearm-once_eq h s k t u e q = rw q refl

module _ (h : Host) (s : Slot) where
  pub looking :
      (k : ℕ) (t : ETimer) (e : TimerThread)
      → find k (table s e) ≡ some t
      → runner_step h s (at_frame (looping s (some k))) e ≡ some (look h s k t e)
  unfolding runner_step frame_step
  looking k t e f = ground arith

  rearming :
      (k : ℕ) (t u : ETimer) (e : TimerThread)
      → find k (table s e) ≡ some u
      → u.run_once ≡ t.run_once
      → let e' = rearm h s k t e in
        runner_step h s (at_frame (calling_back s k [])) e
        ≡ some (at_frame (looping s (next k (table s e'))), e')
  unfolding runner_step frame_step
  rearming k t u e f q = let same = rearm-once_eq h s k t u e q in ground arith

  visit_whole :
      (k : ℕ) (t : ETimer) (e : TimerThread) {e' : TimerThread}
      → IsValid e
      → find k (table s e) ≡ some t
      → Visited h s k e e'
      → Alone h (at_frame (looping s (some k))) e (at_frame (looping s (next k (table s e')))) e'
  unfolding look get_clock
  visit_whole k t e v f (missing g q) = cc
  visit_whole k t e v f (deleted u g m q) = goes s {e1 = e} rests (looking k u e g ∙ rw (q, m) refl)
  visit_whole k t e v f (waiting u g m w q) =
      goes s {e1 = e} rests (looking k u e g ∙ rw (q, m, w) refl)
  visit_whole k t e v f (fires u e1 g m w p q) =
      let c : TimerThread = called_back k e in
      let x = apply_calls-Extends h (h.actions u.fp (suc e.reads)) c p in
      let there : find k (table s c) ≡ some u = rw (table_eq s e c refl refl) g in
      let (u', g', kept) = Carried-some (rw there at (x.carries s k (handed_out s k u e v g))) in
      goes s {e1 = e1}
        (Alone-trans h
          (goes s {r2 = at_frame (calling_back s k (h.actions u.fp (suc e.reads)))} {e1 = e} rests
            (looking k u e g ∙ rw (m, w) refl))
          (callback_whole h s k (h.actions u.fp (suc e.reads)) c e1 p))
        (rw q (rearming k u u' e1 g' kept.run_once))

  sweep_whole :
      (fuel : ℕ) (position : Option ℕ) (e : TimerThread) {e' : TimerThread}
      → IsValid e
      → Stands (looping s position) e
      → sweep h s fuel position e ≡ some e'
      → Alone h (at_frame (looping s position)) e (at_frame (looping s none)) e'
  unfolding sweep
  sweep_whole zero position e v st p = cc
  sweep_whole (suc fuel) none e {e'} v st p = along_some (Alone h _ e _) e e' p rests
  sweep_whole (suc fuel) (some k) e v (t, f) p =
      let (e1, vis, p') = sweep-step h s fuel k e p in
      Alone-trans h (visit_whole k t e v f vis) (
        sweep_whole fuel (next k (table s e1)) e1 (Visited-IsValid h vis v)
          (next-Stands h s e1 (Visited-IsValid h vis v) s k e1) p')

module _ (h : Host) where
  pub pass_whole :
      (fuel : ℕ) (e : TimerThread) {e' : TimerThread}
      → IsValid e
      → update_all h fuel e ≡ some e'
      → Alone h (at_frame (locking slot1)) e (at_frame outside) e'
  unfolding runner_step frame_step unlocked
  pass_whole fuel e {e'} v p =
      let (e1, p1, p2) = update_all-loops h fuel e p in
      let v1 = sweep-IsValid h slot1 fuel (begin (table slot1 e)) e v p1 in
      let first = Alone-trans h (goes slot1 {e1 = e} rests refl) (
        sweep_whole h slot1 fuel (begin (table slot1 e)) e v (begin-Stands h slot1 e v slot1) p1) in
      let second = Alone-trans h (goes slot1 {e1 = e1} rests refl) (
        sweep_whole h slot2 fuel (begin (table slot2 e1)) e1 v1 (begin-Stands h slot1 e1 v1 slot2)
          p2) in
      goes slot1 {e1 = e'} (Alone-trans h (goes slot1 {e1 = e1} first refl) second) refl
