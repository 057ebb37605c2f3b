-- ===== src/Timer/ReentryCalls.antt =====
-- `Update` with callbacks that could call `Update` and do not.
use qing.Common.{
  zero, ℕ, zero, suc, ◌≡◌, refl, ap, inl, inr, Option, none, some, List, [], ◌∷◌, Bool-cases,
  Option-cases, map,
}
use qing.Common.OrdMap.{find, begin, next}
use qing.Timer.Defs.{
  ETimer, Slot, slot1, slot2, TimerThread, table, Call, Host, get_clock, apply_call, apply_calls,
  rearm, fire, visit_node, visit, sweep, update_all,
}
use qing.Timer.Tables.{table_eq}
use qing.Timer.Visit.{is_due, called_back, read_once, visit-Visited}
use qing.Timer.Locks.{looping}
use qing.Timer.Locks.Deeds.{handed_out}
use qing.Timer.Locks.Moves.{Stands}
use qing.Timer.Locks.Frames.{next-Stands, begin-Stands}
use qing.Timer.Locks.Whole.{rearm-once_eq}
use qing.Timer.Valid.{IsValid}
use qing.Timer.Preserve.{Visited-IsValid, sweep-IsValid}
use qing.Timer.Frame.{Carried-some, apply_calls-Extends}
use qing.Timer.Reentry.{
  Doing, calls, Outcome, ends, outcome_of, and_then, do_all, do_one, come_back, node_in, visit_in,
  sweep_in, update_with, update_in,
}

module _ (h : Host) (doings : ℕ → ℕ → List Doing) (inner : TimerThread → Outcome) where
  -- The callbacks make the calls of the host and do nothing else.
  abbrev AllCalls : Type 0
  AllCalls = (fp n : ℕ) → doings fp n ≡ map calls (h.actions fp n)

  do_all-calls :
      (cs : List Call) (e : TimerThread)
      → do_all h doings inner (map calls cs) e ≡ outcome_of (apply_calls h cs e)
  unfolding do_all do_one and_then apply_calls
  do_all-calls [] e = refl
  do_all-calls (c ∷ cs) e = elim (Option-cases (apply_call h c e)) [
    | inl q ↦ rw q refl
    | inr (e1, q) ↦ rw q (do_all-calls cs e1)
  ]

  -- The calls leave the node in its map, and whether it runs once.
  come_back-calls :
      (s : Slot) (k : ℕ) (t : ETimer) (e : TimerThread)
      → IsValid e
      → find k (table s e) ≡ some t
      → and_then
          (outcome_of (apply_calls h (h.actions t.fp (suc e.reads)) (called_back k e)))
          (come_back h doings inner s k)
        ≡ outcome_of (fire h s k t (read_once e))
  unfolding and_then come_back fire
  come_back-calls s k t e v f =
      let cs = h.actions t.fp (suc e.reads) in
      elim (Option-cases (apply_calls h cs (called_back k e))) [
        | inl q ↦ rw q refl
        | inr (e1, q) ↦
            let x = apply_calls-Extends h cs (called_back k e) q in
            let there : find k (table s (called_back k e)) ≡ some t =
              rw (table_eq s e (called_back k e) refl refl) f in
            let (u, g, kept) =
              Carried-some (rw there at (x.carries s k (handed_out s k t e v f))) in
            rw (q, come_back, g) (ap ends (rearm-once_eq h s k t u e1 kept.run_once))
      ]

  visit_in-calls :
      (s : Slot) (k : ℕ) (t : ETimer) (e : TimerThread)
      → AllCalls
      → IsValid e
      → find k (table s e) ≡ some t
      → visit_in h doings inner s k e ≡ outcome_of (visit h s k e)
  unfolding visit_in node_in visit visit_node get_clock fire rearm
  visit_in-calls s k t e all v f = elim (Bool-cases t.need_delete) [
    | inl m ↦ rw (visit_in, visit, f, m) refl
    | inr m ↦ elim (Bool-cases (is_due h t e)) [
      | inr w ↦ rw (visit_in, visit, f, m, w) refl
      | inl w ↦
          rw
            (
              visit_in,
              visit,
              f,
              m,
              w,
              all t.fp (suc e.reads),
              do_all-calls (h.actions t.fp (suc e.reads)) (called_back k e),
            )
            (come_back-calls s k t e v f)
    ]
  ]

  sweep_in-calls :
      (s : Slot) (fuel : ℕ) (position : Option ℕ) (e : TimerThread)
      → AllCalls
      → IsValid e
      → Stands (looping s position) e
      → sweep_in h doings inner s fuel position e ≡ outcome_of (sweep h s fuel position e)
  unfolding sweep_in sweep and_then
  sweep_in-calls s zero position e all v st = refl
  sweep_in-calls s (suc fuel) none e all v st = refl
  sweep_in-calls s (suc fuel) (some k) e all v (t, f) = elim (Option-cases (visit h s k e)) [
    | inl q ↦ rw (visit_in-calls s k t e all v f, q) refl
    | inr (e1, q) ↦
        let v1 = Visited-IsValid h (visit-Visited h s k e q) v in
        rw (visit_in-calls s k t e all v f, q)
          (sweep_in-calls s fuel (next k (table s e1)) e1 all v1 (next-Stands h s e1 v1 s k e1))
  ]

  update_with-calls :
      (fuel : ℕ) (e : TimerThread)
      → AllCalls
      → IsValid e
      → update_with h doings inner fuel e ≡ outcome_of (update_all h fuel e)
  unfolding update_with update_all and_then
  update_with-calls fuel e all v =
      let first =
        sweep_in-calls slot1 fuel (begin (table slot1 e)) e all v
          (begin-Stands h slot1 e v slot1) in
      elim (Option-cases (sweep h slot1 fuel (begin (table slot1 e)) e)) [
        | inl q ↦ rw (first, q) refl
        | inr (e1, q) ↦
            let v1 = sweep-IsValid h slot1 fuel (begin (table slot1 e)) e v q in
            rw (first, q)
              (sweep_in-calls slot2 fuel (begin (table slot2 e1)) e1 all v1
                (begin-Stands h slot1 e1 v1 slot2))
      ]

module _ (h : Host) (doings : ℕ → ℕ → List Doing) where
  -- In a valid engine, if the callbacks call `Register`, `RegisterByMilSec` and `UnRegister` alone: no
  -- iterator or reference of `Update` dangles, and it ends exactly as the pass does that knows no
  -- other calls, on any fuel and depth.
  pub update_in-calls :
      (depth fuel : ℕ) (e : TimerThread)
      → ((fp n : ℕ) → doings fp n ≡ map calls (h.actions fp n))
      → IsValid e
      → update_in h doings (suc depth) fuel e ≡ outcome_of (update_all h fuel e)
  unfolding update_in
  update_in-calls depth fuel e all v =
      update_with-calls h doings (update_in h doings depth fuel) fuel e all v
