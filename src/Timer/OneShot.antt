-- ===== src/Timer/OneShot.antt =====
-- A timer that is registered with `run_once`.
use qing.Common.{
  ℕ, suc, ◌≤◌, ◌≡◌, refl, sym, ap, ◌∙◌, inl, inr, Bool, true, none, some, List, ◌∷◌, arith,
  Option-cases, Bool-cases, ◌==◌, ==_iff, ne_of_==_false, count, ℤ,
}
use qing.Common.OrdMap.{find, insert, find-insert_self}
use qing.Timer.Defs.{ETimer, Slot, TimerThread, table, Host, apply_calls, rearm, spin, register_sec}
use qing.Timer.Tables.{table-over_self, over_rest, table_eq, Slot-cases}
use qing.Timer.Register.{
  Effect, timer_of, numbered, enrolled, sec_interval, register_sec-landed, register_sec-spins,
}
use qing.Timer.Visit.{Visited, missing, deleted, waiting, fires, called_back, read_once}
use qing.Timer.Valid.{IsValid, insert-IsValid}
use qing.Timer.Preserve.{IsValid-rest, apply_calls-IsValid}
use qing.Timer.Frame.{Carried-none, Carried-some, apply_calls-Extends, Effect-Extends}
use qing.Timer.Passes.{Visited-Passes, Visited-missing, rearm_rest, rearm-carries, rearm_once}
use qing.Timer.Deleted.{Settled, erase-Settled, visit-Settled, Passes-count}
use qing.Timer.History.{Event, history, history-carries}

-- A one-shot timer still waits and has not run, or its id is gone and ran `n` times, 1 at most.
pub data OneShot (k : ℕ) (e : TimerThread) : Type 0 where
  pending :
      (s : Slot) (t : ETimer)
      → k ≤ e.cur_timer_id
      → find k (table s e) ≡ some t
      → t.run_once ≡ true
      → count k e.fired ≡ 0
      → OneShot k e
  spent : (n : ℕ) → n ≤ 1 → Settled k n e → OneShot k e

pub OneShot-count : {k : ℕ} {e : TimerThread} → OneShot k e → count k e.fired ≤ 1
OneShot-count (pending s t old f once runs) = omega arith
OneShot-count (spent n le d) = omega (arith, d.runs)

module _ (h : Host) where
  -- After a run of a timer that runs once the id is in neither map.
  pub fires-Settled :
      (s : Slot) (k n : ℕ) (t : ETimer) (e e1 : TimerThread)
      → IsValid e
      → k ≤ e.cur_timer_id
      → find k (table s e) ≡ some t
      → t.run_once ≡ true
      → count k e.fired ≡ n
      → apply_calls h (h.actions t.fp (suc e.reads)) (called_back k e) ≡ some e1
      → Settled k (suc n) (rearm h s k t e1)
  fires-Settled s k n t e e1 v old f once runs p =
      let c : TimerThread = called_back k e in
      let vc = IsValid-rest h e (suc e.reads) (k ∷ e.fired) v in
      let v1 = apply_calls-IsValid h (h.actions t.fp (suc e.reads)) c vc p in
      let x = apply_calls-Extends h (h.actions t.fp (suc e.reads)) c p in
      let (cur, log) = rearm_rest h s k t e1 in
      record {
        old = omega (arith, cur, x.ids);
        gone = λ s'. elim (Slot-cases s' s) [
          | inl same ↦ rw same (rearm_once h s k t e1 v1 once)
          | inr other ↦
              let out : find k (table s' c) ≡ none =
                rw (table_eq s' e c refl refl) (v.apart s s' k t (λ q. other (sym q)) f) in
              let out1 = Carried-none (rw out at (x.carries s' k old)) in
              Carried-none (rw out1 at (rearm-carries h s s' k k t e1 (λ q. absurd (other q))))
        ];
        runs = ap (count k) (log ∙ x.log) ∙ ground arith;
      }

  visit-OneShot :
      {s : Slot} {j k : ℕ} {e e' : TimerThread}
      → IsValid e
      → Visited h s j e e'
      → OneShot k e
      → OneShot k e'
  visit-OneShot v vis (spent n le d) = spent n le (visit-Settled h vis d)
  visit-OneShot {s} {j} {k} {e} {e'} v vis (pending s' t old f once runs) =
      elim (Bool-cases (k == j)) [
        | inr other ↦
            let p = Visited-Passes h vis in
            let ne = ne_of_==_false k j other in
            let (u, f', kept) = Carried-some (rw f at (p.carries s' k old (λ _. ne))) in
            pending s' u (omega (arith, p.ids)) f' (kept.run_once ∙ once)
              (Passes-count h p ne ∙ runs)
        | inl same ↦ elim (Slot-cases s' s) [
          | inr q ↦
              let out = v.apart s' s k t q f in
              rw (Visited-missing h vis (rw ((==_iff k j).0 same) at out))
                (pending s' t old f once runs)
          | inl q ↦ own (rw (← (==_iff k j).0 same, ← q) at vis)
        ]
      ]
    where
      own : Visited h s' k e e' → OneShot k e'
      own (missing g q) = cc
      own (deleted u g m q) = rw q (spent 0 (omega arith) (erase-Settled s' k 0 t e v old f runs))
      own (waiting u g m w q) =
          rw q (pending s' t old (rw (table_eq s' e (read_once e) refl refl) f) once runs)
      own (fires u e1 g m w p q) =
          rw q (spent 1 (omega arith) (fires-Settled s' k 0 u e e1 v old g (ground arith) runs p))

  Effect-OneShot : {k : ℕ} {e e' : TimerThread} → Effect h e e' → OneShot k e → OneShot k e'
  Effect-OneShot {k} eff (spent n le d) =
      let x = Effect-Extends h eff in
      spent n le (record {
        old = omega (arith, d, x.ids);
        gone = λ s. Carried-none (rw (d.gone s) at (x.carries s k d.old));
        runs = ap (count k) x.log ∙ d.runs;
      })
  Effect-OneShot {k} eff (pending s t old f once runs) =
      let x = Effect-Extends h eff in
      let (u, f', kept) = Carried-some (rw f at (x.carries s k old)) in
      pending s u (omega (arith, x.ids)) f' (kept.run_once ∙ once) (ap (count k) x.log ∙ runs)

  enrolled-OneShot :
      (s : Slot) (interval fp : ℕ) (e : TimerThread)
      → IsValid e
      → count (suc e.cur_timer_id) e.fired ≡ 0
      → OneShot (suc e.cur_timer_id) (enrolled s (timer_of h true interval fp e) e)
  enrolled-OneShot s interval fp e v runs =
      let t = timer_of h true interval fp e in
      let (cur, _, log) = over_rest s (insert t.timer_id t) (numbered e) in
      let same : table s (numbered e) ≡ table s e = table_eq s e (numbered e) refl refl in
      pending s t (omega (arith, cur))
        (rw (table-over_self s (insert t.timer_id t) (numbered e), same)
          (find-insert_self 1 t.timer_id t (table s e) (v.sorted s)
            (v.fresh s t.timer_id (omega arith))))
        refl (ap (count t.timer_id) log ∙ runs)

  -- In a valid engine that has not logged a run of the id to come: a timer that `Register` takes
  -- with `run_once` gets this id, and runs once at most in whatever calls and passes follow,
  -- whatever calls of `Register`, `RegisterByMilSec` and `UnRegister` the callbacks make, if none
  -- calls `Update`.
  pub register_once_runs_once :
      (rounds : List (Bool × Bool)) (i : ℤ) (fp : ℕ) (later : List Event) (e : TimerThread) {id : ℕ}
      {e1 e2 : TimerThread}
      → IsValid e
      → count (suc e.cur_timer_id) e.fired ≡ 0
      → register_sec h rounds true i fp e ≡ some (id, e1)
      → history h later e1 ≡ some e2
      → (id ≡ suc e.cur_timer_id) × (count id e2.fired ≤ 1)
  register_once_runs_once rounds i fp later e {id} {e1} {e2} v runs p q =
      elim (Option-cases (spin rounds)) [
        | inl r ↦ cc (register_sec-spins h rounds true i fp e r)
        | inr (s, r) ↦
            let t = timer_of h true (sec_interval i) fp e in
            let landed = register_sec-landed h rounds true i fp e s r in
            let id_is : id ≡ suc e.cur_timer_id = ground arith in
            let e1_is : e1 ≡ enrolled s t e = ground arith in
            let v1 = insert-IsValid e (numbered e) s t v refl refl refl refl in
            let o =
              history-carries h (OneShot (suc e.cur_timer_id))
                (λ s' j x x' w vis. visit-OneShot w vis) (λ x x'. Effect-OneShot) later
                (enrolled s t e) v1 (enrolled-OneShot s (sec_interval i) fp e v runs)
                (rw e1_is at q) in
            (id_is, rw id_is (OneShot-count o))
      ]
