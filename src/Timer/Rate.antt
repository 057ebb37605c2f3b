-- ===== src/Timer/Rate.antt =====
-- The rate of a timer that `Register` or `RegisterByMilSec` takes.
use qing.Common.{
  true, false, if◌then◌else◌, ℕ, suc, ◌-◌, ◌*◌, ◌^◌, ◌≤◌, ◌<◌, ◌≡◌, refl, ap, ◌∙◌, inl, inr, Bool,
  some, List, arith, Option-cases, count, ℤ,
}
use qing.Common.OrdMap.{insert, find-insert_self}
use qing.Timer.Defs.{Slot, TimerThread, table, Host, spin, register_sec, register_milsec}
use qing.Timer.Tables.{table-over_self, over_rest, table_eq}
use qing.Timer.Register.{
  timer_of, numbered, enrolled, sec_interval, milsec_interval, register_sec-landed,
  register_sec-spins, register_milsec-landed, register_milsec-spins,
}
use qing.Timer.Valid.{IsValid, insert-IsValid}
use qing.Timer.History.{Event, history, history-carries}
use qing.Timer.Pace.{Paced, ticking, visit-Paced, Effect-Paced, Paced-Fit}

module _ (h : Host) (pos_ticks : 0 < h.ticks) (rises : (i j : ℕ) → i ≤ j → h.clock i ≤ h.clock j)
    (fits : (i : ℕ) → h.clock i < 2 ^ 64) where
  enrolled-Paced :
      (s : Slot) (once : Bool) (interval fp : ℕ) (e : TimerThread)
      → IsValid e
      → count (suc e.cur_timer_id) e.fired ≡ 0
      → Paced h
          (suc e.cur_timer_id)
          (interval * h.ticks)
          (h.clock e.reads)
          (enrolled s (timer_of h once interval fp e) e)
  enrolled-Paced s once interval fp e v runs =
      let t = timer_of h once interval fp e in
      let (cur, reads, log) = over_rest s (insert t.timer_id t) (numbered e) in
      let same : table s (numbered e) ≡ table s e = table_eq s e (numbered e) refl refl in
      ticking s t e.reads (omega (arith, cur))
        (rw (table-over_self s (insert t.timer_id t) (numbered e), same)
          (find-insert_self 1 t.timer_id t (table s e) (v.sorted s)
            (v.fresh s t.timer_id (omega arith))))
        refl refl refl (omega (arith, reads)) (rw (ap (count t.timer_id) log ∙ runs) (omega arith))

  -- The runs of a timer that was enrolled, after any history.
  enrolled-rate :
      (s : Slot) (once : Bool) (interval fp : ℕ) (later : List Event) (e : TimerThread)
      {e2 : TimerThread}
      → IsValid e
      → count (suc e.cur_timer_id) e.fired ≡ 0
      → history h later (enrolled s (timer_of h once interval fp e) e) ≡ some e2
      → count (suc e.cur_timer_id) e2.fired * (interval * h.ticks)
        ≤ (h.clock e2.reads - h.clock e.reads) * 1_000_000
  enrolled-rate s once interval fp later e v runs q =
      let k = suc e.cur_timer_id in
      let cost = interval * h.ticks in
      let start = h.clock e.reads in
      let t = timer_of h once interval fp e in
      let paced =
        history-carries h (Paced h k cost start)
          (λ s' j x x' w vis. visit-Paced h k cost start pos_ticks rises fits w vis)
          (λ x x'. Effect-Paced h k cost start pos_ticks rises fits) later (enrolled s t e)
          (insert-IsValid e (numbered e) s t v refl refl refl refl)
          (enrolled-Paced s once interval fp e v runs) q in
      omega (arith, Paced-Fit h k cost start pos_ticks rises fits paced)

  -- In a valid engine that has not logged a run of the id to come: a timer that `Register` or
  -- `RegisterByMilSec` takes, periodic or not, gets this id, and however calls and passes follow and
  -- whatever calls of `Register`, `RegisterByMilSec` and `UnRegister` the callbacks make, if none
  -- calls `Update`: its runs so far need no more time, at an interval each, than the
  -- ticks of the clock from the registration on make up, if the clock ticks, and its readings fit 64
  -- bits and do not go back.
  pub register_rate :
      (by_milsec : Bool) (rounds : List (Bool × Bool)) (once : Bool) (i : ℤ) (fp : ℕ)
      (later : List Event) (e : TimerThread) {id : ℕ} {e1 e2 : TimerThread}
      → IsValid e
      → count (suc e.cur_timer_id) e.fired ≡ 0
      → (if by_milsec
          then register_milsec h rounds once i fp e
          else register_sec h rounds once i fp e)
        ≡ some (id, e1)
      → history h later e1 ≡ some e2
      → (id ≡ suc e.cur_timer_id)
        × (count id e2.fired * ((if by_milsec then milsec_interval i else sec_interval i) * h.ticks)
            ≤ (h.clock e2.reads - h.clock e.reads) * 1_000_000)
  register_rate true rounds once i fp later e {id} {e1} {e2} v runs p q =
      elim (Option-cases (spin rounds)) [
        | inl r ↦ cc (register_milsec-spins h rounds once i fp e r)
        | inr (s, r) ↦
            let landed = register_milsec-landed h rounds once i fp e s r in
            let id_is : id ≡ suc e.cur_timer_id = ground arith in
            let e1_is : e1 ≡ enrolled s (timer_of h once (milsec_interval i) fp e) e =
              ground arith in
            (
              id_is,
              rw id_is (enrolled-rate s once (milsec_interval i) fp later e v runs (rw e1_is at q)),
            )
      ]
  register_rate false rounds once i fp later e {id} {e1} {e2} v runs p q =
      elim (Option-cases (spin rounds)) [
        | inl r ↦ cc (register_sec-spins h rounds once i fp e r)
        | inr (s, r) ↦
            let landed = register_sec-landed h rounds once i fp e s r in
            let id_is : id ≡ suc e.cur_timer_id = ground arith in
            let e1_is : e1 ≡ enrolled s (timer_of h once (sec_interval i) fp e) e = ground arith in
            (
              id_is,
              rw id_is (enrolled-rate s once (sec_interval i) fp later e v runs (rw e1_is at q)),
            )
      ]
