-- ===== src/Timer/Pace.antt =====
-- How often a timer runs, by the clock.
use qing.Common.{
  ℕ, suc, ◌+◌, ◌-◌, ◌*◌, ◌^◌, ◌≤◌, ◌<◌, ◌≡◌, refl, sym, ap, ◌∙◌, inl, inr, true, some, ◌∷◌, arith,
  Bool-cases, ◌==◌, ==_iff, ne_of_==_false, count,
}
use qing.Common.OrdMap.{find, erase}
use qing.Timer.Defs.{ETimer, Slot, TimerThread, table, restarted, Host, apply_calls, rearm}
use qing.Timer.Tables.{over_rest, table_eq, Slot-cases}
use qing.Timer.Register.{Effect}
use qing.Timer.Visit.{Visited, missing, deleted, waiting, fires, called_back, read_once, is_due}
use qing.Timer.Valid.{IsValid}
use qing.Timer.Frame.{Carried-none, Carried-some, apply_calls-Extends, Effect-Extends}
use qing.Timer.Passes.{Visited-Passes, Visited-missing, rearm_rest}
use qing.Timer.Deleted.{Settled, erase-Settled, visit-Settled, Passes-count}
use qing.Timer.OneShot.{fires-Settled}
use qing.Timer.Timing.{is_due-elapsed}
use qing.Timer.Reads.{Effect-reads, apply_calls-reads, rearm-reads, Visited-reads, rearm_again}

-- `n` runs of the cost `cost` fit between `start` and the clock's reading `j`.
abbrev pub Fit : Host → ℕ → ℕ → ℕ → ℕ → Type 0
Fit h cost start n j = n * cost + start * 1_000_000 ≤ h.clock j * 1_000_000

-- A timer whose interval costs `cost`, since `start`: it ticks from its last start on, or is gone.
pub data Paced (h : Host) (k cost start : ℕ) (e : TimerThread) : Type 0 where
  ticking :
      (s : Slot) (t : ETimer) (j : ℕ)
      → k ≤ e.cur_timer_id
      → find k (table s e) ≡ some t
      → t.interval * h.ticks ≡ cost
      → t.leftsecs ≡ t.interval
      → t.startclock ≡ h.clock j
      → j ≤ e.reads
      → Fit h cost start (count k e.fired) j
      → Paced h k cost start e
  settled : (n j : ℕ) → Settled k n e → j ≤ e.reads → Fit h cost start n j → Paced h k cost start e

fit_one_more :
    (cost start n began now : ℕ)
    → n * cost + start * 1_000_000 ≤ began * 1_000_000
    → began ≤ now
    → cost ≤ (now - began) * 1_000_000
    → suc n * cost + start * 1_000_000 ≤ now * 1_000_000
fit_one_more cost start n began now h le due = omega arith

module _ (h : Host) (k cost start : ℕ) (pos_ticks : 0 < h.ticks)
    (rises : (i j : ℕ) → i ≤ j → h.clock i ≤ h.clock j) (fits : (i : ℕ) → h.clock i < 2 ^ 64) where
  -- A run begins a new span of the timer, or is its last.
  fires-Paced :
      (s : Slot) (t : ETimer) (j : ℕ) (e e1 : TimerThread)
      → IsValid e
      → k ≤ e.cur_timer_id
      → find k (table s e) ≡ some t
      → t.interval * h.ticks ≡ cost
      → t.leftsecs ≡ t.interval
      → t.startclock ≡ h.clock j
      → j ≤ e.reads
      → Fit h cost start (count k e.fired) j
      → is_due h t e ≡ true
      → apply_calls h (h.actions t.fp (suc e.reads)) (called_back k e) ≡ some e1
      → Paced h k cost start (rearm h s k t e1)
  fires-Paced s t j e e1 v old f price whole began before fit due p =
      let c : TimerThread = called_back k e in
      let x = apply_calls-Extends h (h.actions t.fp (suc e.reads)) c p in
      let more = apply_calls-reads h (h.actions t.fp (suc e.reads)) c p in
      let (cur, log) = rearm_rest h s k t e1 in
      let reads = rearm-reads h s k t e1 in
      let le = rises j e.reads before in
      let spent = is_due-elapsed h s k t e pos_ticks (rw began le) (fits e.reads) due in
      let now =
        fit_one_more cost start (count k e.fired) (h.clock j) (h.clock e.reads) fit le
          (rw (whole, price, began) at spent) in
      let one : count k (k ∷ e.fired) ≡ suc (count k e.fired) = ground arith in
      let later = rises e.reads e1.reads (omega arith) in
      elim (Bool-cases t.run_once) [
        | inl once ↦
            settled (suc (count k e.fired)) e1.reads
              (fires-Settled h s k (count k e.fired) t e e1 v old f once refl p) (omega arith)
              (omega arith)
        | inr again ↦
            let there : find k (table s c) ≡ some t = rw (table_eq s e c refl refl) f in
            let (u, f', kept) = Carried-some (rw there at (x.carries s k old)) in
            ticking s (restarted (h.clock e1.reads) u) e1.reads (omega (arith, cur, x.ids))
              (rearm_again h s k t u e1 again f') (ap (λ i. i * h.ticks) kept.interval ∙ price) refl
              refl (omega arith) (rw (ap (count k) (log ∙ x.log) ∙ one) (omega (arith, now, later)))
      ]

  pub visit-Paced :
      {s : Slot} {i : ℕ} {e e' : TimerThread}
      → IsValid e
      → Visited h s i e e'
      → Paced h k cost start e
      → Paced h k cost start e'
  visit-Paced v vis (settled n j d before fit) =
      settled n j (visit-Settled h vis d) (omega (arith, before, Visited-reads h vis)) fit
  visit-Paced {s} {i} {e} {e'} v vis (ticking s' t j old f price whole began before fit) =
      let more = Visited-reads h vis in
      elim (Bool-cases (k == i)) [
        | inr other ↦
            let p = Visited-Passes h vis in
            let ne = ne_of_==_false k i other in
            let (u, f', kept) = Carried-some (rw f at (p.carries s' k old (λ _. ne))) in
            ticking s' u j (omega (arith, p.ids)) f' (ap (λ i. i * h.ticks) kept.interval ∙ price)
              (kept.leftsecs ∙ whole ∙ sym kept.interval) (kept.startclock ∙ began)
              (omega (arith, before, more)) (rw (Passes-count h p ne) fit)
        | inl same ↦ elim (Slot-cases s' s) [
          | inr q ↦
              let out = v.apart s' s k t q f in
              rw (Visited-missing h vis (rw ((==_iff k i).0 same) at out))
                (ticking s' t j old f price whole began before fit)
          | inl q ↦ own (rw (← (==_iff k i).0 same, ← q) at vis)
        ]
      ]
    where
      own : Visited h s' k e e' → Paced h k cost start e'
      own (missing g q) = cc
      own (deleted u g m q) =
          let d = erase-Settled s' k (count k e.fired) t e v old f refl in
          rw q (
            settled (count k e.fired) j d (omega (arith, before, (over_rest s' (erase k) e).1)) fit)
      own (waiting u g m w q) = rw q (
          ticking s' t j old (rw (table_eq s' e (read_once e) refl refl) f) price whole began
            (omega arith) fit)
      own (fires u e1 g m w p q) = rw q (
          let same : u ≡ t = ground arith in
          fires-Paced s' u j e e1 v old g (ap (λ x. x.interval * h.ticks) same ∙ price)
            (ground arith) (ap (λ x. x.startclock) same ∙ began) before fit w p)

  pub Effect-Paced :
      {e e' : TimerThread} → Effect h e e' → Paced h k cost start e → Paced h k cost start e'
  Effect-Paced eff (settled n j d before fit) =
      let x = Effect-Extends h eff in
      settled n j
        (record {
          old = omega (arith, d, x.ids);
          gone = λ s. Carried-none (rw (d.gone s) at (x.carries s k d.old));
          runs = ap (count k) x.log ∙ d.runs;
        })
        (omega (arith, before, Effect-reads h eff)) fit
  Effect-Paced eff (ticking s t j old f price whole began before fit) =
      let x = Effect-Extends h eff in
      let (u, f', kept) = Carried-some (rw f at (x.carries s k old)) in
      ticking s u j (omega (arith, x.ids)) f' (ap (λ i. i * h.ticks) kept.interval ∙ price)
        (kept.leftsecs ∙ whole ∙ sym kept.interval) (kept.startclock ∙ began)
        (omega (arith, before, Effect-reads h eff)) (rw (ap (count k) x.log) fit)

  pub Paced-Fit :
      {e : TimerThread} → Paced h k cost start e → Fit h cost start (count k e.fired) e.reads
  Paced-Fit {e} (ticking s t j old f price whole began before fit) =
      omega (arith, fit, rises j e.reads before)
  Paced-Fit {e} (settled n j d before fit) =
      rw (d.runs) (omega (arith, fit, rises j e.reads before))
