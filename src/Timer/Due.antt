-- ===== src/Timer/Due.antt =====
-- A timer whose interval is over when a pass of `Update` starts.
use qing.Common.{
  ℕ, zero, suc, ◌≤◌, ◌<◌, ◌≡◌, refl, ap, ◌∙◌, ◌≢◌, ◌⊎◌, inl, inr, true, Option, none, some, arith,
  leb, length, Bool-cases, ◌==◌, ==_iff, ne_of_==_false, count,
}
use qing.Common.OrdMap.{find, next, begin, next-reaches, begin-reaches}
use qing.Timer.Clock.{get_interval_macro_secs}
use qing.Timer.Defs.{ETimer, Slot, slot1, slot2, TimerThread, table, Host, sweep, update_all}
use qing.Timer.Tables.{Slot-cases}
use qing.Timer.Visit.{
  sweep-keeps, sweep-step, update_all-loops, Visited, missing, deleted, waiting, fires, called_back,
}
use qing.Timer.Valid.{IsValid}
use qing.Timer.Preserve.{Visited-IsValid, sweep-IsValid}
use qing.Timer.Frame.{Carried-some, apply_calls-Extends}
use qing.Timer.Passes.{Visited-Passes, Visited-missing, rearm_rest}
use qing.Timer.Deleted.{IsGone, Settled, erase-Settled, visit-Settled, Passes-count}
use qing.Timer.Reads.{Visited-reads}
use qing.Timer.Growth.{AllSpare}
use qing.Timer.Termination.{update_all_terminates}

-- The clock's readings from now on find that the timer's interval is over.
abbrev pub StaysDue : Host → ETimer → TimerThread → Type 0
StaysDue h t e =
    (i : ℕ)
    → e.reads ≤ i
    → leb t.leftsecs (get_interval_macro_secs h.ticks (h.clock i) t.startclock) ≡ true

-- The timer `k` is due, and was last seen in the log `n` times.
record Waits (h : Host) (s : Slot) (k n : ℕ) (e : TimerThread) : Type 0 where
  old : k ≤ e.cur_timer_id
  stands : (t : ETimer) × (find k (table s e) ≡ some t) × StaysDue h t e
  runs : count k e.fired ≡ n

-- It has run since, or was unregistered and is gone.
data Served (k n : ℕ) (e : TimerThread) : Type 0 where
  ran : n < count k e.fired → Served k n e
  dropped : Settled k n e → Served k n e

module _ (h : Host) where
  visit-Served :
      {s : Slot} {j k n : ℕ} {e e' : TimerThread}
      → Visited h s j e e'
      → Served k n e
      → Served k n e'
  visit-Served {s} {j} {k} {n} {e} {e'} vis (ran lt) = elim (Visited-Passes h vis).log [
    | inl q ↦ ran (rw q lt)
    | inr q ↦ ran (rw q (ground arith))
  ]
  visit-Served vis (dropped d) = dropped (visit-Settled h vis d)

  sweep-Served :
      (s : Slot) (fuel : ℕ) (position : Option ℕ) (k n : ℕ) (e : TimerThread) {e' : TimerThread}
      → Served k n e
      → sweep h s fuel position e ≡ some e'
      → Served k n e'
  sweep-Served s fuel position k n =
      sweep-keeps h s (Served k n) (λ j e e' d vis. visit-Served vis d) fuel position

  -- A visit elsewhere leaves the timer as it is.
  visit-Waits :
      {s s' : Slot} {j k n : ℕ} {e e' : TimerThread}
      → IsValid e
      → Visited h s' j e e'
      → (s ≡ s' → k ≢ j)
      → Waits h s k n e
      → Waits h s k n e'
  visit-Waits {s} {s'} {j} {k} {n} {e} {e'} v vis ne d =
      let (t, f, due) = d.stands in
      elim (Bool-cases (k == j)) [
        | inl same ↦
            let k_is_j = (==_iff k j).0 same in
            let missed = v.apart s s' k t (λ p. ne p k_is_j) f in
            rw (Visited-missing h vis (rw k_is_j at missed)) d
        | inr other ↦
            let p = Visited-Passes h vis in
            let (u, f', same) = Carried-some (rw f at (p.carries s k d.old ne)) in
            record {
              old = omega (arith, d.old, p.ids);
              stands = (
                u,
                f',
                λ i le.
                    rw (same.leftsecs, same.startclock)
                      (due i (omega (arith, Visited-reads h vis))),
              );
              runs = Passes-count h p (ne_of_==_false k j other) ∙ d.runs;
            }
      ]

  -- Its own visit runs it, or takes it out if it is marked.
  visit_own-Served :
      {s : Slot} {k n : ℕ} {e e' : TimerThread}
      → IsValid e
      → Visited h s k e e'
      → Waits h s k n e
      → Served k n e'
  visit_own-Served v (missing f q) d = cc (d.stands.1)
  visit_own-Served {s} {k} {n} {e} v (deleted t f m q) d =
      rw q (dropped (erase-Settled s k n t e v d.old f d.runs))
  visit_own-Served {s} {k} {n} {e} v (waiting t f m w q) d =
      let (u, f', due) = d.stands in let now = due e.reads (omega arith) in ground arith
  visit_own-Served {s} {k} {n} {e} v (fires t e1 f m w p q) d =
      let log =
        (rearm_rest h s k t e1).1
        ∙ (apply_calls-Extends h (h.actions t.fp (suc e.reads)) (called_back k e) p).log in
      let one = ap (count k) log in rw q (ran (ground (arith, d.runs)))

  sweep_other-Waits :
      (s s' : Slot) (fuel : ℕ) (position : Option ℕ) (k n : ℕ) (e : TimerThread) {e' : TimerThread}
      → s ≢ s'
      → IsValid e
      → Waits h s k n e
      → sweep h s' fuel position e ≡ some e'
      → Waits h s k n e'
  sweep_other-Waits s s' fuel position k n e ne v d p =
      (sweep-keeps h s' (λ x. IsValid x × Waits h s k n x)
        (λ j x x' (w, b) vis. (Visited-IsValid h vis w, visit-Waits w vis (λ q. absurd (ne q)) b))
        fuel position e (v, d) p).1

  -- A sweep that has not come past the timer serves it.
  sweep_own-Served :
      (s : Slot) (fuel : ℕ) (position : Option ℕ) (k n : ℕ) (e : TimerThread) {e' : TimerThread}
      → ((c : ℕ) × (position ≡ some c) × (c ≤ k))
      → IsValid e
      → Waits h s k n e
      → sweep h s fuel position e ≡ some e'
      → Served k n e'
  unfolding sweep
  sweep_own-Served s zero position k n e r v d p = cc
  sweep_own-Served s (suc fuel) none k n e r v d p = cc (r.1)
  sweep_own-Served s (suc fuel) (some j) k n e r v d p =
      let (e1, vis, p2) = sweep-step h s fuel j e p in
      let v1 = Visited-IsValid h vis v in
      elim (Bool-cases (k == j)) [
        | inl same ↦
            let q = (==_iff k j).0 same in
            sweep-Served s fuel (next j (table s e1)) k n e1
              (visit_own-Served v (rw (← q) at vis) d) p2
        | inr other ↦
            let d1 = visit-Waits v vis (λ _. ne_of_==_false k j other) d in
            sweep_own-Served s fuel (next j (table s e1)) k n e1
              (next-reaches 1 j k d1.stands.0 (table s e1) (v1.sorted s) d1.stands.1
                (ground (arith, r.1, r.2)))
              v1 d1 p2
      ]

  update_all-Served :
      (s : Slot) (fuel k n : ℕ) (e : TimerThread) {e' : TimerThread}
      → IsValid e
      → Waits h s k n e
      → update_all h fuel e ≡ some e'
      → Served k n e'
  unfolding update_all
  update_all-Served s fuel k n e v d p =
      let (e1, p1, p2) = update_all-loops h fuel e p in
      let v1 = sweep-IsValid h slot1 fuel (begin (table slot1 e)) e v p1 in
      let starts = begin-reaches 1 k d.stands.0 (table s e) (v.sorted s) d.stands.1 in
      elim (Slot-cases s slot1) [
        | inl q ↦
            sweep-Served slot2 fuel (begin (table slot2 e1)) k n e1
              (sweep_own-Served slot1 fuel (begin (table slot1 e)) k n e (rw q at starts) v
                (rw q at d) p1)
              p2
        | inr q ↦
            let d1 = sweep_other-Waits s slot1 fuel (begin (table slot1 e)) k n e q v d p1 in
            let d2 = rw (second s q) at d1 in
            sweep_own-Served slot2 fuel (begin (table slot2 e1)) k n e1
              (begin-reaches 1 k d2.stands.0 (table slot2 e1) (v1.sorted slot2) d2.stands.1) v1 d2
              p2
      ]
    where
      second : (s : Slot) → s ≢ slot1 → s ≡ slot2
      second slot1 ne = absurd (ne refl)
      second slot2 ne = refl

  -- In a valid engine whose callbacks do not call `Update` and put timers into neither map, a pass
  -- of `Update` ends on fuel above the number of each map's nodes. It has then run a given timer at
  -- least once more, if this stays due from the start of the pass on, or the timer is gone.
  pub due_timer_runs :
      (s : Slot) (fuel k : ℕ) (t : ETimer) (e : TimerThread)
      → IsValid e
      → k ≤ e.cur_timer_id
      → find k (table s e) ≡ some t
      → StaysDue h t e
      → ((s' : Slot) (fp n : ℕ) → AllSpare s' (h.actions fp n))
      → ((s' : Slot) → length (table s' e) < fuel)
      → (e' : TimerThread) × (update_all h fuel e ≡ some e')
        × ((count k e.fired < count k e'.fired) ⊎ IsGone k e')
  due_timer_runs s fuel k t e v old f due spared enough =
      let (e', p) = update_all_terminates h fuel e spared enough in
      let d : Waits h s k (count k e.fired) e = record {
        old = old;
        stands = (t, f, due);
        runs = refl;
      } in
      (
        e',
        p,
        elim (update_all-Served s fuel k (count k e.fired) e v d p) [
          | ran lt ↦ inl lt
          | dropped gone ↦ inr gone.gone
        ],
      )
