-- ===== src/Timer/Doomed.antt =====
-- A pass of `Update` over a timer that waits for its deletion.
use qing.Common.{
  ℕ, zero, suc, ◌≤◌, ◌≡◌, refl, ◌∙◌, ◌≢◌, ◌⊎◌, inl, inr, Option, none, some, arith, Option-cases,
  Bool-cases, ◌==◌, ==_iff, ne_of_==_false, count,
}
use qing.Common.OrdMap.{find, find-update_self, next, begin, next-reaches, begin-reaches}
use qing.Timer.Defs.{
  Slot, slot1, slot2, TimerThread, table, over, marked, Host, sweep, update_all, unregister_timer,
}
use qing.Timer.Visit.{
  sweep-keeps, sweep-step, update_all-loops, Visited, missing, deleted, waiting, fires,
}
use qing.Timer.Valid.{IsValid}
use qing.Timer.Preserve.{Visited-IsValid, sweep-IsValid}
use qing.Timer.Frame.{Carried-some}
use qing.Timer.Passes.{Visited-Passes, Visited-missing}
use qing.Timer.Deleted.{Settled, Doomed, erase-Settled, Passes-count, sweep-Settled}

module _ (h : Host) where
  -- A visit elsewhere leaves the mark.
  pub visit-Doomed :
      {s s' : Slot} {j k n : ℕ} {e e' : TimerThread}
      → IsValid e
      → Visited h s' j e e'
      → (s ≡ s' → k ≢ j)
      → Doomed s k n e
      → Doomed s k n e'
  visit-Doomed {s} {s'} {j} {k} {n} {e} {e'} v vis ne d =
      let (t, f, m) = d.marks in
      elim (Bool-cases (k == j)) [
        | inl same ↦
            let k_is_j = (==_iff k j).0 same in
            let missed = v.apart s s' k t (λ p. ne p k_is_j) f in
            rw (Visited-missing h vis (rw k_is_j at missed)) d
        | inr other ↦
            let p = Visited-Passes h vis in
            let (u, f', kept) = Carried-some (rw f at (p.carries s k d.old ne)) in
            record {
              old = omega (arith, d, p.ids);
              marks = (u, f', kept.stays_marked m);
              runs = Passes-count h p (ne_of_==_false k j other) ∙ d.runs;
            }
      ]

  -- The visit of the marked timer takes it out.
  pub visit-marked :
      {s : Slot} {k n : ℕ} {e e' : TimerThread}
      → IsValid e
      → Visited h s k e e'
      → Doomed s k n e
      → Settled k n e'
  visit-marked v (missing f q) d = cc (d.marks.1)
  visit-marked {s} {k} {n} {e} v (deleted t f m q) d =
      rw q (erase-Settled s k n t e v d.old f d.runs)
  visit-marked v (waiting t f m w q) d = ground (arith, d.marks.1, d.marks.2)
  visit-marked v (fires t e1 f m w p q) d = ground (arith, d.marks.1, d.marks.2)

  sweep-Doomed_other :
      (s s' : Slot) (fuel : ℕ) (position : Option ℕ) (k n : ℕ) (e : TimerThread) {e' : TimerThread}
      → s ≢ s'
      → IsValid e
      → Doomed s k n e
      → sweep h s' fuel position e ≡ some e'
      → Doomed s k n e'
  sweep-Doomed_other s s' fuel position k n e ne v d p =
      (sweep-keeps h s' (λ x. IsValid x × Doomed s k n x)
        (λ j x x' (w, b) vis. (Visited-IsValid h vis w, visit-Doomed w vis (λ q. absurd (ne q)) b))
        fuel position e (v, d) p).1

  -- A sweep that has not come past the marked timer takes it out, and does not run it.
  sweep-Doomed :
      (s : Slot) (fuel : ℕ) (position : Option ℕ) (k n : ℕ) (e : TimerThread) {e' : TimerThread}
      → ((c : ℕ) × (position ≡ some c) × (c ≤ k))
      → IsValid e
      → Doomed s k n e
      → sweep h s fuel position e ≡ some e'
      → Settled k n e'
  unfolding sweep
  sweep-Doomed s zero position k n e r v d p = cc
  sweep-Doomed s (suc fuel) none k n e r v d p = cc (r.1)
  sweep-Doomed s (suc fuel) (some j) k n e r v d p =
      let (e1, vis, p2) = sweep-step h s fuel j e p in
      let v1 = Visited-IsValid h vis v in
      elim (Bool-cases (k == j)) [
        | inl same ↦
            let q = (==_iff k j).0 same in
            sweep-Settled h s fuel (next j (table s e1)) k n e1 (visit-marked v (rw (← q) at vis) d)
              p2
        | inr other ↦
            let d1 = visit-Doomed v vis (λ _. ne_of_==_false k j other) d in
            sweep-Doomed s fuel (next j (table s e1)) k n e1
              (next-reaches 1 j k d1.marks.0 (table s e1) (v1.sorted s) d1.marks.1
                (ground (arith, r.1, r.2)))
              v1 d1 p2
      ]

  pub update_all-Settled :
      (fuel k n : ℕ) (e : TimerThread) {e' : TimerThread}
      → Settled k n e
      → update_all h fuel e ≡ some e'
      → Settled k n e'
  unfolding update_all
  update_all-Settled fuel k n e d p =
      let (e1, p1, p2) = update_all-loops h fuel e p in
      sweep-Settled h slot2 fuel (begin (table slot2 e1)) k n e1
        (sweep-Settled h slot1 fuel (begin (table slot1 e)) k n e d p1) p2

  -- A pass takes a marked timer out, in whichever map it is.
  pub update_all-Doomed :
      (s : Slot) (fuel k n : ℕ) (e : TimerThread) {e' : TimerThread}
      → IsValid e
      → Doomed s k n e
      → update_all h fuel e ≡ some e'
      → Settled k n e'
  unfolding update_all
  update_all-Doomed slot1 fuel k n e v d p =
      let (e1, p1, p2) = update_all-loops h fuel e p in
      sweep-Settled h slot2 fuel (begin (table slot2 e1)) k n e1
        (sweep-Doomed slot1 fuel (begin (table slot1 e)) k n e
          (begin-reaches 1 k d.marks.0 (table slot1 e) (v.sorted slot1) d.marks.1) v d p1)
        p2
  update_all-Doomed slot2 fuel k n e v d p =
      let (e1, p1, p2) = update_all-loops h fuel e p in
      let v1 = sweep-IsValid h slot1 fuel (begin (table slot1 e)) e v p1 in
      let d1 = sweep-Doomed_other slot2 slot1 fuel (begin (table slot1 e)) k n e (λ x. cc) v d p1 in
      sweep-Doomed slot2 fuel (begin (table slot2 e1)) k n e1
        (begin-reaches 1 k d1.marks.0 (table slot2 e1) (v1.sorted slot2) d1.marks.1) v1 d1 p2

-- What `UnRegister` leaves: a marked timer, or an id that is in neither map.
pub unregister_timer-cases :
    (k : ℕ) (e : TimerThread)
    → k ≤ e.cur_timer_id
    → ((s : Slot) × Doomed s k (count k e.fired) (unregister_timer k e))
      ⊎ Settled k (count k e.fired) (unregister_timer k e)
unfolding unregister_timer table over
unregister_timer-cases k e old = elim (Option-cases (find k e.timers2)) [
  | inr (t, f) ↦ inl (
    slot2,
    record {
      old = ground arith;
      marks = (marked t, ground (arith, find-update_self k marked e.timers2), refl);
      runs = ground arith;
    },
  )
  | inl f ↦ elim (Option-cases (find k e.timers1)) [
    | inr (t, g) ↦ inl (
      slot1,
      record {
        old = ground arith;
        marks = (marked t, ground (arith, find-update_self k marked e.timers1), refl);
        runs = ground arith;
      },
    )
    | inl g ↦ inr (record {
      old = ground arith;
      gone = λ s. elim s as (λ x. find k (table x (unregister_timer k e)) ≡ none) [
        | slot1 ↦ ground arith
        | slot2 ↦ ground arith
      ];
      runs = ground arith;
    })
  ]
]
