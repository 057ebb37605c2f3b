-- ===== src/Timer/Passes.antt =====
-- What one visit does to the timers of the engine, by the id.
use qing.Common.{
  ℕ, suc, ◌≤◌, ◌≡◌, refl, ◌∙◌, ◌≢◌, ◌⊎◌, inl, inr, true, none, List, ◌∷◌, arith, Bool-cases,
}
use qing.Common.OrdMap.{
  find, erase, update, find-update_ne, find-erase_ne, find-erase_self, update-IsSorted,
}
use qing.Timer.Defs.{ETimer, Slot, slot1, slot2, TimerThread, table, over, restarted, Host, rearm}
use qing.Timer.Tables.{table-over_self, over_rest, table_eq}
use qing.Timer.Visit.{Visited, missing, deleted, waiting, fires, called_back}
use qing.Timer.Valid.{IsValid}
use qing.Timer.Frame.{Carried, Carried-refl, Carried-trans, Carried-over, apply_calls-Extends}

-- A visit of the node `k` of the map `s`, as the other ids see it.
pub record Passes (s : Slot) (k : ℕ) (e e' : TimerThread) : Type 0 where
  pub ids : e.cur_timer_id ≤ e'.cur_timer_id
  pub log : (e'.fired ≡ e.fired) ⊎ (e'.fired ≡ k ∷ e.fired)
  pub carries :
      (s' : Slot) (j : ℕ)
      → j ≤ e.cur_timer_id
      → (s' ≡ s → j ≢ k)
      → Carried (find j (table s' e)) (find j (table s' e'))

-- The other fields do not bear on an entry.
Carried-rest :
    (s : Slot) (j n : ℕ) (log : List ℕ) (e : TimerThread)
    → Carried (find j (table s e)) (find j (table s (record e { reads = n; fired = log })))
Carried-rest s j n log e =
    rw (table_eq s e (record e { reads = n; fired = log }) refl refl) (Carried-refl _)

erase-carries :
    (s s' : Slot) (j k : ℕ) (e : TimerThread)
    → (s' ≡ s → j ≢ k)
    → Carried (find j (table s' e)) (find j (table s' (over s (erase k) e)))
erase-carries s s' j k e ne =
    Carried-over s' s j (erase k) e
      (λ p. rw (find-erase_ne j k (table s e) (ne p)) (Carried-refl _))

update-carries :
    (s s' : Slot) (j k : ℕ) (f : ETimer → ETimer) (e : TimerThread)
    → (s' ≡ s → j ≢ k)
    → Carried (find j (table s' e)) (find j (table s' (over s (update k f) e)))
update-carries s s' j k f e ne =
    Carried-over s' s j (update k f) e
      (λ p. rw (find-update_ne j k f (table s e) (ne p)) (Carried-refl _))

module _ (h : Host) where
  pub rearm_rest :
      (s : Slot) (k : ℕ) (t : ETimer) (e : TimerThread)
      → ((rearm h s k t e).cur_timer_id ≡ e.cur_timer_id) × ((rearm h s k t e).fired ≡ e.fired)
  unfolding rearm over
  rearm_rest slot1 k t e = ground arith
  rearm_rest slot2 k t e = ground arith

  pub rearm-carries :
      (s s' : Slot) (j k : ℕ) (t : ETimer) (e : TimerThread)
      → (s' ≡ s → j ≢ k)
      → Carried (find j (table s' e)) (find j (table s' (rearm h s k t e)))
  unfolding rearm
  rearm-carries s s' j k t e ne =
      let e1 : TimerThread = record e { reads = suc e.reads } in
      let e2 = over s (update k (restarted (h.clock e.reads))) e1 in
      let c =
        Carried-trans (Carried-rest s' j (suc e.reads) e.fired e)
          (update-carries s s' j k (restarted (h.clock e.reads)) e1 ne) in
      elim (Bool-cases t.run_once) [
        | inl once ↦ rw once (Carried-trans c (erase-carries s s' j k e2 ne))
        | inr again ↦ rw again c
      ]

  pub Visited-Passes :
      {s : Slot} {k : ℕ} {e e' : TimerThread} → Visited h s k e e' → Passes s k e e'
  Visited-Passes {e} (missing f q) = rw q (record {
    ids = omega arith;
    log = inl refl;
    carries = λ s' j old ne. Carried-refl (find j (table s' e));
  })
  Visited-Passes {s} {k} {e} (deleted t f d q) = rw q (record {
    ids = omega (arith, (over_rest s (erase k) e).0);
    log = inl ((over_rest s (erase k) e).2);
    carries = λ s' j old ne. erase-carries s s' j k e ne;
  })
  Visited-Passes {e} (waiting t f d w q) = rw q (record {
    ids = omega arith;
    log = inl refl;
    carries = λ s' j old ne. Carried-rest s' j (suc e.reads) e.fired e;
  })
  Visited-Passes {s} {k} {e} (fires t e1 f d w p q) =
      let x = apply_calls-Extends h (h.actions t.fp (suc e.reads)) (called_back k e) p in
      rw q (record {
        ids = omega (arith, (rearm_rest s k t e1).0, x.ids);
        log = inr ((rearm_rest s k t e1).1 ∙ x.log);
        carries = λ s' j old ne.
            Carried-trans (Carried-rest s' j (suc e.reads) (k ∷ e.fired) e)
              (Carried-trans (x.carries s' j old) (rearm-carries s s' j k t e1 ne));
      })

  -- A one-shot timer is out of its map when its visit ends.
  pub rearm_once :
      (s : Slot) (k : ℕ) (t : ETimer) (e : TimerThread)
      → IsValid e
      → t.run_once ≡ true
      → find k (table s (rearm h s k t e)) ≡ none
  unfolding rearm
  rearm_once s k t e v once =
      let e1 : TimerThread = record e { reads = suc e.reads } in
      let f = restarted (h.clock e.reads) in
      let sorted = rw (← table_eq s e e1 refl refl) at (v.sorted s) in
      rw
        (
          once,
          table-over_self s (erase k) (over s (update k f) e1),
          table-over_self s (update k f) e1,
        )
        (find-erase_self 1 k (update k f (table s e1)) (update-IsSorted 1 k f (table s e1) sorted))

  -- The visit of an id that is not there changes nothing.
  pub Visited-missing :
      {s : Slot} {k : ℕ} {e e' : TimerThread}
      → Visited h s k e e'
      → find k (table s e) ≡ none
      → e' ≡ e
  Visited-missing (missing f q) g = q
  Visited-missing (deleted t f d q) g = cc
  Visited-missing (waiting t f d w q) g = cc
  Visited-missing (fires t e1 f d w p q) g = cc
