-- ===== src/Timer/Visit.antt =====
-- The body of `Update`'s loops at one node, as a relation between the engine before and after.
use qing.Common.{
  ℕ, zero, suc, ◌≡◌, inl, inr, Bool, true, false, Option, none, some, ◌∷◌, arith, leb, >>=-eq-some,
  along_some, Option-cases, Bool-cases,
}
use qing.Common.OrdMap.{find, erase, begin, next}
use qing.Timer.Clock.{get_interval_macro_secs}
use qing.Timer.Defs.{
  ETimer, Slot, slot1, slot2, TimerThread, table, over, Host, apply_calls, rearm, fire, visit_node,
  visit, sweep, update_all,
}

-- The time that a timer has run for is its interval at least.
abbrev pub is_due : Host → ETimer → TimerThread → Bool
is_due h t e = leb t.leftsecs (get_interval_macro_secs h.ticks (h.clock e.reads) t.startclock)

abbrev pub read_once : TimerThread → TimerThread
read_once e = record e { reads = suc e.reads }

-- The engine as the callback of the timer `k` finds it.
abbrev pub called_back : ℕ → TimerThread → TimerThread
called_back k e = record e { reads = suc e.reads; fired = k ∷ e.fired }

pub data Visited (h : Host) (s : Slot) (k : ℕ) (e e' : TimerThread) : Type 0 where
  missing : find k (table s e) ≡ none → e' ≡ e → Visited h s k e e'
  deleted :
      (t : ETimer)
      → find k (table s e) ≡ some t
      → t.need_delete ≡ true
      → e' ≡ over s (erase k) e
      → Visited h s k e e'
  waiting :
      (t : ETimer)
      → find k (table s e) ≡ some t
      → t.need_delete ≡ false
      → is_due h t e ≡ false
      → e' ≡ read_once e
      → Visited h s k e e'
  fires :
      (t : ETimer) (e1 : TimerThread)
      → find k (table s e) ≡ some t
      → t.need_delete ≡ false
      → is_due h t e ≡ true
      → apply_calls h (h.actions t.fp (suc e.reads)) (called_back k e) ≡ some e1
      → e' ≡ rearm h s k t e1
      → Visited h s k e e'

module _ (h : Host) (s : Slot) (k : ℕ) (e : TimerThread) where
  visit_node-Visited :
      (t : ETimer) {e' : TimerThread}
      → find k (table s e) ≡ some t
      → visit_node h s k t e ≡ some e'
      → Visited h s k e e'
  unfolding visit_node fire rearm apply_calls
  visit_node-Visited t f p = elim (Bool-cases t.need_delete) [
    | inl d ↦ deleted t f d (ground arith)
    | inr d ↦ elim (Bool-cases (is_due h t e)) [
      | inr w ↦ waiting t f d w (ground arith)
      | inl w ↦
          let (e1, p1, p2) =
            >>=-eq-some (apply_calls h (h.actions t.fp (suc e.reads)) (called_back k e))
              (λ x. some (rearm h s k t x)) (rw (d, w) at p) in
          fires t e1 f d w p1 (ground arith)
    ]
  ]

  -- What a visit that returns has done.
  pub visit-Visited : {e' : TimerThread} → visit h s k e ≡ some e' → Visited h s k e e'
  unfolding visit
  visit-Visited p = elim (Option-cases (find k (table s e))) [
    | inl f ↦ missing f (ground arith)
    | inr (t, f) ↦ visit_node-Visited t f (ground arith)
  ]

module _ (h : Host) where
  -- The first round of a loop that ends, and the rest of it.
  pub sweep-step :
      (s : Slot) (fuel k : ℕ) (e : TimerThread) {e' : TimerThread}
      → sweep h s (suc fuel) (some k) e ≡ some e'
      → (e1 : TimerThread) × Visited h s k e e1
        × (sweep h s fuel (next k (table s e1)) e1 ≡ some e')
  unfolding sweep
  sweep-step s fuel k e p =
      let (e1, p1, p2) =
        >>=-eq-some (visit h s k e) (λ x. sweep h s fuel (next k (table s x)) x) p in
      (e1, visit-Visited h s k e p1, p2)

  -- What every visit keeps holds after a loop.
  pub sweep-keeps :
      (s : Slot) (P : TimerThread → Type 0)
      → ((k : ℕ) (e e' : TimerThread) → P e → Visited h s k e e' → P e')
      → (fuel : ℕ) (position : Option ℕ) (e : TimerThread) {e' : TimerThread} → P e
      → sweep h s fuel position e ≡ some e'
      → P e'
  sweep-keeps s P keep zero position e v p = unfold sweep in cc p
  sweep-keeps s P keep (suc fuel) none e {e'} v p = unfold sweep in along_some P e e' p v
  sweep-keeps s P keep (suc fuel) (some k) e v p =
      let (e1, vis, p') = sweep-step s fuel k e p in
      sweep-keeps s P keep fuel (next k (table s e1)) e1 (keep k e e1 v vis) p'

  -- The two loops of a pass that ends.
  pub update_all-loops :
      (fuel : ℕ) (e : TimerThread) {e' : TimerThread}
      → update_all h fuel e ≡ some e'
      → (e1 : TimerThread) × (sweep h slot1 fuel (begin (table slot1 e)) e ≡ some e1)
        × (sweep h slot2 fuel (begin (table slot2 e1)) e1 ≡ some e')
  unfolding update_all
  update_all-loops fuel e p =
      >>=-eq-some (sweep h slot1 fuel (begin (table slot1 e)) e)
        (λ x. sweep h slot2 fuel (begin (table slot2 x)) x) p
