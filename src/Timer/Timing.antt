-- ===== src/Timer/Timing.antt =====
-- When a timer runs, in the clock's own ticks.
use qing.Common.{
  suc, ℕ, ◌-◌, ◌*◌, ◌/◌, ◌^◌, ◌≤◌, ◌<◌, ◌≡◌, sym, ap, ◌∙◌, ◌≢◌, ◌↔◌, true, false, some, List, ◌∷◌,
  arith, leb→le, le→leb, length, u64,
}
use native.Mathlib.Nat.{le-div_iff_mul-le, mod-eq_of_lt, mod-le}
use qing.Common.OrdMap.{find}
use qing.Timer.Clock.{get_interval_macro_secs}
use qing.Timer.Defs.{ETimer, Slot, TimerThread, table, Host, visit}
use qing.Timer.Visit.{Visited, missing, deleted, waiting, fires, visit-Visited, is_due, called_back}
use qing.Timer.Frame.{apply_calls-Extends}
use qing.Timer.Passes.{rearm_rest}

-- The time between two readings is the product's quotient, cut off at 2 ^ 64.
interval_lem :
    (ticks start now : ℕ)
    → start ≤ now
    → now < 2 ^ 64
    → get_interval_macro_secs ticks now start ≡ u64 ((now - start) * 1_000_000) / ticks
unfolding get_interval_macro_secs
interval_lem ticks start now le lt = ap (λ d. u64 (d * 1_000_000) / ticks) (omega arith)

cons-ne : (k : ℕ) (l : List ℕ) → k ∷ l ≢ l
cons-ne k l p = omega (arith, ap length p)

module _ (h : Host) (s : Slot) (k : ℕ) (t : ETimer) (e : TimerThread) where
  -- The ticks between the timer's start and the reading of the visit.
  abbrev elapsed : ℕ
  elapsed = h.clock e.reads - t.startclock

  -- Whether a visit runs the callback turns on the test of the code.
  visit_fires_test :
      {e' : TimerThread}
      → find k (table s e) ≡ some t
      → t.need_delete ≡ false
      → visit h s k e ≡ some e'
      → (e'.fired ≡ k ∷ e.fired) ↔ (is_due h t e ≡ true)
  visit_fires_test {e'} f d p = go (visit-Visited h s k e p)
    where
      go : Visited h s k e e' → (e'.fired ≡ k ∷ e.fired) ↔ (is_due h t e ≡ true)
      go (missing g q) = cc
      go (deleted u g m q) = ground arith
      go (waiting u g m w q) = (
        λ r. absurd (cons-ne k e.fired (sym r ∙ ap (λ (x : TimerThread). x.fired) q)),
        λ r. ground arith,
      )
      go (fires u e1 g m w r q) = (
        λ _. ground arith,
        λ _.
            ap (λ (x : TimerThread). x.fired) q
            ∙ (rearm_rest h s k u e1).1
            ∙ (apply_calls-Extends h (h.actions u.fp (suc e.reads)) (called_back k e) r).log,
      )

  is_due_iff :
      0 < h.ticks
      → t.startclock ≤ h.clock e.reads
      → h.clock e.reads < 2 ^ 64
      → (is_due h t e ≡ true) ↔ (t.leftsecs * h.ticks ≤ u64 (elapsed * 1_000_000))
  is_due_iff pos_ticks le lt =
      let same = interval_lem h.ticks t.startclock (h.clock e.reads) le lt in
      rw same (
        λ due. (le-div_iff_mul-le pos_ticks).0 (leb→le _ _ due),
        λ m. le→leb _ _ ((le-div_iff_mul-le pos_ticks).1 m),
      )

  pub is_due-elapsed :
      0 < h.ticks
      → t.startclock ≤ h.clock e.reads
      → h.clock e.reads < 2 ^ 64
      → is_due h t e ≡ true
      → t.leftsecs * h.ticks ≤ elapsed * 1_000_000
  is_due-elapsed pos_ticks le lt due =
      omega (arith, (is_due_iff pos_ticks le lt).0 due, mod-le (elapsed * 1_000_000) (2 ^ 64))

  -- An unmarked timer runs at a visit that returns exactly when the ticks since its start make up
  -- its interval, if their product with a million is below 2 ^ 64, the clock ticks, its reading
  -- fits 64 bits, and it has not gone back.
  pub visit_fires_iff :
      {e' : TimerThread}
      → find k (table s e) ≡ some t
      → t.need_delete ≡ false
      → 0 < h.ticks
      → t.startclock ≤ h.clock e.reads
      → h.clock e.reads < 2 ^ 64
      → elapsed * 1_000_000 < 2 ^ 64
      → visit h s k e ≡ some e'
      → (e'.fired ≡ k ∷ e.fired) ↔ (t.leftsecs * h.ticks ≤ elapsed * 1_000_000)
  visit_fires_iff f d pos_ticks le lt fits p =
      let (a, b) = visit_fires_test f d p in
      let (a', b') = is_due_iff pos_ticks le lt in
      let whole : u64 (elapsed * 1_000_000) ≡ elapsed * 1_000_000 = mod-eq_of_lt fits in
      (λ x. rw whole at (a' (a x)), λ x. b (b' (rw whole x)))

  -- An unmarked timer whose interval times the clock's frequency reaches 2 ^ 64 runs at no visit,
  -- if the clock ticks, its reading fits 64 bits, and it has not gone back.
  pub visit_never_fires :
      {e' : TimerThread}
      → find k (table s e) ≡ some t
      → t.need_delete ≡ false
      → 0 < h.ticks
      → t.startclock ≤ h.clock e.reads
      → h.clock e.reads < 2 ^ 64
      → 2 ^ 64 ≤ t.leftsecs * h.ticks
      → visit h s k e ≡ some e'
      → e'.fired ≢ k ∷ e.fired
  visit_never_fires f d pos_ticks le lt long p x =
      let (a, b) = visit_fires_test f d p in
      absurd (omega (arith, (is_due_iff pos_ticks le lt).0 (a x)))
