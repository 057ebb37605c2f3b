-- ===== src/Timer/Deleted.antt =====
-- What becomes of a timer that `UnRegister` has marked.
use qing.Common.{
  ℕ, ◌≤◌, ◌≡◌, sym, ap, ◌∙◌, ◌≢◌, inl, inr, true, Option, none, some, List, ◌∷◌, arith, Bool-cases,
  ◌==◌, ==_iff, ne_of_==_false, count,
}
use qing.Common.OrdMap.{find, erase, find-erase_self}
use qing.Timer.Defs.{ETimer, Slot, TimerThread, table, over, Host, sweep}
use qing.Timer.Tables.{table-over_self, table-over_ne, over_rest, Slot-cases}
use qing.Timer.Visit.{sweep-keeps, Visited}
use qing.Timer.Valid.{IsValid}
use qing.Timer.Frame.{Carried-none}
use qing.Timer.Passes.{Passes, Visited-Passes, Visited-missing}

-- The id stands in neither map.
abbrev pub IsGone : ℕ → TimerThread → Type 0
IsGone k e = (s : Slot) → find k (table s e) ≡ none

abbrev pub IsMarked : Slot → ℕ → TimerThread → Type 0
IsMarked s k e = (t : ETimer) × (find k (table s e) ≡ some t) × (t.need_delete ≡ true)

-- The id was handed out, is gone, and was last seen in the log `n` times.
pub record Settled (k n : ℕ) (e : TimerThread) : Type 0 where
  pub old : k ≤ e.cur_timer_id
  pub gone : IsGone k e
  pub runs : count k e.fired ≡ n

-- The same of a timer that waits for its deletion.
pub record Doomed (s : Slot) (k n : ℕ) (e : TimerThread) : Type 0 where
  pub old : k ≤ e.cur_timer_id
  pub marks : IsMarked s k e
  pub runs : count k e.fired ≡ n

pub count-other : (j k : ℕ) (log : List ℕ) → k ≢ j → count k (j ∷ log) ≡ count k log
count-other j k log ne = ground arith

-- Taking a timer out leaves its id in neither map.
pub erase-Settled :
    (s : Slot) (k n : ℕ) (t : ETimer) (e : TimerThread)
    → IsValid e
    → k ≤ e.cur_timer_id
    → find k (table s e) ≡ some t
    → count k e.fired ≡ n
    → Settled k n (over s (erase k) e)
erase-Settled s k n t e v old f runs =
    let (cur, _, log) = over_rest s (erase k) e in
    record {
      old = omega arith;
      gone = λ s'. elim (Slot-cases s' s) [
        | inl p ↦
            rw (p, table-over_self s (erase k) e) (find-erase_self 1 k (table s e) (v.sorted s))
        | inr p ↦ rw (table-over_ne s' s (erase k) e p) (v.apart s s' k t (λ x. p (sym x)) f)
      ];
      runs = ap (count k) log ∙ runs;
    }

module _ (h : Host) where
  -- A visit that is not of the timer leaves its runs alone.
  pub Passes-count :
      {s : Slot} {j k : ℕ} {e e' : TimerThread}
      → Passes s j e e'
      → k ≢ j
      → count k e'.fired ≡ count k e.fired
  Passes-count {s} {j} {k} {e} p ne = elim p.log [
    | inl q ↦ ap (count k) q
    | inr q ↦ ap (count k) q ∙ count-other j k e.fired ne
  ]

  pub visit-Settled :
      {s : Slot} {j k n : ℕ} {e e' : TimerThread}
      → Visited h s j e e'
      → Settled k n e
      → Settled k n e'
  visit-Settled {s} {j} {k} {n} {e} {e'} vis d = elim (Bool-cases (k == j)) [
    | inl same ↦ let q = Visited-missing h vis (rw ((==_iff k j).0 same) at (d.gone s)) in rw q d
    | inr other ↦
        let p = Visited-Passes h vis in
        record {
          old = omega (arith, d, p.ids);
          gone = λ s'.
              Carried-none
                (rw (d.gone s') at (p.carries s' k d.old (λ _. ne_of_==_false k j other)));
          runs = Passes-count p (ne_of_==_false k j other) ∙ d.runs;
        }
  ]

  pub sweep-Settled :
      (s : Slot) (fuel : ℕ) (position : Option ℕ) (k n : ℕ) (e : TimerThread) {e' : TimerThread}
      → Settled k n e
      → sweep h s fuel position e ≡ some e'
      → Settled k n e'
  sweep-Settled s fuel position k n =
      sweep-keeps h s (Settled k n) (λ j e e' d vis. visit-Settled vis d) fuel position
