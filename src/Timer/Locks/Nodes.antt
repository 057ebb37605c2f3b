-- ===== src/Timer/Locks/Nodes.antt =====
-- What the statements of `Update` do to the engine at the node of its iterator.
use qing.Common.{
  ◌≤◌, ℕ, suc, ◌≡◌, refl, sym, ap, ◌∙◌, ◌≢◌, ◌⊎◌, inl, inr, true, false, some, ◌∷◌, arith,
  Bool-cases, count, ◌==◌, ==_iff, ne_of_==_false,
}
use qing.Common.OrdMap.{find}
use qing.Timer.Defs.{ETimer, Slot, TimerThread, table, Host, rearm, restarted}
use qing.Timer.Tables.{table_eq, Slot-cases}
use qing.Timer.Visit.{called_back, Visited}
use qing.Timer.Valid.{IsValid}
use qing.Timer.Preserve.{Visited-IsValid, IsValid-rest, rearm-IsValid}
use qing.Timer.Frame.{Kept-refl, Carried-some, Carried-none}
use qing.Timer.Passes.{Visited-Passes, rearm_rest, rearm-carries, rearm_once}
use qing.Timer.Reads.{rearm_again}
use qing.Timer.Deleted.{Settled, Doomed, visit-Settled, count-other}
use qing.Timer.Doomed.{visit-Doomed, visit-marked}
use qing.Timer.Locks.Deeds.{Deed, handed_out}

-- The statements of `Update` at the node `k` of the map `s`, which the thread holds.
module _ (h : Host) (s : Slot) (k : ℕ) (e : TimerThread) (v : IsValid e) where
  -- The node, or another.
  pub at_node : (s' : Slot) (j : ℕ) → ((s' ≡ s) × (j ≡ k)) ⊎ (s' ≡ s → j ≢ k)
  at_node s' j = elim (Slot-cases s' s) [
    | inr p ↦ inr (λ q. absurd (p q))
    | inl p ↦ elim (Bool-cases (j == k)) [
      | inl same ↦ inl (p, (==_iff j k).0 same)
      | inr other ↦ inr (λ _. ne_of_==_false j k other)
    ]
  ]

  pub Visited-Deed : {e' : TimerThread} → Visited h s k e e' → Deed (some s) 0 e e'
  Visited-Deed vis =
      let p = Visited-Passes h vis in
      record {
        valid = Visited-IsValid h vis v;
        ids = p.ids;
        remains = λ s' j t ne f. Carried-some (
            rw f at
              (p.carries s' j (handed_out s' j t e v f) (λ q. absurd (ne (ap some (sym q))))));
        settled = λ j n ne d. visit-Settled h vis d;
        doomed = λ s' j n d. elim (at_node s' j) [
          | inl (p, q) ↦ inr (rw q (visit-marked h v vis (rw (p, q) at d)))
          | inr ne ↦ inl (visit-Doomed h v vis ne d)
        ];
      }

  -- A timer that is marked is not one that is not.
  unmarked_apart :
      (t : ETimer)
      → find k (table s e) ≡ some t
      → t.need_delete ≡ false
      → (s' : Slot) (j : ℕ) (u : ETimer) → find j (table s' e) ≡ some u
      → u.need_delete ≡ true
      → j ≢ k
  unmarked_apart t f m s' j u g m' q = elim (Slot-cases s s') [
    | inl p ↦ cc (p, q, f, g, m, m')
    | inr p ↦ cc (v.apart s s' k t p f, q, g)
  ]

  -- A timer that runs once is gone when its callback has run.
  pub rearm-Settled :
      (t : ETimer) (n : ℕ)
      → find k (table s e) ≡ some t
      → t.run_once ≡ true
      → k ≤ e.cur_timer_id
      → count k e.fired ≡ n
      → Settled k n (rearm h s k t e)
  rearm-Settled t n f once old runs =
      let (cur, log) = rearm_rest h s k t e in
      record {
        old = omega (arith, cur, old);
        gone = λ s'. elim (Slot-cases s' s) [
          | inl same ↦ rw same (rearm_once h s k t e v once)
          | inr other ↦ Carried-none (
              rw (v.apart s s' k t (λ q. other (sym q)) f) at
                (rearm-carries h s s' k k t e (λ q. absurd (other q))))
        ];
        runs = ap (count k) log ∙ runs;
      }

  -- A marked timer whose callback has run starts again, or is gone.
  rearm-marked :
      (t : ETimer) (n : ℕ)
      → find k (table s e) ≡ some t
      → Doomed s k n e
      → Doomed s k n (rearm h s k t e) ⊎ Settled k n (rearm h s k t e)
  rearm-marked t n f d = elim (Bool-cases t.run_once) [
    | inl once ↦ inr (rearm-Settled t n f once d.old d.runs)
    | inr again ↦
        let (cur, log) = rearm_rest h s k t e in
        let (u, g, m) = d.marks in
        inl (record {
          old = omega (arith, cur, d.old);
          marks = (restarted (h.clock e.reads) u, rearm_again h s k t u e again g, m);
          runs = ap (count k) log ∙ d.runs;
        })
  ]

  pub called_back-Deed :
      (t : ETimer)
      → find k (table s e) ≡ some t
      → t.need_delete ≡ false
      → Deed (some s) 0 e (called_back k e)
  called_back-Deed t f m = record {
    valid = IsValid-rest h e (suc e.reads) (k ∷ e.fired) v;
    ids = omega arith;
    remains = λ s' j u ne g. (u, rw (table_eq s' e (called_back k e) refl refl) g, Kept-refl u);
    settled = λ j n ne d. record {
      old = d.old;
      gone = λ s'. rw (table_eq s' e (called_back k e) refl refl) (d.gone s');
      runs = count-other k j e.fired (λ q. cc (q, d.gone s, f)) ∙ d.runs;
    };
    doomed = λ s' j n d.
        let (u, g, m') = d.marks in
        inl (record {
          old = d.old;
          marks = (u, rw (table_eq s' e (called_back k e) refl refl) g, m');
          runs = count-other k j e.fired (unmarked_apart t f m s' j u g m') ∙ d.runs;
        });
  }

  pub rearm-Deed : (t : ETimer) → find k (table s e) ≡ some t → Deed (some s) 0 e (rearm h s k t e)
  rearm-Deed t f =
      let (cur, log) = rearm_rest h s k t e in
      record {
        valid = rearm-IsValid h s k t e v;
        ids = omega (arith, cur);
        remains = λ s' j u ne g.
            Carried-some
              (rw g at (rearm-carries h s s' j k t e (λ q. absurd (ne (ap some (sym q))))));
        settled = λ j n ne d. record {
          old = omega (arith, cur, d.old);
          gone = λ s'.
              Carried-none
                (rw (d.gone s') at (rearm-carries h s s' j k t e (λ _ q. cc (q, d.gone s, f))));
          runs = ap (count j) log ∙ d.runs;
        };
        doomed = λ s' j n d. elim (at_node s' j) [
          | inl (p, q) ↦ rw (p, q) (rearm-marked t n f (rw (p, q) at d))
          | inr ne ↦
              let (u, g, m) = d.marks in
              let (u', g', kept) = Carried-some (rw g at (rearm-carries h s s' j k t e ne)) in
              inl (record {
                old = omega (arith, cur, d.old);
                marks = (u', g', kept.stays_marked m);
                runs = ap (count j) log ∙ d.runs;
              })
        ];
      }
