-- ===== src/Timer/Locks/Deeds.antt =====
-- What one statement of a thread does to the engine.
use qing.Common.{
  ℕ, suc, ◌≤◌, ◌≡◌, refl, ap, ◌∙◌, ◌≢◌, ◌⊎◌, inl, inr, Option, none, some, arith, Bool-cases, count,
  leb, leb→le,
}
use qing.Common.OrdMap.{find, insert, find-insert_ne}
use qing.Timer.Defs.{ETimer, Slot, TimerThread, table, over, Host, get_clock}
use qing.Timer.Tables.{table-over_self, table-over_ne, over_rest, table_eq, Slot-cases}
use qing.Timer.Register.{Effect}
use qing.Timer.Valid.{IsValid}
use qing.Timer.Preserve.{Effect-IsValid}
use qing.Timer.Frame.{Kept, Kept-refl, Carried-some, Carried-none, Effect-Extends}
use qing.Timer.Deleted.{Settled, Doomed}
use qing.Timer.Threads.{Phase, calling, numbered, opened, inserted, returned, advance}
use qing.Timer.ThreadSteps.{Fits, advance-Moves, Settled-later, Settled-insert}

-- A timer of the map `s`, up to a mark.
abbrev pub Remains : Slot → ℕ → ETimer → TimerThread → Type 0
Remains s k t e = (u : ETimer) × (find k (table s e) ≡ some u) × Kept t u

-- A statement of a thread that holds the mutex of `mine`, if any, and inserts the id `fresh`, if any.
pub record Deed (mine : Option Slot) (fresh : ℕ) (e e' : TimerThread) : Type 0 where
  pub valid : IsValid e'
  pub ids : e.cur_timer_id ≤ e'.cur_timer_id
  pub remains :
      (s : Slot) (k : ℕ) (t : ETimer)
      → mine ≢ some s
      → find k (table s e) ≡ some t
      → Remains s k t e'
  pub settled : (k n : ℕ) → k ≢ fresh → Settled k n e → Settled k n e'
  pub doomed : (s : Slot) (k n : ℕ) → Doomed s k n e → Doomed s k n e' ⊎ Settled k n e'

-- The id that a thread's next statement inserts, and 0 for none.
abbrev pub inserting : Phase → ℕ
inserting (calling r) = 0
inserting (numbered r t) = 0
inserting (opened t) = t.timer_id
inserting (inserted t) = 0
inserting (returned t n) = 0

-- The id of a timer in a map was handed out.
pub handed_out :
    (s : Slot) (k : ℕ) (t : ETimer) (e : TimerThread)
    → IsValid e
    → find k (table s e) ≡ some t
    → k ≤ e.cur_timer_id
handed_out s k t e v f = elim (Bool-cases (leb k e.cur_timer_id)) [
  | inl le ↦ leb→le k e.cur_timer_id le
  | inr gt ↦ cc (v.fresh s k (ground arith))
]

pub Deed-same : (mine : Option Slot) (fresh : ℕ) (e : TimerThread) → IsValid e → Deed mine fresh e e
Deed-same mine fresh e v = record {
  valid = v;
  ids = omega arith;
  remains = λ s k t ne f. (t, f, Kept-refl t);
  settled = λ k n ne d. d;
  doomed = λ s k n d. inl d;
}

module _ (h : Host) (mine : Option Slot) (e : TimerThread) (v : IsValid e) where
  pub Effect-Deed : {e' : TimerThread} (fresh : ℕ) → Effect h e e' → Deed mine fresh e e'
  Effect-Deed fresh eff =
      let x = Effect-Extends h eff in
      record {
        valid = Effect-IsValid h eff v;
        ids = x.ids;
        remains = λ s k t ne f. Carried-some (rw f at (x.carries s k (handed_out s k t e v f)));
        settled = λ k n ne d. record {
          old = omega (arith, d.old, x.ids);
          gone = λ s. Carried-none (rw (d.gone s) at (x.carries s k d.old));
          runs = ap (count k) x.log ∙ d.runs;
        };
        doomed = λ s k n d.
            let (t, f, m) = d.marks in
            let (u, g, kept) = Carried-some (rw f at (x.carries s k d.old)) in
            inl (record {
              old = omega (arith, d.old, x.ids);
              marks = (u, g, kept.stays_marked m);
              runs = ap (count k) x.log ∙ d.runs;
            });
      }

  -- The insertion of a timer whose id is in no map.
  insert-remains :
      (s s' : Slot) (t u : ETimer) (k : ℕ)
      → find t.timer_id (table s e) ≡ none
      → find k (table s' e) ≡ some u
      → find k (table s' (over s (insert t.timer_id t) e)) ≡ some u
  insert-remains s s' t u k out f = elim (Slot-cases s' s) [
    | inr p ↦ rw (table-over_ne s' s (insert t.timer_id t) e p) f
    | inl p ↦
        let there = rw p at f in
        rw
          (
            p,
            table-over_self s (insert t.timer_id t) e,
            find-insert_ne k t.timer_id t (table s e) (λ q. cc (q, out, there)),
          )
          there
  ]

  advance-remains :
      (s s' : Slot) (p : Phase) (k : ℕ) (u : ETimer)
      → Fits p e
      → find k (table s' e) ≡ some u
      → find k (table s' (advance h s p e).1) ≡ some u
  unfolding advance get_clock
  advance-remains s s' (calling r) k u w f =
      rw (table_eq s' e (record e { cur_timer_id = suc e.cur_timer_id }) refl refl) f
  advance-remains s s' (numbered r t) k u w f =
      rw (table_eq s' e (record e { reads = suc e.reads }) refl refl) f
  advance-remains s s' (opened t) k u w f = insert-remains s s' t u k ((w.unused refl).1.gone s) f
  advance-remains s s' (inserted t) k u w f = f
  advance-remains s s' (returned t n) k u w f = f

  advance-Settled :
      (s : Slot) (p : Phase) (k n : ℕ)
      → Fits p e
      → k ≢ inserting p
      → Settled k n e
      → Settled k n (advance h s p e).1
  unfolding advance get_clock
  advance-Settled s (calling r) k n w ne d =
      Settled-later e (record e { cur_timer_id = suc e.cur_timer_id }) k n refl refl refl
        (omega arith) d
  advance-Settled s (numbered r t) k n w ne d =
      Settled-later e (record e { reads = suc e.reads }) k n refl refl refl (omega arith) d
  advance-Settled s (opened t) k n w ne d = Settled-insert e s t k n ne d
  advance-Settled s (inserted t) k n w ne d = d
  advance-Settled s (returned t i) k n w ne d = d

  pub advance-fired : (s : Slot) (p : Phase) → (advance h s p e).1.fired ≡ e.fired
  unfolding advance get_clock
  advance-fired s (calling r) = refl
  advance-fired s (numbered r t) = refl
  advance-fired s (opened t) = (over_rest s (insert t.timer_id t) e).2
  advance-fired s (inserted t) = refl
  advance-fired s (returned t n) = refl

  pub advance-Deed :
      (s : Slot) (p : Phase) → Fits p e → Deed mine (inserting p) e (advance h s p e).1
  advance-Deed s p w =
      let m = advance-Moves h s e v p w in
      record {
        valid = m.valid;
        ids = m.ids;
        remains = λ s' k t ne f. (t, advance-remains s s' p k t w f, Kept-refl t);
        settled = λ k n. advance-Settled s p k n w;
        doomed = λ s' k n d.
            let (t, f, m') = d.marks in
            inl (record {
              old = omega (arith, d.old, m.ids);
              marks = (t, advance-remains s s' p k t w f, m');
              runs = ap (count k) (advance-fired s p) ∙ d.runs;
            });
      }
