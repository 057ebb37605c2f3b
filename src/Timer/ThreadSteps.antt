-- ===== src/Timer/ThreadSteps.antt =====
-- What one statement of a registering thread does to the engine and to the ids.
use qing.Common.{ℕ, suc, ◌≤◌, ◌<◌, ◌≡◌, refl, ◌∙◌, ◌≢◌, ◌⊎◌, inl, inr, Bool, true, false, arith}
use qing.Common.OrdMap.{insert, find-insert_ne}
use qing.Timer.Defs.{
  ETimer, new_timer, open_sec, open_milsec, Slot, TimerThread, table, over, Host, get_clock,
}
use qing.Timer.Tables.{table-over_self, table-over_ne, over_rest, table_eq, Slot-cases}
use qing.Timer.Valid.{IsValid, insert_unused-IsValid, later-IsValid}
use qing.Timer.Deleted.{Settled}
use qing.Timer.Threads.{
  Request, Phase, calling, numbered, opened, inserted, returned, open_request, advance,
}

-- The id that a thread has taken, and 0 before.
abbrev pub own : Phase → ℕ
own (calling r) = 0
own (numbered r t) = t.timer_id
own (opened t) = t.timer_id
own (inserted t) = t.timer_id
own (returned t n) = t.timer_id

abbrev pub begun : Phase → Bool
begun (calling r) = false
begun (numbered r t) = true
begun (opened t) = true
begun (inserted t) = true
begun (returned t n) = true

-- The timer has its id and is in no map yet.
abbrev pub waits : Phase → Bool
waits (calling r) = false
waits (numbered r t) = true
waits (opened t) = true
waits (inserted t) = false
waits (returned t n) = false

abbrev pub Unused : ℕ → TimerThread → Type 0
Unused k e = (n : ℕ) × Settled k n e

-- What holds of one thread beside the engine.
pub record Fits (p : Phase) (e : TimerThread) : Type 0 where
  pub old : own p ≤ e.cur_timer_id
  pub taken : begun p ≡ true → 0 < own p
  pub unused : waits p ≡ true → Unused (own p) e
  pub result : (t : ETimer) (n : ℕ) → p ≡ returned t n → (t.timer_id ≤ n) × (n ≤ e.cur_timer_id)

-- What a statement does.
pub record Moves (p p' : Phase) (e e' : TimerThread) : Type 0 where
  pub valid : IsValid e'
  pub ids : e.cur_timer_id ≤ e'.cur_timer_id
  pub id : (own p' ≡ own p) ⊎ (own p' ≡ suc e.cur_timer_id)
  pub fits : Fits p' e'
  pub others : (k n : ℕ) → k ≢ own p' → Settled k n e → Settled k n e'

-- The same maps and log, and no fewer ids.
pub Settled-later :
    (e e' : TimerThread) (k n : ℕ)
    → e'.timers1 ≡ e.timers1
    → e'.timers2 ≡ e.timers2
    → e'.fired ≡ e.fired
    → e.cur_timer_id ≤ e'.cur_timer_id
    → Settled k n e
    → Settled k n e'
Settled-later e e' k n h1 h2 hf hc d = record {
  old = omega (arith, d.old);
  gone = λ s. rw (table_eq s e e' h1 h2) (d.gone s);
  runs = rw hf d.runs;
}

pub Settled-insert :
    (e : TimerThread) (s : Slot) (t : ETimer) (k n : ℕ)
    → k ≢ t.timer_id
    → Settled k n e
    → Settled k n (over s (insert t.timer_id t) e)
Settled-insert e s t k n ne d =
    let (c, _, f) = over_rest s (insert t.timer_id t) e in
    record {
      old = rw c d.old;
      gone = λ s'. elim (Slot-cases s' s) [
        | inl p ↦
            rw (p, table-over_self s (insert t.timer_id t) e)
              (find-insert_ne k t.timer_id t (table s e) ne ∙ d.gone s)
        | inr p ↦ rw (table-over_ne s' s (insert t.timer_id t) e p) (d.gone s')
      ];
      runs = rw f d.runs;
    }

pub open_request-id :
    (r : Request) (t : ETimer) (n : ℕ) → (open_request r t n).timer_id ≡ t.timer_id
unfolding open_request open_sec open_milsec
open_request-id r t n = ground arith

module _ (h : Host) (s : Slot) (e : TimerThread) (v : IsValid e) where
  calling-Moves :
      (r : Request) → let (p', e') = advance h s (calling r) e in Moves (calling r) p' e e'
  unfolding advance new_timer
  calling-Moves r =
      let e' : TimerThread = record e { cur_timer_id = suc e.cur_timer_id } in
      record {
        valid = later-IsValid e e' refl refl (omega arith) v;
        ids = omega arith;
        id = inr refl;
        fits = record {
          old = omega arith;
          taken = λ _. omega arith;
          unused = λ _. (
            _,
            record {
              old = omega arith;
              gone = λ s'.
                  rw (table_eq s' e e' refl refl) (v.fresh s' (suc e.cur_timer_id) (omega arith));
              runs = refl;
            },
          );
          result = λ t n q. cc;
        };
        others = λ k n ne d. Settled-later e e' k n refl refl refl (omega arith) d;
      }

  numbered-Moves :
      (r : Request) (t : ETimer)
      → Fits (numbered r t) e
      → let (p', e') = advance h s (numbered r t) e in Moves (numbered r t) p' e e'
  unfolding advance get_clock
  numbered-Moves r t f =
      let e' : TimerThread = record e { reads = suc e.reads } in
      let same = open_request-id r t (h.clock e.reads) in
      let (n, d) = f.unused refl in
      record {
        valid = later-IsValid e e' refl refl (omega arith) v;
        ids = omega arith;
        id = inl same;
        fits = record {
          old = omega (arith, same, f.old);
          taken = λ _. rw same (f.taken refl);
          unused = λ _. rw same (n, Settled-later e e' t.timer_id n refl refl refl (omega arith) d);
          result = λ t n q. cc;
        };
        others = λ k n ne d. Settled-later e e' k n refl refl refl (omega arith) d;
      }

  opened-Moves :
      (t : ETimer)
      → Fits (opened t) e
      → let (p', e') = advance h s (opened t) e in Moves (opened t) p' e e'
  unfolding advance
  opened-Moves t f =
      let (n, d) = f.unused refl in
      let (c, _, _) = over_rest s (insert t.timer_id t) e in
      record {
        valid = insert_unused-IsValid e s t v (f.taken refl) f.old d.gone;
        ids = omega (arith, c);
        id = inl refl;
        fits = record { old = rw c f.old; taken = f.taken; unused = λ q. cc; result = λ t n q. cc };
        others = Settled-insert e s t;
      }

  inserted-Moves :
      (t : ETimer)
      → Fits (inserted t) e
      → let (p', e') = advance h s (inserted t) e in Moves (inserted t) p' e e'
  unfolding advance
  inserted-Moves t f = record {
    valid = v;
    ids = omega arith;
    id = inl refl;
    fits = record {
      old = f.old;
      taken = f.taken;
      unused = λ q. cc;
      result = λ t' n q. ground (arith, f.old);
    };
    others = λ k n ne d. d;
  }

  returned-Moves :
      (t : ETimer) (n : ℕ)
      → Fits (returned t n) e
      → let (p', e') = advance h s (returned t n) e in Moves (returned t n) p' e e'
  unfolding advance
  returned-Moves t n f = record {
    valid = v;
    ids = omega arith;
    id = inl refl;
    fits = f;
    others = λ k n ne d. d;
  }

  pub advance-Moves : (p : Phase) → Fits p e → let (p', e') = advance h s p e in Moves p p' e e'
  advance-Moves (calling r) f = calling-Moves r
  advance-Moves (numbered r t) f = numbered-Moves r t f
  advance-Moves (opened t) f = opened-Moves t f
  advance-Moves (inserted t) f = inserted-Moves t f
  advance-Moves (returned t n) f = returned-Moves t n f
