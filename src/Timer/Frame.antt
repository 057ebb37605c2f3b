-- ===== src/Timer/Frame.antt =====
-- What calls and visits leave alone: how the timers with other ids come through them.
use qing.Common.{
  ℕ, suc, ◌≤◌, ◌≡◌, refl, ◌∙◌, inl, inr, true, Option, none, some, List, [], ◌∷◌, arith,
  >>=-eq-some, along_some, Bool-cases, ◌==◌, ==_iff,
}
use mathlib.Core.Option
use qing.Common.OrdMap.{find, insert, update, find-insert_ne, find-update}
use qing.Timer.Defs.{
  ETimer, Slot, TimerThread, table, over, marked, Call, Host, apply_call, apply_calls,
}
use qing.Timer.Tables.{table-over_self, table-over_ne, over_rest, table_eq, Slot-cases}
use qing.Timer.Register.{
  Effect, enrols, marks, keeps, apply_call-Effect, timer_of, numbered, enrolled,
}

-- `u` is `t`, but that it may have been marked for deletion.
pub record Kept (t u : ETimer) : Type 0 where
  pub interval : u.interval ≡ t.interval
  pub leftsecs : u.leftsecs ≡ t.leftsecs
  pub startclock : u.startclock ≡ t.startclock
  pub run_once : u.run_once ≡ t.run_once
  pub stays_marked : t.need_delete ≡ true → u.need_delete ≡ true

pub Kept-refl : (t : ETimer) → Kept t t
Kept-refl t = record {
  interval = refl;
  leftsecs = refl;
  startclock = refl;
  run_once = refl;
  stays_marked = λ h. h;
}

Kept-trans : {t u w : ETimer} → Kept t u → Kept u w → Kept t w
Kept-trans a b = ground arith

-- How the entry of one id in one map comes through.
pub data Carried : Option ETimer → Option ETimer → Type 0 where
  nothing : Carried none none
  kept : {t u : ETimer} → Kept t u → Carried (some t) (some u)

pub Carried-refl : (o : Option ETimer) → Carried o o
Carried-refl none = nothing
Carried-refl (some t) = kept (Kept-refl t)

pub Carried-trans : {o p q : Option ETimer} → Carried o p → Carried p q → Carried o q
Carried-trans nothing nothing = nothing
Carried-trans (kept a) (kept b) = kept (Kept-trans a b)

pub Carried-none : {p : Option ETimer} → Carried none p → p ≡ none
Carried-none nothing = refl

pub Carried-some :
    {p : Option ETimer} {t : ETimer} → Carried (some t) p → (u : ETimer) × (p ≡ some u) × Kept t u
Carried-some (kept {u = u} a) = (u, refl, a)

-- The calls that a callback makes leave the log, and every id handed out before, alone.
pub record Extends (e e' : TimerThread) : Type 0 where
  pub log : e'.fired ≡ e.fired
  pub ids : e.cur_timer_id ≤ e'.cur_timer_id
  pub carries :
      (s : Slot) (k : ℕ) → k ≤ e.cur_timer_id → Carried (find k (table s e)) (find k (table s e'))

Extends-trans : {e f g : TimerThread} → Extends e f → Extends f g → Extends e g
Extends-trans {e} {f} {g} a b = record {
  log = b.log ∙ a.log;
  ids = omega arith;
  carries = λ s k h. Carried-trans (a.carries s k h) (b.carries s k (omega arith));
}

Carried-marked : (o : Option ETimer) → Carried o (Option.map marked o)
Carried-marked none = nothing
Carried-marked (some t) = kept (ground arith)

Carried-mark : (j k : ℕ) (m : List (ℕ × ETimer)) → Carried (find j m) (find j (update k marked m))
Carried-mark j k m = rw (find-update j k marked m) (elim (Bool-cases (j == k)) [
  | inl same ↦ rw (same, (==_iff j k).0 same) (Carried-marked (find k m))
  | inr other ↦ rw other (Carried-refl (find j m))
])

-- A write to one map, by what it does to the entry of `k` there.
pub Carried-over :
    (s s' : Slot) (k : ℕ) (f : List (ℕ × ETimer) → List (ℕ × ETimer)) (e : TimerThread)
    → (s ≡ s' → Carried (find k (table s' e)) (find k (f (table s' e))))
    → Carried (find k (table s e)) (find k (table s (over s' f e)))
Carried-over s s' k f e c = elim (Slot-cases s s') [
  | inl p ↦ rw (p, table-over_self s' f e) (c p)
  | inr p ↦ rw (table-over_ne s s' f e p) (Carried-refl _)
]

pub Extends-refl : (e : TimerThread) → Extends e e
Extends-refl e = record {
  log = refl;
  ids = omega arith;
  carries = λ s k h. Carried-refl (find k (table s e));
}

-- An entry under an id that is yet to be handed out does not touch the others.
insert-Extends :
    (s : Slot) (t : ETimer) (e : TimerThread)
    → t.timer_id ≡ suc e.cur_timer_id
    → Extends e (enrolled s t e)
insert-Extends s t e q = record {
  log = (over_rest s (insert t.timer_id t) (numbered e)).2;
  ids = omega (arith, (over_rest s (insert t.timer_id t) (numbered e)).0);
  carries = λ s' k old.
      let same : table s' (numbered e) ≡ table s' e = table_eq s' e (numbered e) refl refl in
      rw same at (
        Carried-over s' s k (insert t.timer_id t) (numbered e) (λ p.
          rw (find-insert_ne k t.timer_id t (table s (numbered e)) (ground arith))
            (Carried-refl (find k (table s (numbered e))))));
}

module _ (h : Host) where
  pub Effect-Extends : {e e' : TimerThread} → Effect h e e' → Extends e e'
  Effect-Extends {e} {e'} (enrols s once interval fp q) =
      rw q (insert-Extends s (timer_of h once interval fp e) e refl)
  Effect-Extends {e} {e'} (marks s k q) = rw q (record {
    log = (over_rest s (update k marked) e).2;
    ids = omega (arith, (over_rest s (update k marked) e).0);
    carries = λ s' j _. Carried-over s' s j (update k marked) e (λ p. Carried-mark j k (table s e));
  })
  Effect-Extends {e} {e'} (keeps q) = rw q (Extends-refl e)

  pub apply_calls-Extends :
      (cs : List Call) (e : TimerThread) {e' : TimerThread}
      → apply_calls h cs e ≡ some e'
      → Extends e e'
  unfolding apply_calls
  apply_calls-Extends [] e {e'} p = along_some (Extends e) e e' p (Extends-refl e)
  apply_calls-Extends (c ∷ cs) e p =
      let (e1, p1, p2) = >>=-eq-some (apply_call h c e) (apply_calls h cs) p in
      Extends-trans (Effect-Extends (apply_call-Effect h e c p1)) (apply_calls-Extends cs e1 p2)
