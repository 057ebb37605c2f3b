-- ===== src/Timer/Growth.antt =====
-- The calls and writes that leave a map of the engine no longer than it was.
use qing.Common.{
  ℕ, ◌≤◌, ◌≡◌, refl, ◌∙◌, ◌≢◌, inl, inr, some, List, [], ◌∷◌, arith, Option-cases, length,
}
use qing.Common.OrdMap.{
  find, insert, erase, update, ahead, ahead-update, length-update, ahead-erase, length-erase,
}
use qing.Timer.Defs.{
  ETimer, Slot, slot1, slot2, TimerThread, table, over, Call, register, register_by_mil_sec,
  unregister, spin, unregister_timer, marked,
}
use qing.Timer.Tables.{table-over_self, table-over_ne, table_eq, Slot-cases}
use qing.Timer.Register.{enrolled, numbered}

-- A call that comes back, and puts no timer into the map `s`.
abbrev pub Spares : Slot → Call → Type 0
Spares s (register rounds once i fp) = (s' : Slot) × (spin rounds ≡ some s') × (s ≢ s')
Spares s (register_by_mil_sec rounds once i fp) = (s' : Slot) × (spin rounds ≡ some s') × (s ≢ s')
Spares s (unregister k) = Unit {0}

abbrev pub AllSpare : Slot → List Call → Type 0
AllSpare s [] = Unit {0}
AllSpare s (c ∷ cs) = Spares s c × AllSpare s cs

-- A map that has not grown, and nowhere grown ahead of an iterator.
pub record Shrinks (s : Slot) (e e' : TimerThread) : Type 0 where
  pub in_all : length (table s e') ≤ length (table s e)
  pub in_front : (k : ℕ) → ahead k (table s e') ≤ ahead k (table s e)

pub Shrinks-same : (s : Slot) (e e' : TimerThread) → table s e' ≡ table s e → Shrinks s e e'
Shrinks-same s e e' p = record { in_all = rw p (omega arith); in_front = λ k. rw p (omega arith) }

pub Shrinks-trans :
    {s : Slot} {e e' e'' : TimerThread} → Shrinks s e e' → Shrinks s e' e'' → Shrinks s e e''
Shrinks-trans a b = record {
  in_all = omega (arith, a.in_all, b.in_all);
  in_front = λ k. omega (arith, a.in_front k, b.in_front k);
}

pub Shrinks-update :
    (s s' : Slot) (k : ℕ) (f : ETimer → ETimer) (e : TimerThread)
    → Shrinks s e (over s' (update k f) e)
Shrinks-update s s' k f e = elim (Slot-cases s s') [
  | inr p ↦ Shrinks-same s e (over s' (update k f) e) (table-over_ne s s' (update k f) e p)
  | inl p ↦ rw (← p) (record {
    in_all = rw (table-over_self s (update k f) e) (omega (arith, length-update k f (table s e)));
    in_front =
        λ j. rw (table-over_self s (update k f) e) (omega (arith, ahead-update j k f (table s e)));
  })
]

pub Shrinks-erase : (s s' : Slot) (k : ℕ) (e : TimerThread) → Shrinks s e (over s' (erase k) e)
Shrinks-erase s s' k e = elim (Slot-cases s s') [
  | inr p ↦ Shrinks-same s e (over s' (erase k) e) (table-over_ne s s' (erase k) e p)
  | inl p ↦ rw (← p) (record {
    in_all = rw (table-over_self s (erase k) e) (length-erase k (table s e));
    in_front = λ j. rw (table-over_self s (erase k) e) (ahead-erase j k (table s e));
  })
]

pub enrolled-Shrinks :
    (s s' : Slot) (t : ETimer) (e : TimerThread) → s ≢ s' → Shrinks s e (enrolled s' t e)
enrolled-Shrinks s s' t e ne =
    Shrinks-same s e (enrolled s' t e) (
      table-over_ne s s' (insert t.timer_id t) (numbered e) ne
      ∙ table_eq s e (numbered e) refl refl)

pub unregister_timer-Shrinks :
    (s : Slot) (k : ℕ) (e : TimerThread) → Shrinks s e (unregister_timer k e)
unfolding unregister_timer
unregister_timer-Shrinks s k e = elim (Option-cases (find k e.timers2)) [
  | inr (t, q) ↦ rw (unregister_timer, q) (Shrinks-update s slot2 k marked e)
  | inl q ↦ elim (Option-cases (find k e.timers1)) [
    | inr (t, r) ↦ rw (unregister_timer, q, r) (Shrinks-update s slot1 k marked e)
    | inl r ↦ rw (unregister_timer, q, r) (Shrinks-same s e e refl)
  ]
]
