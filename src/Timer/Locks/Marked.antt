-- ===== src/Timer/Locks/Marked.antt =====
-- `UnRegister` among the statements of other threads.
use qing.Common.{ℕ, ◌≤◌, ◌<◌, ◌≡◌, refl, sym, ap, ◌∙◌, ◌≢◌, ◌⊎◌, inl, inr, some, arith, count}
use qing.Common.OrdMap.{find, update, find-update_self}
use qing.Timer.Defs.{ETimer, Slot, slot1, slot2, TimerThread, table, over, marked, Host}
use qing.Timer.Tables.{table-over_self, over_rest}
use qing.Timer.Valid.{IsValid}
use qing.Timer.Deleted.{IsGone, IsMarked, Settled, Doomed}
use qing.Timer.Locks.{
  Act, before_second, before_first, Runner, act_step, runner_step, System, put, MayStep, Step,
  moves, Reach, here, next_step,
}
use qing.Timer.Locks.Deeds.{handed_out}
use qing.Timer.Locks.Frames.{runner_step-Moved}
use qing.Timer.Locks.Moves.{awaited, Moved}
use qing.Timer.Locks.Safe.{
  IsSafe, Step-IsSafe, Step-Stepped, Reach-IsSafe, starts_with, starts_with-IsSafe,
}
use qing.Timer.Locks.Awaited.{inserting_of-awaited, key_positive, found-unclaimed, still_unclaimed}

-- The timer `k` was marked, or is gone, and no thread is yet to insert it.
record IsDone (k n : ℕ) (w : System) : Type 0 where
  safe : IsSafe w
  positive : 0 < k
  old : k ≤ w.engine.cur_timer_id
  over_with : ((s : Slot) × Doomed s k n w.engine) ⊎ Settled k n w.engine
  unclaimed : (a : ℕ) → awaited (w.runners a).act ≢ k

module _ (h : Host) (k n : ℕ) where
  put-IsDone :
      (s : Slot) (a : ℕ) (r : Runner) (e' : TimerThread) (w : System)
      → Moved s (w.runners a) r w.engine e'
      → IsSafe (record { engine = e'; runners = put a r w.runners })
      → IsDone k n w
      → IsDone k n (record { engine = e'; runners = put a r w.runners })
  put-IsDone s a r e' w m safe d = record {
    safe = safe;
    positive = d.positive;
    old = omega (arith, d.old, m.deed.ids);
    over_with = elim d.over_with [
      | inl (s', doomed) ↦ elim (m.deed.doomed s' k n doomed) [
        | inl still ↦ inl (s', still)
        | inr gone ↦ inr gone
      ]
      | inr settled ↦ inr (
          m.deed.settled k n
            (λ p. elim (inserting_of-awaited (w.runners a).act) [
              | inl zero_now ↦ omega (arith, d.positive, p, zero_now)
              | inr its ↦ d.unclaimed a (sym (p ∙ its))
            ])
            settled)
    ];
    unclaimed = still_unclaimed k a r w d.positive d.old m.waits d.unclaimed;
  }

  Step-IsDone : {w w' : System} → Step h w w' → IsDone k n w → IsDone k n w'
  Step-IsDone {w} {w'} st d =
      let x = Step-Stepped h st d.safe in
      let safe = rw x.is at (Step-IsSafe h st d.safe) in
      rw x.is (put-IsDone x.slot x.who x.runner w'.engine w x.moved safe d)

  Reach-IsDone : {w w' : System} → Reach h w w' → IsDone k n w → IsDone k n w'
  Reach-IsDone here d = d
  Reach-IsDone (next_step r st) d = Step-IsDone st (Reach-IsDone r d)

-- `UnRegister(k)` before the lock of a map.
abbrev pub unregistering : Slot → ℕ → Act
unregistering slot2 k = before_second k
unregistering slot1 k = before_first k

-- The statement of `UnRegister` that finds its timer marks it.
unregistering_lem :
    (h : Host) (s x : Slot) (k : ℕ) (t : ETimer) (r r' : Runner) (e : TimerThread)
    {e' : TimerThread}
    → r.act ≡ some (unregistering s k)
    → find k (table s e) ≡ some t
    → runner_step h x r e ≡ some (r', e')
    → e' ≡ over s (update k marked) e
unfolding runner_step act_step table
unregistering_lem h slot1 x k t r r' e act f p = ground arith
unregistering_lem h slot2 x k t r r' e act f p = ground arith

mark-Doomed :
    (s : Slot) (k : ℕ) (t : ETimer) (e : TimerThread)
    → IsValid e
    → find k (table s e) ≡ some t
    → Doomed s k (count k e.fired) (over s (update k marked) e)
mark-Doomed s k t e v f =
    let (cur, _, log) = over_rest s (update k marked) e in
    record {
      old = omega (arith, cur, handed_out s k t e v f);
      marks = (
        marked t,
        rw (table-over_self s (update k marked) e, find-update_self k marked (table s e), f) refl,
        refl,
      );
      runs = ap (count k) log;
    }

-- If no callback calls `Update`: once the statement of `UnRegister(k)` that finds the timer `k` has
-- gone through, in whatever state the threads were, and whatever statements of passes, callbacks and
-- other calls come after it in whatever order, the callback of `k` is not begun again, and the timer is marked or in neither map.
pub unregister_ends :
    (h : Host) (e : TimerThread) (w w' : System) (a k : ℕ) (s x : Slot) (t : ETimer) (r : Runner)
    (e' : TimerThread)
    → IsValid e
    → Reach h (starts_with e) w
    → (w.runners a).act ≡ some (unregistering s k)
    → find k (table s w.engine) ≡ some t
    → MayStep x a w
    → runner_step h x (w.runners a) w.engine ≡ some (r, e')
    → Reach h (record { engine = e'; runners = put a r w.runners }) w'
    → (count k w'.engine.fired ≡ count k w.engine.fired)
      × (((s' : Slot) × IsMarked s' k w'.engine) ⊎ IsGone k w'.engine)
unregister_ends h e w w' a k s x t r e' v reach act f may p after =
    let safe = Reach-IsSafe h reach (starts_with-IsSafe e v) in
    let safe' = Step-IsSafe h (moves a x r e' may p refl) safe in
    let m =
      runner_step-Moved h x w.engine safe.valid (w.runners a) (safe.fits a) (safe.stands a) p in
    let old = handed_out s k t w.engine safe.valid f in
    let low = key_positive s k t w.engine safe.valid f in
    let d = Reach-IsDone h k (count k w.engine.fired) after (record {
      safe = safe';
      positive = low;
      old = omega (arith, old, m.deed.ids);
      over_with = inl (
        s,
        rw (unregistering_lem h s x k t (w.runners a) r w.engine act f p)
            (mark-Doomed s k t w.engine safe.valid f),
      );
      unclaimed = still_unclaimed k a r w low old m.waits (found-unclaimed s k t w safe f);
    }) in
    elim d.over_with [
      | inl (s', doomed) ↦ (doomed.runs, inl (s', doomed.marks))
      | inr settled ↦ (settled.runs, inr settled.gone)
    ]
