-- ===== src/Timer/Reads.antt =====
-- How the clock is read, and what a run leaves of its timer.
use qing.Common.{
  ℕ, suc, ◌≤◌, ◌≡◌, refl, ap, false, some, List, [], ◌∷◌, arith, >>=-eq-some, along_some,
}
use qing.Common.OrdMap.{find, insert, erase, update, find-update_self}
use qing.Timer.Defs.{
  ETimer, Slot, slot1, slot2, TimerThread, table, over, marked, restarted, Call, Host, apply_call,
  apply_calls, rearm,
}
use qing.Timer.Tables.{table-over_self, over_rest, table_eq}
use qing.Timer.Register.{Effect, enrols, marks, keeps, apply_call-Effect, timer_of, numbered}
use qing.Timer.Visit.{Visited, missing, deleted, waiting, fires, called_back}

module _ (h : Host) where
  pub Effect-reads : {e e' : TimerThread} → Effect h e e' → e.reads ≤ e'.reads
  Effect-reads {e} {e'} (enrols s once interval fp q) =
      let t = timer_of h once interval fp e in
      omega (arith, ap (λ x. x.reads) q, (over_rest s (insert t.timer_id t) (numbered e)).1)
  Effect-reads {e} {e'} (marks s k q) =
      omega (arith, ap (λ x. x.reads) q, (over_rest s (update k marked) e).1)
  Effect-reads {e} {e'} (keeps q) = omega (arith, ap (λ x. x.reads) q)

  pub apply_calls-reads :
      (cs : List Call) (e : TimerThread) {e' : TimerThread}
      → apply_calls h cs e ≡ some e'
      → e.reads ≤ e'.reads
  unfolding apply_calls
  apply_calls-reads [] e {e'} p = along_some (λ x. e.reads ≤ x.reads) e e' p (omega arith)
  apply_calls-reads (c ∷ cs) e p =
      let (e1, p1, p2) = >>=-eq-some (apply_call h c e) (apply_calls h cs) p in
      omega (arith, Effect-reads (apply_call-Effect h e c p1), apply_calls-reads cs e1 p2)

  pub rearm-reads :
      (s : Slot) (k : ℕ) (t : ETimer) (e : TimerThread) → (rearm h s k t e).reads ≡ suc e.reads
  unfolding rearm over
  rearm-reads slot1 k t e = ground arith
  rearm-reads slot2 k t e = ground arith

  pub Visited-reads :
      {s : Slot} {k : ℕ} {e e' : TimerThread} → Visited h s k e e' → e.reads ≤ e'.reads
  Visited-reads {s} {k} {e} (missing f q) = omega (arith, ap (λ x. x.reads) q)
  Visited-reads {s} {k} {e} (deleted t f d q) =
      omega (arith, ap (λ x. x.reads) q, (over_rest s (erase k) e).1)
  Visited-reads {s} {k} {e} (waiting t f d w q) = omega (arith, ap (λ x. x.reads) q)
  Visited-reads {s} {k} {e} (fires t e1 f d w p q) = omega (
    arith,
    ap (λ x. x.reads) q,
    rearm-reads s k t e1,
    apply_calls-reads (h.actions t.fp (suc e.reads)) (called_back k e) p,
  )

  -- A timer that runs again stands in its map with a new start.
  pub rearm_again :
      (s : Slot) (k : ℕ) (t u : ETimer) (e : TimerThread)
      → t.run_once ≡ false
      → find k (table s e) ≡ some u
      → find k (table s (rearm h s k t e)) ≡ some (restarted (h.clock e.reads) u)
  unfolding rearm
  rearm_again s k t u e again f =
      let e1 : TimerThread = record e { reads = suc e.reads } in
      let g = restarted (h.clock e.reads) in
      rw (
        again,
        table-over_self s (update k g) e1,
        table_eq s e e1 refl refl,
        find-update_self k g (table s e),
        f,
      )
