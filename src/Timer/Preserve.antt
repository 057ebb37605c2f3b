-- ===== src/Timer/Preserve.antt =====
-- The invariant under the calls of a callback, the visits and the loops of `Update`.
use qing.Common.{
  ℕ, suc, ◌≡◌, refl, arith, inl, inr, Option, some, List, [], ◌∷◌, Bool-cases, >>=-eq-some,
  along_some,
}
use qing.Common.OrdMap.{update, begin}
use qing.Timer.Register.{Effect, enrols, marks, keeps, apply_call-Effect, timer_of, numbered}
use qing.Timer.Visit.{
  sweep-keeps, update_all-loops, Visited, missing, deleted, waiting, fires, called_back,
}
use qing.Timer.Defs.{
  ETimer, Slot, slot1, slot2, TimerThread, table, over, Call, Host, apply_call, apply_calls, rearm,
  marked, restarted, sweep, update_all,
}
use qing.Timer.Valid.{IsValid, later-IsValid, erase-IsValid, update-IsValid, insert-IsValid}

module _ (h : Host) where
  pub Effect-IsValid : {e e' : TimerThread} → Effect h e e' → IsValid e → IsValid e'
  Effect-IsValid {e} {e'} (enrols s once interval fp q) v =
      rw q (insert-IsValid e (numbered e) s (timer_of h once interval fp e) v refl refl refl refl)
  Effect-IsValid {e} {e'} (marks s k q) v = rw q (update-IsValid e s k marked (λ t. refl) v)
  Effect-IsValid (keeps q) v = rw q v

  pub apply_calls-IsValid :
      (cs : List Call) (e : TimerThread) {e' : TimerThread}
      → IsValid e
      → apply_calls h cs e ≡ some e'
      → IsValid e'
  unfolding apply_calls
  apply_calls-IsValid [] e {e'} v p = along_some IsValid e e' p v
  apply_calls-IsValid (c ∷ cs) e v p =
      let (e1, p1, p2) = >>=-eq-some (apply_call h c e) (apply_calls h cs) p in
      apply_calls-IsValid cs e1 (Effect-IsValid (apply_call-Effect h e c p1) v) p2

  -- Neither the clock's readings nor the log bears on it.
  pub IsValid-rest :
      (e : TimerThread) (n : ℕ) (log : List ℕ)
      → IsValid e
      → IsValid (record e { reads = n; fired = log })
  IsValid-rest e n log v =
      later-IsValid e (record e { reads = n; fired = log }) refl refl (omega arith) v

  pub rearm-IsValid :
      (s : Slot) (k : ℕ) (t : ETimer) (e : TimerThread) → IsValid e → IsValid (rearm h s k t e)
  unfolding rearm
  rearm-IsValid s k t e v =
      let e1 : TimerThread = record e { reads = suc e.reads } in
      let v2 =
        update-IsValid e1 s k (restarted (h.clock e.reads)) (λ t'. refl)
          (IsValid-rest e (suc e.reads) e.fired v) in
      elim (Bool-cases t.run_once) [
        | inl once ↦
            rw once (erase-IsValid (over s (update k (restarted (h.clock e.reads))) e1) s k v2)
        | inr again ↦ rw again v2
      ]

  pub Visited-IsValid :
      {s : Slot} {k : ℕ} {e e' : TimerThread} → Visited h s k e e' → IsValid e → IsValid e'
  Visited-IsValid (missing f q) v = rw q v
  Visited-IsValid {s} {k} {e} (deleted t f d q) v = rw q (erase-IsValid e s k v)
  Visited-IsValid {s} {k} {e} (waiting t f d w q) v = rw q (IsValid-rest e (suc e.reads) e.fired v)
  Visited-IsValid {s} {k} {e} (fires t e1 f d w p q) v = rw q (
      rearm-IsValid s k t e1 (
        apply_calls-IsValid (h.actions t.fp (suc e.reads)) (called_back k e)
          (IsValid-rest e (suc e.reads) (k ∷ e.fired) v) p))

  pub sweep-IsValid :
      (s : Slot) (fuel : ℕ) (position : Option ℕ) (e : TimerThread) {e' : TimerThread}
      → IsValid e
      → sweep h s fuel position e ≡ some e'
      → IsValid e'
  sweep-IsValid s = sweep-keeps h s IsValid (λ k e e' v vis. Visited-IsValid vis v)

  -- A pass of `Update`, whatever calls but `Update` the callbacks make, keeps the invariant.
  pub update_all-IsValid :
      (fuel : ℕ) (e : TimerThread) {e' : TimerThread}
      → IsValid e
      → update_all h fuel e ≡ some e'
      → IsValid e'
  unfolding update_all
  update_all-IsValid fuel e v p =
      let (e1, p1, p2) = update_all-loops h fuel e p in
      sweep-IsValid slot2 fuel (begin (table slot2 e1)) e1
        (sweep-IsValid slot1 fuel (begin (table slot1 e)) e v p1) p2
