-- ===== src/Timer/Locks/Onces.antt =====
-- What the statements of `Update` do to the timers that run once.
use qing.Common.{
  ℕ, ◌≡◌, refl, sym, ap, ◌∙◌, inl, inr, ◌↔◌, true, Option, some, List, [], ◌∷◌, arith, count,
}
use qing.Common.OrdMap.{find, erase}
use qing.Timer.Defs.{ETimer, Slot, TimerThread, table, over, Call, Host, rearm}
use qing.Timer.Tables.{table_eq, over_rest, Slot-cases}
use qing.Timer.Visit.{called_back, read_once, deleted}
use qing.Timer.Valid.{IsValid}
use qing.Timer.Frame.{Carried, Carried-some}
use qing.Timer.Passes.{Visited-Passes, rearm_rest, rearm-carries}
use qing.Timer.Deleted.{erase-Settled, count-other}
use qing.Timer.Locks.{Frame, looping, calling_back}
use qing.Timer.Locks.Deeds.{handed_out}
use qing.Timer.Locks.Nodes.{at_node, rearm-Settled}
use qing.Timer.Locks.Moves.{IsAt, Once, stays, runs, ends, AllOnce}

abbrev pub NotAt : Frame → Type 0
NotAt f = (s : Slot) (k : ℕ) → ¬ IsAt s k f

pub looping-NotAt : (s : Slot) (position : Option ℕ) → NotAt (looping s position)
looping-NotAt s position s' k (cs, q) = cc

calling_back-injective :
    (s s' : Slot) (k j : ℕ) (cs ds : List Call)
    → calling_back s k cs ≡ calling_back s' j ds
    → (s' ≡ s) × (j ≡ k)
calling_back-injective s s' k j cs ds q = (cc, cc)

-- The engine stays, and the thread is in no callback before or after.
pub same-AllOnce : (f f' : Frame) (e : TimerThread) → NotAt f → NotAt f' → AllOnce f f' e e
same-AllOnce f f' e not_at not_at' s k t found once =
    stays t found once refl (λ x. absurd (not_at s k x), λ x. absurd (not_at' s k x))

-- A callback makes its next call.
pub calls-AllOnce :
    (s : Slot) (k : ℕ) (c : Call) (cs : List Call) (e : TimerThread)
    → AllOnce (calling_back s k (c ∷ cs)) (calling_back s k cs) e e
calls-AllOnce s k c cs e s' j t found once =
    stays t found once refl (λ (ds, q). (cs, cc q), λ (ds, q). (c ∷ cs, cc q))

module _ (h : Host) (s : Slot) (k : ℕ) (e : TimerThread) (v : IsValid e) where
  -- No other map has the id of the node.
  same_map :
      (t : ETimer)
      → find k (table s e) ≡ some t
      → (s' : Slot) (j : ℕ) (u : ETimer) → find j (table s' e) ≡ some u
      → j ≡ k
      → s' ≡ s
  same_map t f s' j u g q = elim (Slot-cases s' s) [
    | inl p ↦ p
    | inr p ↦ cc (v.apart s s' k t (λ x. p (sym x)) f, q, g)
  ]

  -- A timer that is carried over stays.
  Carried-Once :
      (f f' : Frame) (s' : Slot) (j : ℕ) (u : ETimer) (e' : TimerThread)
      → find j (table s' e) ≡ some u
      → u.run_once ≡ true
      → Carried (find j (table s' e)) (find j (table s' e'))
      → count j e'.fired ≡ count j e.fired
      → IsAt s' j f ↔ IsAt s' j f'
      → Once s' j f f' e e'
  Carried-Once f f' s' j u e' found once c log at =
      let (u', there, kept) = Carried-some (rw found at c) in
      stays u' there (kept.run_once ∙ once) log at

  pub erase-AllOnce :
      (t : ETimer) (position : Option ℕ)
      → find k (table s e) ≡ some t
      → t.need_delete ≡ true
      → AllOnce (looping s (some k)) (looping s position) e (over s (erase k) e)
  erase-AllOnce t position f m s' j u found once = elim (at_node h s k e v s' j) [
    | inl (p, q) ↦
        rw (p, q) (ends (erase-Settled s k (count k e.fired) t e v (handed_out s k t e v f) f refl))
    | inr ne ↦
        let passes = Visited-Passes h (deleted t f m refl) in
        Carried-Once (looping s (some k)) (looping s position) s' j u (over s (erase k) e) found
          once (passes.carries s' j (handed_out s' j u e v found) ne)
          (ap (count j) (over_rest s (erase k) e).2)
          (
            λ x. absurd (looping-NotAt s (some k) s' j x),
            λ x. absurd (looping-NotAt s position s' j x),
          )
  ]

  pub read_once-AllOnce :
      (position : Option ℕ) → AllOnce (looping s (some k)) (looping s position) e (read_once e)
  read_once-AllOnce position s' j u found once =
      stays u (rw (table_eq s' e (read_once e) refl refl) found) once refl (
        λ x. absurd (looping-NotAt s (some k) s' j x),
        λ x. absurd (looping-NotAt s position s' j x),
      )

  pub called_back-AllOnce :
      (t : ETimer) (cs : List Call)
      → find k (table s e) ≡ some t
      → AllOnce (looping s (some k)) (calling_back s k cs) e (called_back k e)
  called_back-AllOnce t cs f s' j u found once =
      let there = rw (← table_eq s' e (called_back k e) refl refl) at found in
      elim (at_node h s k e v s' j) [
        | inl (p, q) ↦ runs u there once (ground arith) (rw (p, q) refl) (cs, rw (p, q) refl)
        | inr ne ↦
            stays u there once (count-other k j e.fired (λ q. ne (same_map t f s' j u found q) q)) (
              λ x. absurd (looping-NotAt s (some k) s' j x),
              λ (ds, q).
                  let (same, is) = calling_back-injective s s' k j cs ds q in absurd (ne same is),
            )
      ]

  pub rearm-AllOnce :
      (t : ETimer) (position : Option ℕ)
      → find k (table s e) ≡ some t
      → AllOnce (calling_back s k []) (looping s position) e (rearm h s k t e)
  rearm-AllOnce t position f s' j u found once = elim (at_node h s k e v s' j) [
    | inl (p, q) ↦
        let its : t ≡ u = ground (arith, rw (p, q) at found) in
        rw (p, q)
          (ends (
            rearm-Settled h s k e v t (count k e.fired) f (rw its once) (handed_out s k t e v f)
              refl))
    | inr ne ↦
        Carried-Once (calling_back s k []) (looping s position) s' j u (rearm h s k t e) found once
          (rearm-carries h s s' j k t e ne) (ap (count j) (rearm_rest h s k t e).1)
          (
            λ (ds, q).
                let (same, is) = calling_back-injective s s' k j [] ds q in absurd (ne same is),
            λ x. absurd (looping-NotAt s position s' j x),
          )
  ]
