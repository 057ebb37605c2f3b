-- ===== src/Timer/Locks/Frames.antt =====
-- The statements of `Update`, and with those of the calls every statement of a thread.
use qing.Common.{
  suc, ℕ, ◌≡◌, refl, sym, ◌∙◌, ◌⊎◌, inl, inr, Option, none, some, [], ◌∷◌, arith, Option-cases,
  Bool-cases, along_some,
}
use qing.Common.OrdMap.{find, erase, begin, next, next-find, begin-find}
use qing.Timer.Defs.{ETimer, Slot, slot1, slot2, TimerThread, table, over, Host, get_clock, rearm}
use qing.Timer.Tables.{table_eq}
use qing.Timer.Visit.{called_back, read_once, waiting, deleted, is_due}
use qing.Timer.Valid.{IsValid}
use qing.Timer.Locks.{
  Act, Frame, outside, locking, looping, calling_back, Runner, at_frame, start, unlocked, look,
  frame_step, runner_step, held, lock_of,
}
use qing.Timer.Locks.Deeds.{Deed, Deed-same}
use qing.Timer.Locks.Nodes.{Visited-Deed, called_back-Deed, rearm-Deed}
use qing.Timer.Locks.Calls.{Goes, act-Goes}
use qing.Timer.Locks.Onces.{
  same-AllOnce, calls-AllOnce, erase-AllOnce, read_once-AllOnce, called_back-AllOnce, rearm-AllOnce,
}
use qing.Timer.Locks.Moves.{
  AllOnce, FitsAct, Stands, Moved, start-id_of, start-awaited, start-FitsAct,
}

module _ (h : Host) (s : Slot) (e : TimerThread) (v : IsValid e) where
  pub next-Stands :
      (s' : Slot) (k : ℕ) (e' : TimerThread) → Stands (looping s' (next k (table s' e'))) e'
  next-Stands s' k e' = elim (Option-cases (next k (table s' e'))) [
    | inl q ↦ rw q tt
    | inr (j, q) ↦ rw q (next-find k j (table s' e') q)
  ]

  pub begin-Stands : (s' : Slot) → Stands (looping s' (begin (table s' e))) e
  begin-Stands s' = elim (Option-cases (begin (table s' e))) [
    | inl q ↦ rw q tt
    | inr (j, q) ↦ rw q (begin-find j (table s' e) q)
  ]

  -- A statement outside the calls.
  in_frame :
      (f f' : Frame) (e' : TimerThread)
      → Deed (held f) 0 e e'
      → Stands f' e'
      → ((s' : Slot) → held f' ≡ some s' → (held f ≡ some s') ⊎ (lock_of s (at_frame f) ≡ some s'))
      → AllOnce f f' e e'
      → Moved s (at_frame f) (at_frame f') e e'
  in_frame f f' e' deed st holds once = record {
    deed = deed;
    fits = tt;
    id = inl refl;
    waits = inl refl;
    stands = st;
    holds = holds;
    once = once;
  }

  looks :
      (s' : Slot) (k : ℕ) (t : ETimer)
      → find k (table s' e) ≡ some t
      → let (r', e') = look h s' k t e in Moved s (at_frame (looping s' (some k))) r' e e'
  unfolding look get_clock
  looks s' k t f = elim (Bool-cases t.need_delete) [
    | inl m ↦ rw m (
        in_frame (looping s' (some k)) (looping s' (next k (table s' (over s' (erase k) e))))
          (over s' (erase k) e) (Visited-Deed h s' k e v (deleted t f m refl))
          (next-Stands s' k (over s' (erase k) e)) (λ x q. inl q)
          (erase-AllOnce h s' k e v t (next k (table s' (over s' (erase k) e))) f m))
    | inr m ↦ elim (Bool-cases (is_due h t e)) [
      | inr w ↦
          rw (m, w)
            (in_frame (looping s' (some k)) (looping s' (next k (table s' (read_once e))))
              (read_once e) (Visited-Deed h s' k e v (waiting t f m w refl))
              (next-Stands s' k (read_once e)) (λ x q. inl q)
              (read_once-AllOnce h s' k e v (next k (table s' (read_once e)))))
      | inl w ↦
          rw (m, w)
            (in_frame (looping s' (some k)) (calling_back s' k (h.actions t.fp (suc e.reads)))
              (called_back k e) (called_back-Deed h s' k e v t f m)
              (t, rw (table_eq s' e (called_back k e) refl refl) f) (λ x q. inl q)
              (called_back-AllOnce h s' k e v t (h.actions t.fp (suc e.reads)) f))
    ]
  ]

  frame-Goes : (f : Frame) → Stands f e → Goes h s e v (at_frame f)
  unfolding runner_step frame_step unlocked
  frame-Goes outside st = (
    _,
    e,
    refl,
    in_frame outside outside e (Deed-same none 0 e v) tt (λ x q. inl q)
        (same-AllOnce outside outside e (λ x k (cs, q). cc) (λ x k (cs, q). cc)),
  )
  frame-Goes (locking s') st = (
    _,
    e,
    refl,
    in_frame (locking s') (looping s' (begin (table s' e))) e (Deed-same none 0 e v)
        (begin-Stands s') (λ x q. inr q)
        (same-AllOnce (locking s') (looping s' (begin (table s' e))) e (λ x k (cs, q). cc)
          (λ x k (cs, q). cc)),
  )
  frame-Goes (looping slot1 none) st = (
    _,
    e,
    refl,
    in_frame (looping slot1 none) (locking slot2) e (Deed-same (some slot1) 0 e v) tt (λ x q. cc)
        (same-AllOnce (looping slot1 none) (locking slot2) e (λ x k (cs, q). cc)
          (λ x k (cs, q). cc)),
  )
  frame-Goes (looping slot2 none) st = (
    _,
    e,
    refl,
    in_frame (looping slot2 none) outside e (Deed-same (some slot2) 0 e v) tt (λ x q. cc)
        (same-AllOnce (looping slot2 none) outside e (λ x k (cs, q). cc) (λ x k (cs, q). cc)),
  )
  frame-Goes (looping s' (some k)) (t, f) = (_, _, ground arith, looks s' k t f)
  frame-Goes (calling_back s' k (c ∷ cs)) (t, f) = (
    record { frame = calling_back s' k cs; act = some (start c) },
    e,
    refl,
    record {
      deed = Deed-same (some s') 0 e v;
      fits = start-FitsAct c e;
      id = inr (inl (start-id_of c));
      waits = inr (inl (start-awaited c));
      stands = (t, f);
      holds = λ x q. inl q;
      once = calls-AllOnce s' k c cs e;
    },
  )
  frame-Goes (calling_back s' k []) (t, f) = (
    _,
    _,
    ground arith,
    in_frame (calling_back s' k []) (looping s' (next k (table s' (rearm h s' k t e))))
        (rearm h s' k t e) (rearm-Deed h s' k e v t f) (next-Stands s' k (rearm h s' k t e))
        (λ x q. inl q) (rearm-AllOnce h s' k e v t (next k (table s' (rearm h s' k t e))) f),
  )

  -- A thread whose call and whose iterator are as they should be goes on.
  pub runner_step-Goes : (r : Runner) → FitsAct r.act e → Stands r.frame e → Goes h s e v r
  runner_step-Goes r w st = go r.frame r.act w st
    where
      go :
          (f : Frame) (a : Option Act)
          → FitsAct a e
          → Stands f e
          → Goes h s e v (record { frame = f; act = a })
      go f none w st = frame-Goes f st
      go f (some a) w st = act-Goes h s e v f a w st

  pub runner_step-Moved :
      (r : Runner) {r' : Runner} {e' : TimerThread}
      → FitsAct r.act e
      → Stands r.frame e
      → runner_step h s r e ≡ some (r', e')
      → Moved s r r' e e'
  runner_step-Moved r {r'} {e'} w st p =
      let (r1, e1, q, m) = runner_step-Goes r w st in
      along_some (λ (x : Runner × TimerThread). Moved s r x.0 e x.1) (r1, e1) (r', e') (sym q ∙ p) m
