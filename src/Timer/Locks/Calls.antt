-- ===== src/Timer/Locks/Calls.antt =====
-- The statements of the calls.
use qing.Common.{count, ap, ◌∙◌, ◌≡◌, refl, inl, inr, Option, none, some, arith, Option-cases}
use qing.Common.OrdMap.{find, update}
use qing.Timer.Defs.{Slot, slot1, slot2, TimerThread, over, marked, Host, get_clock}
use qing.Timer.Register.{marks}
use qing.Timer.Valid.{IsValid}
use qing.Timer.Threads.{Phase, calling, numbered, opened, inserted, returned, advance}
use qing.Timer.ThreadSteps.{Fits, advance-Moves}
use qing.Timer.Locks.{
  Act, registering, before_second, before_first, Frame, Runner, at_frame, act_step, runner_step,
  held,
}
use qing.Timer.Locks.Deeds.{Deed, Deed-same, Effect-Deed, advance-Deed, advance-fired}
use qing.Timer.ThreadSteps.{open_request-id}
use qing.Timer.Defs.{new_timer}
use qing.Timer.Tables.{over_rest}
use qing.Timer.Locks.Moves.{
  stays, id_of, inserting_of, awaited, IsNoneOr, FitsAct, Stands, Stands-remains, Moved,
}

module _ (h : Host) (s : Slot) (e : TimerThread) (v : IsValid e) where
  -- A statement in a call leaves the frame alone.
  in_call :
      (f : Frame) (a a' : Option Act) (e' : TimerThread)
      → ((mine : Option Slot) → Deed mine (inserting_of a) e e')
      → FitsAct a' e'
      → IsNoneOr (id_of a') (id_of a) e
      → IsNoneOr (awaited a') (awaited a) e
      → e'.fired ≡ e.fired
      → Stands f e
      → Moved s (record { frame = f; act = a }) (record { frame = f; act = a' }) e e'
  in_call f a a' e' deed fits id waits log st = record {
    deed = deed (held f);
    fits = fits;
    id = id;
    waits = waits;
    stands = Stands-remains f none (inserting_of a) e e' (deed none) (λ s' q. λ p. cc) st;
    holds = λ s' q. inl q;
    once = λ s' k t found runs_once.
        let (u, there, kept) = (deed none).remains s' k t (λ q. cc) found in
        stays u there (kept.run_once ∙ runs_once) (ap (count k) log) (λ x. x, λ x. x);
  }

  advance-awaited :
      (p : Phase)
      → let (p', e') = advance h s p e in
        IsNoneOr (awaited (some (registering p'))) (awaited (some (registering p))) e
  unfolding advance get_clock new_timer
  advance-awaited (calling r) = inr (inr refl)
  advance-awaited (numbered r t) = inl (open_request-id r t (h.clock e.reads))
  advance-awaited (opened t) = inr (inl refl)
  advance-awaited (inserted t) = inl refl
  advance-awaited (returned t n) = inl refl

  registers :
      (f : Frame) (p : Phase)
      → Fits p e
      → Stands f e
      → let (p', e') = advance h s p e in
        Moved s
          (record { frame = f; act = some (registering p) })
          (record { frame = f; act = some (registering p') })
          e
          e'
  registers f p w st =
      let m = advance-Moves h s e v p w in
      let (p', e') = advance h s p e in
      in_call f (some (registering p)) (some (registering p')) e'
        (λ mine. advance-Deed h mine e v s p w) m.fits
        (elim m.id [ inl q ↦ inl q | inr q ↦ inr (inr q) ]) (advance-awaited p)
        (advance-fired h none e v s p) st

  -- The statement goes through, and this is what it does.
  abbrev pub Goes : Runner → Type 0
  Goes r =
      (r' : Runner) × (e' : TimerThread) × (runner_step h s r e ≡ some (r', e')) × Moved s r r' e e'

  pub act-Goes :
      (f : Frame) (a : Act)
      → FitsAct (some a) e
      → Stands f e
      → Goes (record { frame = f; act = some a })
  unfolding runner_step act_step
  act-Goes f (registering (calling r)) w st = (_, _, refl, registers f (calling r) w st)
  act-Goes f (registering (numbered r t)) w st = (_, _, refl, registers f (numbered r t) w st)
  act-Goes f (registering (opened t)) w st = (_, _, refl, registers f (opened t) w st)
  act-Goes f (registering (inserted t)) w st = (_, _, refl, registers f (inserted t) w st)
  act-Goes f (registering (returned t id)) w st = (
    at_frame f,
    e,
    refl,
    in_call f (some (registering (returned t id))) none e (λ mine. Deed-same mine 0 e v) tt
        (inr (inl refl)) (inr (inl refl)) refl st,
  )
  act-Goes f (before_second k) w st = elim (Option-cases (find k e.timers2)) [
    | inr (t, q) ↦ (
      at_frame f,
      over slot2 (update k marked) e,
      ground arith,
      in_call f (some (before_second k)) none (over slot2 (update k marked) e)
          (λ mine. Effect-Deed h mine e v 0 (marks slot2 k refl)) tt (inr (inl refl))
          (inr (inl refl)) (over_rest slot2 (update k marked) e).2 st,
    )
    | inl q ↦ (
      record { frame = f; act = some (before_first k) },
      e,
      ground arith,
      in_call f (some (before_second k)) (some (before_first k)) e (λ mine. Deed-same mine 0 e v) tt
          (inl refl) (inl refl) refl st,
    )
  ]
  act-Goes f (before_first k) w st = elim (Option-cases (find k e.timers1)) [
    | inr (t, q) ↦ (
      at_frame f,
      over slot1 (update k marked) e,
      ground arith,
      in_call f (some (before_first k)) none (over slot1 (update k marked) e)
          (λ mine. Effect-Deed h mine e v 0 (marks slot1 k refl)) tt (inr (inl refl))
          (inr (inl refl)) (over_rest slot1 (update k marked) e).2 st,
    )
    | inl q ↦ (
      at_frame f,
      e,
      ground arith,
      in_call f (some (before_first k)) none e (λ mine. Deed-same mine 0 e v) tt (inr (inl refl))
          (inr (inl refl)) refl st,
    )
  ]
