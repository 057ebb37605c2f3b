-- ===== src/Timer/Overtake.antt =====
-- One thread that registers undisturbed, and two of which one overtakes the other.
use mathlib.Core.Option
use qing.Common.{
  ℕ, suc, ◌≡◌, refl, sym, ap, ◌∙◌, ◌≢◌, inl, inr, Bool, Option, some, List, arith, Bool-cases,
  if◌then◌else◌,
}
use qing.Common.OrdMap.{find, insert, find-update_self, find-update_ne}
use qing.Timer.Defs.{
  ETimer, new_timer, open_sec, open_milsec, Slot, slot1, slot2, TimerThread, over, Host, get_clock,
  spin, register_timer, register_sec, register_milsec,
}
use qing.Timer.Tables.{over_rest}
use qing.Timer.Threads.{
  Request, Phase, calling, numbered, opened, inserted, returned, open_request, advance, Threads,
  move, moves, Reach, here, next,
}
use qing.Timer.ThreadSteps.{open_request-id}

-- The call that a thread's statements make up.
abbrev pub whole_call : Host → List (Bool × Bool) → Request → TimerThread → Option (ℕ × TimerThread)
whole_call h rounds r e =
    if r.in_milsec
    then register_milsec h rounds r.run_once r.interval_time r.fp e
    else register_sec h rounds r.run_once r.interval_time r.fp e

abbrev pub four_statements : Host → Slot → Phase → TimerThread → Phase × TimerThread
four_statements h s p e =
    let (p1, e1) = advance h s p e in
    let (p2, e2) = advance h s p1 e1 in let (p3, e3) = advance h s p2 e2 in advance h s p3 e3

-- A thread whose four statements nothing comes between does what the whole call does, for the map
-- that its rounds of `try_lock` end with: it leaves the same engine, and returns its timer's id.
pub statements-call :
    (h : Host) (rounds : List (Bool × Bool)) (s : Slot) (r : Request) (e : TimerThread)
    → spin rounds ≡ some s
    → let (p', e') = four_statements h s (calling r) e in
      (t : ETimer) × (p' ≡ returned t t.timer_id)
      × (whole_call h rounds r e ≡ some (t.timer_id, e'))
unfolding advance get_clock new_timer open_request open_sec open_milsec register_sec register_milsec
    register_timer over
statements-call h rounds slot1 r e q = elim (Bool-cases r.in_milsec) [
  | inl m ↦ (
    open_request r (new_timer r.run_once (suc e.cur_timer_id)) (h.clock e.reads),
    rw m refl,
    rw (m, q) refl,
  )
  | inr m ↦ (
    open_request r (new_timer r.run_once (suc e.cur_timer_id)) (h.clock e.reads),
    rw m refl,
    rw (m, q) refl,
  )
]
statements-call h rounds slot2 r e q = elim (Bool-cases r.in_milsec) [
  | inl m ↦ (
    open_request r (new_timer r.run_once (suc e.cur_timer_id)) (h.clock e.reads),
    rw m refl,
    rw (m, q) refl,
  )
  | inr m ↦ (
    open_request r (new_timer r.run_once (suc e.cur_timer_id)) (h.clock e.reads),
    rw m refl,
    rw (m, q) refl,
  )
]

module _ (h : Host) (s : Slot) (a : ℕ) (p : Phase) (w : Threads)
    (found : find a w.phases ≡ some p) where
  find-move_self : find a (move h s a p w).phases ≡ some (advance h s p w.engine).0
  unfolding move
  find-move_self =
      find-update_self a (λ _. (advance h s p w.engine).0) w.phases
      ∙ ap (Option.map (λ _. (advance h s p w.engine).0)) found

  find-move_ne : (b : ℕ) → b ≢ a → find b (move h s a p w).phases ≡ find b w.phases
  unfolding move
  find-move_ne b ne = find-update_ne b a (λ _. (advance h s p w.engine).0) w.phases ne

-- A thread with an id goes through the statements that are left: it returns what the counter is.
record Finishes (h : Host) (a : ℕ) (t : ETimer) (w w' : Threads) : Type 0 where
  reach : Reach h w w'
  timer : ETimer
  id : timer.timer_id ≡ t.timer_id
  found : find a w'.phases ≡ some (returned timer w.engine.cur_timer_id)
  ids : w'.engine.cur_timer_id ≡ w.engine.cur_timer_id
  rest : (b : ℕ) → b ≢ a → find b w'.phases ≡ find b w.phases

finish :
    (h : Host) (s : Slot) (a : ℕ) (r : Request) (t : ETimer) (w : Threads)
    → find a w.phases ≡ some (numbered r t)
    → (w' : Threads) × Finishes h a t w w'
unfolding move advance get_clock
finish h s a r t w found =
    let t' = open_request r t (h.clock w.engine.reads) in
    let w1 = move h s a (numbered r t) w in
    let f1 : find a w1.phases ≡ some (opened t') = find-move_self h s a (numbered r t) w found in
    let w2 = move h s a (opened t') w1 in
    let f2 : find a w2.phases ≡ some (inserted t') = find-move_self h s a (opened t') w1 f1 in
    let w3 = move h s a (inserted t') w2 in
    let c : w2.engine.cur_timer_id ≡ w.engine.cur_timer_id =
      (over_rest s (insert t'.timer_id t') w1.engine).0 in
    let f3 : find a w3.phases ≡ some (returned t' w2.engine.cur_timer_id) =
      find-move_self h s a (inserted t') w2 f2 in
    (
      w3,
      record {
        reach =
            next
              (next (next here (moves s a (numbered r t) found refl))
                (moves s a (opened t') f1 refl))
              (moves s a (inserted t') f2 refl);
        timer = t';
        id = open_request-id r t (h.clock w.engine.reads);
        found = f3 ∙ ap (λ (n : ℕ). some (returned t' n)) c;
        ids = c;
        rest = λ b ne.
            find-move_ne h s a (inserted t') w2 f2 b ne
            ∙ find-move_ne h s a (opened t') w1 f1 b ne
            ∙ find-move_ne h s a (numbered r t) w found b ne;
      },
    )

Reach-trans : {h : Host} {w w' w'' : Threads} → Reach h w w' → Reach h w' w'' → Reach h w w''
Reach-trans r here = r
Reach-trans r (next r' st) = next (Reach-trans r r') st

-- Of any two threads that are about to register, in whatever state of the engine, an order of their
-- statements leads to both returning the same id, which is that of the second thread's timer and not
-- of the first's.
pub register_overtaken :
    (h : Host) (s : Slot) (a b : ℕ) (r q : Request) (w : Threads)
    → a ≢ b
    → find a w.phases ≡ some (calling r)
    → find b w.phases ≡ some (calling q)
    → (w' : Threads) × (t : ETimer) × (u : ETimer) × (n : ℕ) × Reach h w w'
      × (find a w'.phases ≡ some (returned t n))
      × (find b w'.phases ≡ some (returned u n))
      × (u.timer_id ≡ n)
      × (t.timer_id ≢ n)
unfolding move advance new_timer
register_overtaken h s a b r q w ne fa fb =
    let id = suc w.engine.cur_timer_id in
    let w1 = move h s a (calling r) w in
    let a1 = find-move_self h s a (calling r) w fa in
    let b1 = find-move_ne h s a (calling r) w fa b (λ x. ne (sym x)) ∙ fb in
    let w2 = move h s b (calling q) w1 in
    let b2 = find-move_self h s b (calling q) w1 b1 in
    let a2 = find-move_ne h s b (calling q) w1 b1 a ne ∙ a1 in
    let (w3, f) = finish h s a r (new_timer r.run_once id) w2 a2 in
    let (w4, g) =
      finish h s b q (new_timer q.run_once (suc id)) w3 (f.rest b (λ x. ne (sym x)) ∙ b2) in
    (
      w4,
      f.timer,
      g.timer,
      suc id,
      Reach-trans
          (Reach-trans
            (next (next here (moves s a (calling r) fa refl)) (moves s b (calling q) b1 refl))
            f.reach)
          g.reach,
      g.rest a ne ∙ f.found,
      g.found ∙ ap (λ (n : ℕ). some (returned g.timer n)) f.ids,
      g.id,
      omega (arith, f.id),
    )
