-- ===== src/Timer/Locks/Alone.antt =====
-- One thread that no other comes between: its statements make up the calls and the loops.
use qing.Common.{
  ℕ, ◌≡◌, refl, sym, ◌∙◌, inl, inr, Bool, some, List, [], ◌∷◌, arith, Option-cases, Bool-cases,
  >>=-eq-some, along_some,
}
use qing.Common.OrdMap.{find}
use qing.Timer.Defs.{
  Slot, slot1, TimerThread, Call, register, register_by_mil_sec, unregister, Host, spin,
  register_timer, register_sec, register_milsec, unregister_timer, apply_call, apply_calls,
}
use qing.Timer.Threads.{Request, calling, advance}
use qing.Timer.Overtake.{whole_call, statements-call, four_statements}
use qing.Timer.Locks.{
  Act, registering, before_second, before_first, Frame, calling_back, Runner, at_frame, start,
  act_step, frame_step, runner_step,
}

-- A thread's statements one after the other.
pub data Alone (h : Host) (r : Runner) (e : TimerThread) : Runner → TimerThread → Type 0 where
  rests : Alone h r e r e
  goes :
      (s : Slot) {r1 r2 : Runner} {e1 e2 : TimerThread}
      → Alone h r e r1 e1
      → runner_step h s r1 e1 ≡ some (r2, e2)
      → Alone h r e r2 e2

abbrev pub in_act : Frame → Act → Runner
in_act f a = record { frame = f; act = some a }

module _ (h : Host) where
  pub Alone-trans :
      {r r1 : Runner} {e e1 : TimerThread} {r2 : Runner} {e2 : TimerThread}
      → Alone h r e r1 e1
      → Alone h r1 e1 r2 e2
      → Alone h r e r2 e2
  Alone-trans a rests = a
  Alone-trans a (goes s b p) = goes s (Alone-trans a b) p

  registers :
      (f : Frame) (s : Slot) (r : Request) (e : TimerThread)
      → let (p', e') = four_statements h s (calling r) e in
        Alone h (record { frame = f; act = some (registering (calling r)) }) e (at_frame f) e'
  unfolding runner_step act_step advance
  registers f s r e = goes s (goes s (goes s (goes s (goes s rests refl) refl) refl) refl) refl

  unregisters :
      (f : Frame) (k : ℕ) (e : TimerThread)
      → Alone h
          (record { frame = f; act = some (before_second k) })
          e
          (at_frame f)
          (unregister_timer k e)
  unfolding runner_step act_step unregister_timer
  unregisters f k e = elim (Option-cases (find k e.timers2)) [
    | inr (t, q) ↦ goes slot1 {e1 = e} rests (ground arith)
    | inl q ↦
        let first : Runner = record { frame = f; act = some (before_first k) } in
        goes slot1 {r1 = first} {e1 = e} (goes slot1 {e1 = e} rests (ground arith)) (ground arith)
  ]

  -- A registration whose rounds end with a lock.
  registers_whole :
      (f : Frame) (rounds : List (Bool × Bool)) (r : Request) (id : ℕ) (e e' : TimerThread)
      → whole_call h rounds r e ≡ some (id, e')
      → Alone h (record { frame = f; act = some (registering (calling r)) }) e (at_frame f) e'
  unfolding register_milsec register_sec register_timer
  registers_whole f rounds r id e e' p = elim (Option-cases (spin rounds)) [
    | inl q ↦ elim (Bool-cases r.in_milsec) [ inl m ↦ ground arith | inr m ↦ ground arith ]
    | inr (s, q) ↦
        let (t, _, whole) = statements-call h rounds s r e q in
        along_some
          (λ (x : ℕ × TimerThread). Alone h (in_act f (registering (calling r))) e (at_frame f) x.1)
          (t.timer_id, (four_statements h s (calling r) e).1) (id, e') (sym whole ∙ p)
          (registers f s r e)
  ]

  pub calls_whole :
      (f : Frame) (c : Call) (e e' : TimerThread)
      → apply_call h c e ≡ some e'
      → Alone h (in_act f (start c)) e (at_frame f) e'
  unfolding apply_call start
  calls_whole f (register rounds once i fp) e e' p =
      let ((id, e1), p1, p2) = >>=-eq-some (register_sec h rounds once i fp e) (λ r. some r.1) p in
      along_some (Alone h _ e (at_frame f)) e1 e' p2 (registers_whole f rounds _ id e e1 p1)
  calls_whole f (register_by_mil_sec rounds once i fp) e e' p =
      let ((id, e1), p1, p2) =
        >>=-eq-some (register_milsec h rounds once i fp e) (λ r. some r.1) p in
      along_some (Alone h _ e (at_frame f)) e1 e' p2 (registers_whole f rounds _ id e e1 p1)
  calls_whole f (unregister k) e e' p =
      along_some (Alone h _ e (at_frame f)) (unregister_timer k e) e' p (unregisters f k e)

  pub callback_whole :
      (s : Slot) (k : ℕ) (cs : List Call) (e e' : TimerThread)
      → apply_calls h cs e ≡ some e'
      → Alone h (at_frame (calling_back s k cs)) e (at_frame (calling_back s k [])) e'
  unfolding apply_calls runner_step frame_step
  callback_whole s k [] e e' p = along_some (Alone h _ e _) e e' p rests
  callback_whole s k (c ∷ cs) e e' p =
      let (e1, p1, p2) = >>=-eq-some (apply_call h c e) (apply_calls h cs) p in
      Alone-trans
        (Alone-trans (goes slot1 {e1 = e} rests refl) (calls_whole (calling_back s k cs) c e e1 p1))
        (callback_whole s k cs e1 e' p2)
