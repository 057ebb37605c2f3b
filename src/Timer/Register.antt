-- ===== src/Timer/Register.antt =====
-- `Register` and `RegisterByMilSec`: which timer goes into which map.
use qing.Common.{
  ℕ, suc, ◌*◌, ◌≡◌, inl, inr, Bool, false, none, some, List, arith, ℤ, u32_of_int, u64,
  Option-cases,
}
use qing.Common.OrdMap.{find, insert, update}
use qing.Timer.Defs.{
  ETimer, Slot, slot1, slot2, TimerThread, over, marked, Call, register, register_by_mil_sec,
  unregister, unregister_timer, Host, spin, register_timer, register_sec, register_milsec,
  apply_call, open_sec, open_milsec,
}

-- The timer that a registration makes, with its interval in microseconds.
abbrev pub timer_of : Host → Bool → ℕ → ℕ → TimerThread → ETimer
timer_of h run_once interval fp e = record {
  interval = interval;
  leftsecs = interval;
  startclock = h.clock e.reads;
  timer_id = suc e.cur_timer_id;
  run_once = run_once;
  need_delete = false;
  fp = fp;
}

-- The engine after the id is taken and the clock is read.
abbrev pub numbered : TimerThread → TimerThread
numbered e = record e { cur_timer_id = suc e.cur_timer_id; reads = suc e.reads }

abbrev pub enrolled : Slot → ETimer → TimerThread → TimerThread
enrolled s t e = over s (insert t.timer_id t) (numbered e)

abbrev pub sec_interval : ℤ → ℕ
sec_interval i = u64 (u32_of_int i * 1_000_000)

abbrev pub milsec_interval : ℤ → ℕ
milsec_interval i = u64 (u32_of_int i * 1000)

module _ (h : Host) (rounds : List (Bool × Bool)) (once : Bool) (i : ℤ) (fp : ℕ)
    (e : TimerThread) where
  pub register_sec-landed :
      (s : Slot)
      → spin rounds ≡ some s
      → register_sec h rounds once i fp e
        ≡ some (suc e.cur_timer_id, enrolled s (timer_of h once (sec_interval i) fp e) e)
  unfolding register_sec register_timer open_sec over
  register_sec-landed slot1 p = rw p
  register_sec-landed slot2 p = rw p

  pub register_milsec-landed :
      (s : Slot)
      → spin rounds ≡ some s
      → register_milsec h rounds once i fp e
        ≡ some (suc e.cur_timer_id, enrolled s (timer_of h once (milsec_interval i) fp e) e)
  unfolding register_milsec register_timer open_milsec over
  register_milsec-landed slot1 p = rw p
  register_milsec-landed slot2 p = rw p

  pub register_sec-spins : spin rounds ≡ none → register_sec h rounds once i fp e ≡ none
  unfolding register_sec register_timer
  register_sec-spins p = rw p

  pub register_milsec-spins : spin rounds ≡ none → register_milsec h rounds once i fp e ≡ none
  unfolding register_milsec register_timer
  register_milsec-spins p = rw p

-- What a call that returns has done: it enrolled a timer, marked one, or changed nothing.
pub data Effect (h : Host) (e e' : TimerThread) : Type 0 where
  enrols :
      (s : Slot) (once : Bool) (interval fp : ℕ)
      → e' ≡ enrolled s (timer_of h once interval fp e) e
      → Effect h e e'
  marks : (s : Slot) (k : ℕ) → e' ≡ over s (update k marked) e → Effect h e e'
  keeps : e' ≡ e → Effect h e e'

module _ (h : Host) (e : TimerThread) {e' : TimerThread} where
  register_sec-Effect :
      (rounds : List (Bool × Bool)) (once : Bool) (i : ℤ) (fp : ℕ)
      → apply_call h (register rounds once i fp) e ≡ some e'
      → Effect h e e'
  unfolding apply_call
  register_sec-Effect rounds once i fp p = elim (Option-cases (spin rounds)) [
    | inl q ↦ cc (register_sec-spins h rounds once i fp e q)
    | inr (s, q) ↦
        enrols s once (sec_interval i) fp
          (ground (arith, register_sec-landed h rounds once i fp e s q))
  ]

  register_milsec-Effect :
      (rounds : List (Bool × Bool)) (once : Bool) (i : ℤ) (fp : ℕ)
      → apply_call h (register_by_mil_sec rounds once i fp) e ≡ some e'
      → Effect h e e'
  unfolding apply_call
  register_milsec-Effect rounds once i fp p = elim (Option-cases (spin rounds)) [
    | inl q ↦ cc (register_milsec-spins h rounds once i fp e q)
    | inr (s, q) ↦
        enrols s once (milsec_interval i) fp
          (ground (arith, register_milsec-landed h rounds once i fp e s q))
  ]

  unregister-Effect : (k : ℕ) → apply_call h (unregister k) e ≡ some e' → Effect h e e'
  unfolding apply_call unregister_timer
  unregister-Effect k p = elim (Option-cases (find k e.timers2)) [
    | inr (t, q) ↦ marks slot2 k (ground arith)
    | inl q ↦ elim (Option-cases (find k e.timers1)) [
      | inr (t, r) ↦ marks slot1 k (ground arith)
      | inl r ↦ keeps (ground arith)
    ]
  ]

  pub apply_call-Effect : (c : Call) → apply_call h c e ≡ some e' → Effect h e e'
  apply_call-Effect (register rounds once i fp) p = register_sec-Effect rounds once i fp p
  apply_call-Effect (register_by_mil_sec rounds once i fp) p =
      register_milsec-Effect rounds once i fp p
  apply_call-Effect (unregister k) p = unregister-Effect k p
