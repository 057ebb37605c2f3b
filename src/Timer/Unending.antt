-- ===== src/Timer/Unending.antt =====
-- A pass of `Update` that does not end: a callback that registers itself again at once.
use qing.Common.{
  ℕ, zero, suc, ◌≤◌, ◌≡◌, refl, ap, ◌∙◌, true, false, none, some, [], ◌∷◌, arith, pos,
}
use qing.Common.OrdMap.{find, insert, erase, update, begin, next}
use qing.Timer.Defs.{
  ETimer, slot1, slot2, TimerThread, table, over, register, Host, new_timer, open_sec, spin,
  register_timer, get_clock, register_sec, apply_call, apply_calls, rearm, fire, visit_node, visit,
  sweep, update_all,
}

-- A timer of no interval with the callback `f`.
pub record IsEager (f : ℕ) (t : ETimer) : Type 0 where
  pub leftsecs : t.leftsecs ≡ 0
  pub once : t.run_once ≡ true
  pub unmarked : t.need_delete ≡ false
  pub fp : t.fp ≡ f

module _ (h : Host) (f : ℕ)
    (again : (n : ℕ) → h.actions f n ≡ register ((true, true) ∷ []) true (pos 0) f ∷ []) where
  -- The timer that the callback registers.
  abbrev eager : ℕ → ℕ → ETimer
  eager id now_clock = record {
    interval = 0;
    leftsecs = 0;
    startclock = now_clock;
    timer_id = id;
    run_once = true;
    need_delete = false;
    fp = f;
  }

  visit-eager :
      (k : ℕ) (t : ETimer) (e : TimerThread)
      → k ≤ e.cur_timer_id
      → e.timers2 ≡ (k, t) ∷ []
      → IsEager f t
      → visit h slot2 k e
        ≡ some (record e {
          timers2 = (suc e.cur_timer_id, eager (suc e.cur_timer_id) (h.clock (suc e.reads))) ∷ [];
          cur_timer_id = suc e.cur_timer_id;
          reads = suc (suc (suc e.reads));
          fired = k ∷ e.fired;
        })
  unfolding visit visit_node get_clock fire rearm apply_calls apply_call register_sec register_timer
      spin new_timer open_sec over table find insert update erase
  visit-eager k t e le only v =
      ground (arith, again (suc e.reads), v.leftsecs, v.once, v.unmarked, v.fp)

  sweep-eager :
      (fuel k : ℕ) (t : ETimer) (e : TimerThread)
      → k ≤ e.cur_timer_id
      → e.timers2 ≡ (k, t) ∷ []
      → IsEager f t
      → sweep h slot2 fuel (some k) e ≡ none
  unfolding sweep table next
  sweep-eager zero k t e le only v = refl
  sweep-eager (suc fuel) k t e le only v =
      let id = suc e.cur_timer_id in
      let t' = eager id (h.clock (suc e.reads)) in
      let e' : TimerThread = record e {
        timers2 = (id, t') ∷ [];
        cur_timer_id = id;
        reads = suc (suc (suc e.reads));
        fired = k ∷ e.fired;
      } in
      let step = visit-eager k t e le only v in
      let rest =
        sweep-eager fuel id t' e' (omega arith) refl
          (record { leftsecs = refl; once = refl; unmarked = refl; fp = refl }) in
      let on : next k e'.timers2 ≡ some id = ground arith in rw (step, on) rest

  nothing_there :
      (fuel : ℕ) (e : TimerThread) → sweep h slot1 (suc fuel) (begin {V = ETimer} []) e ≡ some e
  unfolding sweep begin
  nothing_there fuel e = refl

  starts_at :
      (fuel k : ℕ) (t : ETimer) (e : TimerThread)
      → sweep h slot2 (suc fuel) (begin ((k, t) ∷ [])) e ≡ sweep h slot2 (suc fuel) (some k) e
  unfolding begin
  starts_at fuel k t e = refl

  -- A callback that registers itself again, to run once and with an interval of 0, while no other
  -- thread holds the lock of the second map: if the map holds such a timer and no other, and the
  -- first is empty, `Update` does not end, whatever its fuel, as long as the ids last.
  pub update_all_unending :
      (fuel k : ℕ) (t : ETimer) (e : TimerThread)
      → e.timers1 ≡ []
      → e.timers2 ≡ (k, t) ∷ []
      → k ≤ e.cur_timer_id
      → IsEager f t
      → update_all h fuel e ≡ none
  unfolding update_all table
  update_all_unending zero k t e none_there only le v = unfold sweep in refl
  update_all_unending (suc fuel) k t e none_there only le v =
      let first : sweep h slot1 (suc fuel) (begin e.timers1) e ≡ some e =
        ap (λ m. sweep h slot1 (suc fuel) (begin m) e) none_there ∙ nothing_there fuel e in
      rw first (
        ap (λ m. sweep h slot2 (suc fuel) (begin m) e) only
        ∙ starts_at fuel k t e
        ∙ sweep-eager (suc fuel) k t e le only v)
