-- ===== src/Timer/Ids.antt =====
-- The counter of the ids over calls and passes: it never goes back.
use qing.Common.{ℕ, ◌≤◌, ◌≡◌, Option, some, arith}
use qing.Common.OrdMap.{begin}
use qing.Timer.Defs.{Slot, slot1, slot2, TimerThread, table, Host, sweep, update_all}
use qing.Timer.Visit.{sweep-keeps, update_all-loops}
use qing.Timer.Register.{apply_call-Effect}
use qing.Timer.Frame.{Effect-Extends}
use qing.Timer.Passes.{Visited-Passes}
use qing.Timer.History.{Event, calls, passes, happen}

module _ (h : Host) where
  -- What a loop or a pass does to the counter.
  sweep-ids :
      (s : Slot) (n fuel : ℕ) (position : Option ℕ) (e : TimerThread) {e' : TimerThread}
      → n ≤ e.cur_timer_id
      → sweep h s fuel position e ≡ some e'
      → n ≤ e'.cur_timer_id
  sweep-ids s n =
      sweep-keeps h s (λ x. n ≤ x.cur_timer_id)
        (λ k x x' le vis. omega (arith, (Visited-Passes h vis).ids))

  update_all-ids :
      (fuel : ℕ) (e : TimerThread) {e' : TimerThread}
      → update_all h fuel e ≡ some e'
      → e.cur_timer_id ≤ e'.cur_timer_id
  update_all-ids fuel e p =
      let (e1, p1, p2) = update_all-loops h fuel e p in
      sweep-ids slot2 e.cur_timer_id fuel (begin (table slot2 e1)) e1
        (sweep-ids slot1 e.cur_timer_id fuel (begin (table slot1 e)) e (omega arith) p1) p2

  pub happen-ids :
      (x : Event) (e : TimerThread) {e' : TimerThread}
      → happen h x e ≡ some e'
      → e.cur_timer_id ≤ e'.cur_timer_id
  unfolding happen
  happen-ids (calls c) e p = (Effect-Extends h (apply_call-Effect h e c p)).ids
  happen-ids (passes fuel) e p = update_all-ids fuel e p
