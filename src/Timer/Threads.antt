-- ===== src/Timer/Threads.antt =====
-- `Register` and `RegisterByMilSec` in several threads at once, statement by statement.
use qing.Common.{ℕ, suc, ◌≡◌, Bool, some, List, ℤ, u32_of_int, if◌then◌else◌}
use qing.Common.OrdMap.{find, insert, update}
use qing.Timer.Defs.{
  ETimer, new_timer, open_sec, open_milsec, Slot, TimerThread, over, Host, get_clock,
}
use qing.Timer.History.{Event, happen, new_engine}

-- The arguments of a registration. `in_milsec`: of `RegisterByMilSec`.
pub record Request : Type 0 where
  pub in_milsec : Bool
  pub run_once : Bool
  pub interval_time : ℤ
  pub fp : ℕ

-- Which statement a thread has come to, with its local timer: before the id is taken, before the
-- clock is read, before the insertion, before the return, and returned.
pub data Phase : Type 0 where
  calling : Request → Phase
  numbered : Request → ETimer → Phase
  opened : ETimer → Phase
  inserted : ETimer → Phase
  returned : ETimer → ℕ → Phase

unfoldable pub open_request : Request → ETimer → ℕ → ETimer
open_request r timer now_clock =
    let interval = u32_of_int r.interval_time in
    if r.in_milsec
    then open_milsec timer interval r.fp now_clock
    else open_sec timer interval r.fp now_clock

-- One statement of a thread. `s`: the map whose lock `Register(ETimer&)` gets. The increment of
-- `_cur_timer_id` and its reading count as whole, which C++ does not promise for an `int`.
unfoldable pub advance : Host → Slot → Phase → TimerThread → Phase × TimerThread
unfolding get_clock
advance h s (calling r) e =
    let id = suc e.cur_timer_id in
    (numbered r (new_timer r.run_once id), record e { cur_timer_id = id })
advance h s (numbered r timer) e =
    let (now_clock, e') = get_clock h e in (opened (open_request r timer now_clock), e')
advance h s (opened timer) e = (inserted timer, over s (insert timer.timer_id timer) e)
advance h s (inserted timer) e = (returned timer e.cur_timer_id, e)
advance h s (returned timer id) e = (returned timer id, e)

-- The engine, and the threads that register, by number.
pub record Threads : Type 0 where
  pub engine : TimerThread
  pub phases : List (ℕ × Phase)

unfoldable pub move : Host → Slot → ℕ → Phase → Threads → Threads
move h s a p w =
    let (p', e') = advance h s p w.engine in
    record { engine = e'; phases = update a (λ _. p') w.phases }

-- A thread moves on, or a call or a pass of another thread goes through as a whole.
pub data Step (h : Host) (w w' : Threads) : Type 0 where
  moves :
      (s : Slot) (a : ℕ) (p : Phase) → find a w.phases ≡ some p → w' ≡ move h s a p w → Step h w w'
  happens :
      (x : Event) (e' : TimerThread)
      → happen h x w.engine ≡ some e'
      → w' ≡ record w { engine = e' }
      → Step h w w'

pub data Reach (h : Host) (w : Threads) : Threads → Type 0 where
  here : Reach h w w
  next : {w' w'' : Threads} → Reach h w w' → Step h w' w'' → Reach h w w''

-- Nobody has come to a statement of a registration yet.
abbrev pub Starts : Threads → Type 0
Starts w =
    (w.engine ≡ new_engine)
    × ((a : ℕ) (p : Phase) → find a w.phases ≡ some p → (r : Request) × (p ≡ calling r))
