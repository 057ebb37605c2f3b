-- ===== src/Timer/ReentryTests.antt =====
-- A callback that calls `Update`, at concrete inputs.
use qing.Common.{
  arith, ℕ, ◌≡◌, refl, ◌*◌, Bool, true, false, some, List, [], ◌∷◌, ◌==◌, if◌then◌else◌, pos, map,
}
use qing.Common.OrdMap.{insert}
use qing.Timer.Clock.{get_interval_macro_secs}
use qing.Timer.Defs.{
  ETimer, TimerThread, Call, register, unregister, Host, update_all, apply_call, register_sec,
  register_timer, spin, new_timer, open_sec, get_clock, over,
}
use qing.Timer.History.{new_engine, new_engine-IsValid, history, happen, history-IsValid}
use qing.Timer.History
use qing.Timer.Valid.{IsValid}
use qing.Timer.Reentry.{unfinished, Doing, calls, updates, dangles, outcome_of, update_in}
use qing.Timer.ReentryCalls.{update_in-calls}
use qing.Timer.Reentered.{reentered_unending, reentered_dangles}

-- The callback 7 unregisters the timer 1.
abbrev actions : ℕ → ℕ → List Call
actions fp n = if fp == 7 then unregister 1 ∷ [] else []

-- A second between two readings of the clock.
abbrev host : Host
host = record { clock = λ n. n * 1_000_000; ticks = 1_000_000; actions = actions }

abbrev first_only : List (Bool × Bool)
first_only = (false, true) ∷ []

abbrev timer : ETimer
timer = record {
  interval = 1_000_000;
  leftsecs = 1_000_000;
  startclock = 0;
  timer_id = 1;
  run_once = true;
  need_delete = false;
  fp = 7;
}

abbrev one : TimerThread
one = record { timers1 = (1, timer) ∷ []; timers2 = []; cur_timer_id = 1; reads = 1; fired = [] }

history-one :
    history host (History.calls (register first_only true (pos 1) 7) ∷ []) new_engine ≡ some one
unfolding history happen apply_call register_sec register_timer spin new_engine new_timer open_sec
    get_clock over insert
history-one = refl

one-IsValid : IsValid one
one-IsValid = history-IsValid host _ new_engine new_engine-IsValid history-one

update_in-calls_example :
    update_in host (λ fp n. map calls (actions fp n)) 3 4 one ≡ outcome_of (update_all host 4 one)
update_in-calls_example =
    update_in-calls host (λ fp n. map calls (actions fp n)) 2 4 one (λ fp n. refl) one-IsValid

-- The callback 7 calls `Update` in its first run.
abbrev doings : ℕ → ℕ → List Doing
doings fp n = if n == 2 then updates ∷ [] else []

reentered_dangles_example :
    update_in host doings 2 2 one
    ≡ dangles
        (record { timers1 = []; timers2 = []; cur_timer_id = 1; reads = 4; fired = 1 ∷ 1 ∷ [] })
unfolding get_interval_macro_secs
reentered_dangles_example =
    reentered_dangles host doings 0 0 1 timer 1 1 [] refl refl refl refl refl refl

-- It has the interval 0, and its callback calls `Update` in every run.
reentered_unending_example :
    update_in host
      (λ fp n. updates ∷ [])
      9
      9
      (record {
        timers1 = (1, record timer { leftsecs = 0 }) ∷ [];
        timers2 = [];
        cur_timer_id = 1;
        reads = 1;
        fired = [];
      })
    ≡ unfinished
reentered_unending_example =
    reentered_unending host (λ fp n. updates ∷ []) 9 9 1 (record timer { leftsecs = 0 }) [] [] 1 1
      [] refl (λ j. ground arith) (λ j. ([], refl))
