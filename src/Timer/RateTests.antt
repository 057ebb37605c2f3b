-- ===== src/Timer/RateTests.antt =====
-- The rate of a timer at a concrete input.
use qing.Common.{
  ℕ, ◌-◌, ◌*◌, ◌^◌, ◌≤◌, ◌<◌, ◌≡◌, refl, true, false, some, [], ◌∷◌, arith, count, ltb, pos,
  if◌then◌else◌,
}
use qing.Common.OrdMap.{find, insert, erase, update, begin, next}
use qing.Timer.Clock.{get_interval_macro_secs}
use qing.Timer.Defs.{
  TimerThread, Host, table, over, new_timer, open_milsec, spin, register_timer, register_milsec,
  get_clock, apply_calls, rearm, fire, visit_node, visit, sweep, update_all,
}
use qing.Timer.History.{new_engine, new_engine-IsValid, passes, happen, history}
use qing.Timer.Rate.{register_rate}

-- A clock of one tick a second, that stands still in the end.
abbrev slow_host : Host
slow_host = record { clock = λ n. if ltb n 50 then n else 50; ticks = 1; actions = λ fp n. [] }

slow_rises : (i j : ℕ) → i ≤ j → slow_host.clock i ≤ slow_host.clock j
slow_rises i j h = ground arith

slow_fits : (i : ℕ) → slow_host.clock i < 2 ^ 64
slow_fits i = ground arith

-- Every half second, from the start.
abbrev registered : TimerThread
registered = record {
  timers1 = [];
  timers2 =
      (
        1,
        record {
          interval = 500_000;
          leftsecs = 500_000;
          startclock = 0;
          timer_id = 1;
          run_once = false;
          need_delete = false;
          fp = 7;
        },
      )
      ∷ [];
  cur_timer_id = 1;
  reads = 1;
  fired = [];
}

-- After two passes.
abbrev ran_twice : TimerThread
ran_twice = record {
  timers1 = [];
  timers2 =
      (
        1,
        record {
          interval = 500_000;
          leftsecs = 500_000;
          startclock = 4;
          timer_id = 1;
          run_once = false;
          need_delete = false;
          fp = 7;
        },
      )
      ∷ [];
  cur_timer_id = 1;
  reads = 5;
  fired = 1 ∷ 1 ∷ [];
}

registers :
    register_milsec slow_host ((true, true) ∷ []) false (pos 500) 7 new_engine
    ≡ some (1, registered)
unfolding register_milsec register_timer spin new_engine new_timer open_milsec get_clock over insert
registers = refl

history-registered : history slow_host (passes 3 ∷ passes 3 ∷ []) registered ≡ some ran_twice
unfolding history happen update_all sweep visit visit_node fire rearm apply_calls get_clock table
    over find update erase begin next get_interval_macro_secs
history-registered = refl

register_rate_example :
    (◌≡◌ {A = ℕ} 1 1)
    × (count 1 ran_twice.fired * (500_000 * 1)
        ≤ (slow_host.clock ran_twice.reads - slow_host.clock 0) * 1_000_000)
unfolding new_engine
register_rate_example =
    register_rate slow_host (omega arith) slow_rises slow_fits true ((true, true) ∷ []) false
      (pos 500) 7 (passes 3 ∷ passes 3 ∷ []) new_engine new_engine-IsValid refl registers
      history-registered
