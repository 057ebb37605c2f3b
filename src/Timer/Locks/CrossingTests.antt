-- ===== src/Timer/Locks/CrossingTests.antt =====
-- Two threads that come to wait for one another, at concrete inputs.
use qing.Common.{
  ℕ, ◌≡◌, refl, ◌*◌, false, true, List, [], ◌∷◌, arith, ◌==◌, if◌then◌else◌, some, pos,
}
use qing.Common.OrdMap.{insert}
use qing.Timer.Clock.{get_interval_macro_secs}
use qing.Timer.Defs.{
  slot1, ETimer, Call, register, unregister, Host, apply_call, register_sec, register_timer, spin,
  new_timer, open_sec, get_clock, over,
}
use qing.Timer.History.{new_engine, history, happen}
use qing.Timer.History
use qing.Timer.Locks.{locking, at_frame, System, put, updates, Reach, here, next_step}
use qing.Timer.Locks.Safe.{starts_with}
use qing.Timer.Locks.Crossing.{two_timers, in_first, in_second, locked, deadlock_comes}

-- The callback 7 unregisters an id that is in neither map, the callback 8 the timer 1.
abbrev actions : ℕ → ℕ → List Call
actions fp n = if fp == 7 then unregister 5 ∷ [] else unregister 1 ∷ []

-- A second between two readings of the clock.
abbrev host : Host
host = record { clock = λ n. n * 1_000_000; ticks = 1_000_000; actions = actions }

abbrev timer : ℕ → ℕ → ℕ → ETimer
timer id seconds fp = record {
  interval = seconds * 1_000_000;
  leftsecs = seconds * 1_000_000;
  startclock = (if id == 1 then 0 else 1_000_000);
  timer_id = id;
  run_once = false;
  need_delete = false;
  fp = fp;
}

history-two_timers :
    history host
      (History.calls (register ((false, true) ∷ []) false (pos 4) 7)
        ∷ History.calls (register ((true, true) ∷ []) false (pos 1) 8)
        ∷ [])
      new_engine
    ≡ some (two_timers 1 (timer 1 4 7) 2 (timer 2 1 8) 2 2 [])
unfolding history happen apply_call register_sec register_timer spin new_engine new_timer open_sec
    get_clock over insert
history-two_timers = refl

-- The threads 1 and 2 wait for one another.
abbrev waiting : System
waiting =
    locked host 1 2 (timer 1 4 7) (timer 2 1 8) 2 1 2 5 (1 ∷ 2 ∷ []) (in_first 1 [] 5)
      (in_second 2 [] 1)

-- And the thread 3 begins a pass.
abbrev later : System
later = record waiting { runners = put 3 (at_frame (locking slot1)) waiting.runners }

deadlock_comes_example :
    Reach host (starts_with (two_timers 1 (timer 1 4 7) 2 (timer 2 1 8) 2 2 [])) waiting
    × (later.runners 1 ≡ in_first 1 [] 5)
    × (later.runners 2 ≡ in_second 2 [] 1)
unfolding get_interval_macro_secs
deadlock_comes_example =
    deadlock_comes host 1 2 (timer 1 4 7) (timer 2 1 8) 2 1 2 2 5 1 [] [] [] (λ p. omega arith) refl
      refl refl refl refl refl refl (λ p. omega arith) (next_step here (updates 3 refl refl))
