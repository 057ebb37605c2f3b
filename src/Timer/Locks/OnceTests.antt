-- ===== src/Timer/Locks/OnceTests.antt =====
-- A registration with `run_once` in a thread, statement by statement, at a concrete input.
use qing.Common.{ℕ, suc, ◌*◌, ◌≤◌, ◌≡◌, refl, true, false, some, [], ◌∷◌, pos, count}
use qing.Common.OrdMap.{find, insert, begin}
use qing.Timer.Clock.{get_interval_macro_secs}
use qing.Timer.Defs.{
  ETimer, slot1, slot2, TimerThread, table, over, Call, register, Host, new_timer, open_sec,
  get_clock,
}
use qing.Timer.History.{new_engine, new_engine-IsValid}
use qing.Timer.Threads.{opened, inserted, open_request, advance}
use qing.Timer.Locks.{
  registering, outside, locking, calling_back, Runner, at_frame, start, act_step, unlocked, look,
  frame_step, runner_step, calls, updates, Reach, here, next_step,
}
use qing.Timer.Locks.Runners.{put-put, Reach-trans}
use qing.Timer.Locks.Alone.{Alone, rests, goes, in_act}
use qing.Timer.Locks.Events.{may_step, in_place, Alone-Reach}
use qing.Timer.Locks.Safe.{starts_with}
use qing.Timer.Locks.OneShot.{once_in_threads}

abbrev host : Host
host = record { clock = λ n. n * 1_000_000; ticks = 1_000_000; actions = λ fp n. [] }

abbrev call : Call
call = register [] true (pos 1) 8

abbrev timer : ETimer
timer = record {
  interval = 1_000_000;
  leftsecs = 1_000_000;
  startclock = 0;
  timer_id = 1;
  run_once = true;
  need_delete = false;
  fp = 8;
}

abbrev idle : ℕ → Runner
idle a = at_frame outside

abbrev engine1 : TimerThread
engine1 = record { timers1 = []; timers2 = []; cur_timer_id = 1; reads = 1; fired = [] }

abbrev before : Runner
before = in_act outside (registering (opened timer))

comes_to_insert : Alone host (in_act outside (start call)) new_engine before engine1
unfolding runner_step act_step start advance new_timer open_request open_sec get_clock new_engine
comes_to_insert = goes slot2 (goes slot2 rests refl) refl

Reach-insert :
    Reach host (starts_with new_engine) (in_place host 0 idle (λ b ne. refl) before engine1)
Reach-insert =
    Reach-trans (next_step here (calls 0 call refl refl))
      (Alone-Reach host 0 idle (λ b ne. refl) comes_to_insert)

abbrev engine2 : TimerThread
engine2 = record engine1 { timers2 = (1, timer) ∷ [] }

abbrev after_insert : Runner
after_insert = in_act outside (registering (inserted timer))

inserts : runner_step host slot2 before engine1 ≡ some (after_insert, engine2)
unfolding runner_step act_step advance over insert
inserts = refl

returns : Alone host after_insert engine2 (at_frame outside) engine2
unfolding runner_step act_step advance
returns = goes slot1 (goes slot1 rests refl) refl

-- The callback of the timer has begun.
abbrev running : Runner
running = at_frame (calling_back slot2 1 [])

abbrev engine3 : TimerThread
engine3 = record engine2 { reads = 2; fired = 1 ∷ [] }

comes_to_run : Alone host (at_frame (locking slot1)) engine2 running engine3
unfolding runner_step frame_step look unlocked get_clock table find begin get_interval_macro_secs
comes_to_run = goes slot1 (goes slot1 (goes slot1 (goes slot1 rests refl) refl) refl) refl

Reach-run :
    Reach host
      (in_place host 0 idle (λ b ne. refl) after_insert engine2)
      (in_place host 0 idle (λ b ne. refl) running engine3)
Reach-run = Reach-trans (Alone-Reach host 0 idle (λ b ne. refl) returns) (
    Reach-trans
      (next_step here
        (updates 0 refl (rw (put-put 0 (at_frame outside) (at_frame (locking slot1)) idle) refl)))
      (Alone-Reach host 0 idle (λ b ne. refl) comes_to_run))

once_in_threads_example : count 1 engine3.fired ≤ suc (count 1 engine1.fired)
once_in_threads_example =
    once_in_threads host new_engine (in_place host 0 idle (λ b ne. refl) before engine1)
      (in_place host 0 idle (λ b ne. refl) running engine3) 0 slot2 timer after_insert engine2
      new_engine-IsValid Reach-insert refl refl
      (may_step host 0 idle (λ b ne. refl) slot2 before engine1) inserts
      (rw (put-put 0 before after_insert idle) Reach-run)
