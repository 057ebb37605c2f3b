-- ===== src/Timer/Locks/Tests.antt =====
-- Threads in `Update` and in calls, statement by statement, at concrete inputs.
use qing.Common.{
  ℕ, ◌*◌, ◌≡◌, refl, ◌≢◌, ◌⊎◌, true, false, none, some, List, [], ◌∷◌, pos, arith, ◌==◌,
  if◌then◌else◌, count,
}
use qing.Common.OrdMap.{find, insert, erase, update, begin, next}
use qing.Timer.Clock.{get_interval_macro_secs}
use qing.Timer.Defs.{
  ETimer, Slot, slot1, slot2, TimerThread, table, over, Call, register, unregister, Host, new_timer,
  open_sec, spin, register_timer, get_clock, register_sec, apply_call, rearm, marked,
}
use qing.Timer.Valid.{IsValid}
use qing.Timer.Deleted.{IsGone, IsMarked}
use qing.Timer.History.{
  Event, calls, happen, history, new_engine, new_engine-IsValid, history-IsValid,
}
use qing.Timer.Locks.{
  before_first, outside, locking, calling_back, Runner, at_frame, start, act_step, unlocked, look,
  frame_step, runner_step, held, System, put, updates, Reach, here, next_step,
}
use qing.Timer.Locks.Runners.{Reach-trans}
use qing.Timer.Locks.Alone.{Alone, rests, goes}
use qing.Timer.Locks.Events.{may_step, Alone-Reach, history-Reach}
use qing.Timer.Locks.Safe.{starts_with}
use qing.Timer.Locks.Iterators.{iterators_stand}
use qing.Timer.Locks.Marked.{unregister_ends}

-- The callback 7 unregisters an id that is in neither map, the callback 8 the timer 1.
abbrev actions : ℕ → ℕ → List Call
actions n i = if n == 7 then unregister 5 ∷ [] else unregister 1 ∷ []

-- A second between two readings of the clock.
abbrev host : Host
host = record { clock = λ n. n * 1_000_000; ticks = 1_000_000; actions = actions }

-- A timer in each map.
abbrev setup : List Event
setup =
    calls (register ((false, true) ∷ []) false (pos 1) 7)
    ∷ calls (register ((true, true) ∷ []) false (pos 1) 8)
    ∷ []

abbrev first : ℕ → ETimer
first n = record {
  interval = 1_000_000;
  leftsecs = 1_000_000;
  startclock = n;
  timer_id = 1;
  run_once = false;
  need_delete = false;
  fp = 7;
}

abbrev second : ETimer
second = record {
  interval = 1_000_000;
  leftsecs = 1_000_000;
  startclock = 1_000_000;
  timer_id = 2;
  run_once = false;
  need_delete = false;
  fp = 8;
}

abbrev engine : TimerThread
engine = record {
  timers1 = (1, first 0) ∷ [];
  timers2 = (2, second) ∷ [];
  cur_timer_id = 2;
  reads = 2;
  fired = [];
}

history-setup : history host setup new_engine ≡ some engine
unfolding history happen apply_call register_sec register_timer spin new_engine new_timer open_sec
    get_clock over insert
history-setup = refl

engine-IsValid : IsValid engine
engine-IsValid = history-IsValid host setup new_engine new_engine-IsValid history-setup

abbrev idle : ℕ → Runner
idle a = at_frame outside

-- The thread 2 in the callback of the timer 2, after the first lock of `UnRegister(1)`.
abbrev in_second : Runner
in_second = record { frame = calling_back slot2 2 []; act = some (before_first 1) }

abbrev engine2 : TimerThread
engine2 = record engine { timers1 = (1, first 3_000_000) ∷ []; reads = 5; fired = 2 ∷ 1 ∷ [] }

alone2 : Alone host (at_frame (locking slot1)) engine in_second engine2
unfolding runner_step frame_step act_step start look unlocked rearm get_clock table over find erase
    update begin next get_interval_macro_secs
alone2 =
    goes slot1
      (goes slot1
        (goes slot1
          (goes slot1
            (goes slot1
              (goes slot1
                (goes slot1
                  (goes slot1 (goes slot1 (goes slot1 (goes slot1 rests refl) refl) refl) refl)
                  refl)
                refl)
              refl)
            refl)
          refl)
        refl)
      refl

abbrev before : System
before = record { engine = engine2; runners = put 2 in_second idle }

Reach-before : Reach host (starts_with engine) before
Reach-before =
    Reach-trans (next_step here (updates 2 refl refl))
      (Alone-Reach host 2 idle (λ b ne. refl) alone2)

iterators_stand_example :
    IsValid before.engine
    × (runner_step host slot2 (before.runners 2) before.engine ≢ none)
    × ¬ (
        (held (before.runners 2).frame ≡ some slot2) × (held (before.runners 1).frame ≡ some slot2))
iterators_stand_example =
    iterators_stand host engine before 2 1 slot2 engine-IsValid Reach-before (λ p. omega arith)

history-Reach_example : Reach host (starts_with new_engine) (starts_with engine)
history-Reach_example =
    history-Reach host 3 setup (starts_with new_engine) refl (λ b ne. refl) new_engine-IsValid
      history-setup

-- The timer 1 is marked by the callback of the timer 2.
abbrev after : System
after = record {
  engine = record engine2 { timers1 = (1, marked (first 3_000_000)) ∷ [] };
  runners = put 2 (at_frame (calling_back slot2 2 [])) before.runners;
}

marks_first :
    runner_step host slot1 (before.runners 2) before.engine
    ≡ some (at_frame (calling_back slot2 2 []), after.engine)
unfolding runner_step act_step find over update
marks_first = refl

found_first : find 1 (table slot1 before.engine) ≡ some (first 3_000_000)
unfolding find table
found_first = refl

unregister_ends_example :
    (count 1 after.engine.fired ≡ count 1 before.engine.fired)
    × (((s : Slot) × IsMarked s 1 after.engine) ⊎ IsGone 1 after.engine)
unregister_ends_example =
    unregister_ends host engine before after 2 1 slot1 slot1 (first 3_000_000)
      (at_frame (calling_back slot2 2 [])) after.engine engine-IsValid Reach-before refl found_first
      (may_step host 2 idle (λ b ne. refl) slot1 in_second engine2) marks_first here
