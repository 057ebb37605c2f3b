-- ===== src/Timer/PassTests.antt =====
-- Passes of `Update` that end, at concrete inputs.
use qing.Common.{
  ◌⊎◌, ◌<◌, ℕ, ◌*◌, ◌≤◌, ◌<◌, ◌≡◌, refl, inl, inr, some, [], ◌∷◌, arith, ◌==◌, count, length,
  Bool-cases,
}
use qing.Common.OrdMap.{begin}
use qing.Timer.Clock.{get_interval_macro_secs}
use qing.Timer.Defs.{Slot, slot1, slot2, TimerThread, table, Host, sweep, update_all}
use qing.Timer.Deleted.{IsGone}
use qing.Timer.Growth.{AllSpare}
use qing.Timer.Due.{StaysDue, due_timer_runs}
use qing.Timer.Termination.{sweep_terminates}
use qing.Timer.Walk.{walk}
use qing.Timer.Reference.{update_all-walk}
use qing.Timer.Tests.{actions, host, first, engine, engine-IsValid, find-first}

actions_spare : (s : Slot) (fp n : ℕ) → AllSpare s (actions fp n)
actions_spare s fp n = elim (Bool-cases (fp == 7)) [ inl p ↦ rw p (tt, tt) | inr p ↦ rw p tt ]

one_each : (s : Slot) → length (table s engine) < 2
unfolding table
one_each slot1 = omega arith
one_each slot2 = omega arith

sweep_terminates_example :
    (e' : TimerThread) × (sweep host slot1 2 (begin (table slot1 engine)) engine ≡ some e')
    × (length (table slot1 e') ≤ length (table slot1 engine))
sweep_terminates_example =
    sweep_terminates host slot1 2 engine (actions_spare slot1) (one_each slot1)

-- The same callbacks under a clock that stands at two seconds.
abbrev still : Host
still = record { clock = λ n. 2_000_000; ticks = 1_000_000; actions = actions }

first-StaysDue : StaysDue still first engine
unfolding get_interval_macro_secs
first-StaysDue i h = refl

due_timer_runs_example :
    (e' : TimerThread) × (update_all still 2 engine ≡ some e')
    × ((count 1 engine.fired < count 1 e'.fired) ⊎ IsGone 1 e')
due_timer_runs_example =
    due_timer_runs still slot1 2 1 first engine engine-IsValid (omega arith) find-first
      first-StaysDue actions_spare one_each

-- Callbacks that call nothing.
abbrev quiet : Host
quiet = record { clock = λ n. n * 500_000; ticks = 1_000_000; actions = λ fp n. [] }

-- The first timer is due, the second is not.
update_all-walk_example :
    let w1 = walk quiet engine.timers1 engine.reads engine.fired in
    let w2 = walk quiet engine.timers2 w1.reads w1.log in
    update_all quiet 2 engine
    ≡ some
        (record engine { timers1 = w1.nodes; timers2 = w2.nodes; reads = w2.reads; fired = w2.log })
update_all-walk_example =
    update_all-walk quiet (λ fp n. refl) 2 engine (omega arith, tt) (omega arith, tt) (omega arith)
      (omega arith)

walk-engine :
    walk quiet engine.timers1 2 []
    ≡ record { nodes = (1, record first { startclock = 1_500_000 }) ∷ []; reads = 4; log = 1 ∷ [] }
unfolding walk get_interval_macro_secs
walk-engine = refl
