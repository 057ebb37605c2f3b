-- ===== src/Timer/OrderTests.antt =====
-- Passes in which callbacks register timers, at concrete inputs.
use qing.Common.{
  ℕ, ◌≤◌, ◌≡◌, refl, ◌*◌, Bool, true, false, none, some, List, [], ◌∷◌, arith, ◌==◌, if◌then◌else◌,
  pos, count, suc,
}
use qing.Common.OrdMap.{find, insert, erase, update, begin, next}
use qing.Timer.Clock.{get_interval_macro_secs}
use qing.Timer.Defs.{
  slot1, slot2, ETimer, TimerThread, Call, register, Host, update_all, sweep, visit, visit_node,
  fire, rearm, apply_calls, apply_call, register_sec, register_timer, spin, new_timer, open_sec,
  get_clock, table, over,
}
use qing.Timer.History.{new_engine, new_engine-IsValid, calls, history, happen, history-IsValid}
use qing.Timer.Valid.{IsValid}
use qing.Timer.Rising.{logged, Rises}
use qing.Timer.Order.{ComesFrom, update_all-logged}
use qing.Timer.Unending.{IsEager, update_all_unending}

abbrev only_first : List (Bool × Bool)
only_first = (false, true) ∷ []

abbrev both_free : List (Bool × Bool)
both_free = (true, true) ∷ []

-- The callback 7 registers one that calls nothing and runs once, at once, and the callback 5 itself.
abbrev actions : ℕ → ℕ → List Call
actions n i =
    if n == 7
    then register both_free true (pos 0) 8 ∷ []
    else (if n == 5 then register both_free true (pos 0) 5 ∷ [] else [])

abbrev host : Host
host = record { clock = λ n. n * 1_000_000; ticks = 1_000_000; actions = actions }

abbrev timer : ℕ → ℕ → Bool → ℕ → ETimer
timer id start once fp = record {
  interval = 0;
  leftsecs = 0;
  startclock = start;
  timer_id = id;
  run_once = once;
  need_delete = false;
  fp = fp;
}

abbrev three : TimerThread
three = record {
  timers1 = (1, timer 1 0 false 7) ∷ (3, timer 3 2_000_000 false 8) ∷ [];
  timers2 = (2, timer 2 1_000_000 false 8) ∷ [];
  cur_timer_id = 3;
  reads = 3;
  fired = [];
}

history-three :
    history host
      (calls (register only_first false (pos 0) 7)
        ∷ calls (register both_free false (pos 0) 8)
        ∷ calls (register only_first false (pos 0) 8)
        ∷ [])
      new_engine
    ≡ some three
unfolding history happen apply_call register_sec register_timer spin new_engine new_timer open_sec
    get_clock over insert
history-three = refl

three-IsValid : IsValid three
three-IsValid = history-IsValid host _ new_engine new_engine-IsValid history-three

-- The first timer's callback registers the timer 4 in the second map.
abbrev after_three : TimerThread
after_three = record {
  timers1 = (1, timer 1 5_000_000 false 7) ∷ (3, timer 3 7_000_000 false 8) ∷ [];
  timers2 = (2, timer 2 9_000_000 false 8) ∷ [];
  cur_timer_id = 4;
  reads = 12;
  fired = 4 ∷ 2 ∷ 3 ∷ 1 ∷ [];
}

update_all-three : update_all host 4 three ≡ some after_three
unfolding update_all sweep visit visit_node fire rearm apply_calls apply_call register_sec
    register_timer spin new_timer open_sec get_clock table over find insert erase update begin next
    get_interval_macro_secs
update_all-three = refl

update_all-logged_example :
    (ran1 ran2 : List ℕ) × (after_three.fired ≡ logged ran2 (logged ran1 three.fired))
    × Rises 0 ran1
    × Rises 0 ran2
    × ((k : ℕ)
        → (count k after_three.fired ≤ suc (count k three.fired))
          × ComesFrom slot1 k three ran1
          × ComesFrom slot2 k three ran2)
update_all-logged_example = update_all-logged host 4 three three-IsValid update_all-three

abbrev eager_engine : TimerThread
eager_engine = record {
  timers1 = [];
  timers2 = (1, timer 1 0 true 5) ∷ [];
  cur_timer_id = 1;
  reads = 1;
  fired = [];
}

registers_itself : IsEager 5 (timer 1 0 true 5)
registers_itself = record { leftsecs = refl; once = refl; unmarked = refl; fp = refl }

update_all_unending_example : update_all host 1000 eager_engine ≡ none
update_all_unending_example =
    update_all_unending host 5 (λ n. refl) 1000 1 (timer 1 0 true 5) eager_engine refl refl
      (omega arith) registers_itself
