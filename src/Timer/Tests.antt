-- ===== src/Timer/Tests.antt =====
-- An engine with a timer in each map, run by hand, and the theorems at such engines.
use qing.Common.{
  ℕ, ◌*◌, ◌^◌, ◌≤◌, ◌≡◌, refl, ◌↔◌, Bool, true, false, some, List, [], ◌∷◌, arith, ◌==◌,
  if◌then◌else◌, pos, ◌≢◌, count,
}
use qing.Common.OrdMap.{find, insert, erase, update, begin, next}
use qing.Timer.Clock.{get_interval_macro_secs}
use qing.Timer.Defs.{
  ETimer, slot1, TimerThread, table, over, Call, register, register_by_mil_sec, unregister, Host,
  new_timer, open_sec, open_milsec, spin, register_timer, unregister_timer, get_clock, register_sec,
  register_milsec, apply_call, apply_calls, rearm, fire, visit_node, visit, sweep, update_all,
  marked,
}
use qing.Timer.Valid.{IsValid}
use qing.Timer.Deleted.{IsGone}
use qing.Timer.History.{
  new_engine, new_engine-IsValid, Event, calls, passes, happen, history, history-IsValid,
  unregister_settles,
}
use qing.Timer.OneShot.{register_once_runs_once}
use qing.Timer.Timing.{visit_fires_iff, visit_never_fires}

-- The callback 7 unregisters the timer 2.
abbrev pub actions : ℕ → ℕ → List Call
actions n i = if n == 7 then unregister 2 ∷ [] else []

-- A clock of a megahertz, half a second between two readings.
abbrev pub host : Host
host = record { clock = λ n. n * 500_000; ticks = 1_000_000; actions = actions }

abbrev free : List (Bool × Bool)
free = (true, true) ∷ []

-- One round in which both are held, then only the other thread's.
abbrev contended : List (Bool × Bool)
contended = (false, false) ∷ (false, true) ∷ []

abbrev setup : List Event
setup =
    calls (register contended false (pos 1) 7)
    ∷ calls (register_by_mil_sec free true (pos 2500) 8)
    ∷ []

abbrev pub first : ETimer
first = record {
  interval = 1_000_000;
  leftsecs = 1_000_000;
  startclock = 0;
  timer_id = 1;
  run_once = false;
  need_delete = false;
  fp = 7;
}

abbrev second : ETimer
second = record {
  interval = 2_500_000;
  leftsecs = 2_500_000;
  startclock = 500_000;
  timer_id = 2;
  run_once = true;
  need_delete = false;
  fp = 8;
}

abbrev pub engine : TimerThread
engine = record {
  timers1 = (1, first) ∷ [];
  timers2 = (2, second) ∷ [];
  cur_timer_id = 2;
  reads = 2;
  fired = [];
}

history-setup : history host setup new_engine ≡ some engine
unfolding history happen apply_call register_sec register_milsec register_timer spin new_engine
    new_timer open_sec open_milsec get_clock over insert
history-setup = refl

pub engine-IsValid : IsValid engine
engine-IsValid = history-IsValid host setup new_engine new_engine-IsValid history-setup

-- The first timer runs in the first pass, and its callback unregisters the second, which is in the
-- map of the loop that follows.
abbrev after_pass : TimerThread
after_pass = record engine {
  timers1 = (1, record first { startclock = 1_500_000 }) ∷ [];
  timers2 = [];
  reads = 4;
  fired = 1 ∷ [];
}

abbrev one_pass : List Event
one_pass = passes 3 ∷ []

history-one_pass : history host one_pass engine ≡ some after_pass
unfolding history happen update_all sweep visit visit_node fire rearm apply_calls apply_call
    unregister_timer get_clock table over find erase update begin next get_interval_macro_secs
history-one_pass = refl

after_pass-IsValid : IsValid after_pass
after_pass-IsValid = history-IsValid host one_pass engine engine-IsValid history-one_pass

-- The first timer, which has run once, is taken out.
abbrev emptied : TimerThread
emptied = record after_pass { timers1 = [] }

update_all_unregistered : update_all host 3 (unregister_timer 1 after_pass) ≡ some emptied
unfolding update_all sweep visit visit_node unregister_timer get_clock table over find erase update
    begin next
update_all_unregistered = refl

abbrev another : List Event
another = calls (register free true (pos 1) 8) ∷ passes 3 ∷ passes 3 ∷ []

abbrev third : ℕ → ETimer
third start = record {
  interval = 1_000_000;
  leftsecs = 1_000_000;
  startclock = start;
  timer_id = 3;
  run_once = true;
  need_delete = false;
  fp = 8;
}

-- The third timer, registered after the others, runs in the second pass.
abbrev after_another : TimerThread
after_another = record emptied { cur_timer_id = 3; reads = 8; fired = 3 ∷ 1 ∷ [] }

history-another : history host another emptied ≡ some after_another
unfolding history happen apply_call apply_calls register_sec register_timer spin new_timer open_sec
    update_all sweep visit visit_node fire rearm get_clock table over find insert erase update begin
    next get_interval_macro_secs
history-another = refl

history-IsValid_example : IsValid engine
history-IsValid_example = history-IsValid host setup new_engine new_engine-IsValid history-setup

unregister_settles_example :
    IsGone 1 after_another × (count 1 after_another.fired ≡ count 1 after_pass.fired)
unregister_settles_example =
    unregister_settles host 1 3 another after_pass after_pass-IsValid (omega arith)
      update_all_unregistered history-another

register_another :
    register_sec host free true (pos 1) 8 emptied
    ≡ some (3, record emptied { timers2 = (3, third 2_000_000) ∷ []; cur_timer_id = 3; reads = 5 })
unfolding register_sec register_timer spin new_timer open_sec get_clock over insert
register_another = refl

history-unregister : history host (calls (unregister 1) ∷ one_pass) after_pass ≡ some emptied
unfolding history happen apply_call update_all sweep visit visit_node unregister_timer get_clock
    table over find erase update begin next
history-unregister = refl

emptied-IsValid : IsValid emptied
emptied-IsValid =
    history-IsValid host (calls (unregister 1) ∷ one_pass) after_pass after_pass-IsValid
      history-unregister

history-passes :
    history host
      (passes 3 ∷ passes 3 ∷ [])
      (record emptied { timers2 = (3, third 2_000_000) ∷ []; cur_timer_id = 3; reads = 5 })
    ≡ some after_another
unfolding history happen apply_calls update_all sweep visit visit_node fire rearm get_clock table
    over find erase update begin next get_interval_macro_secs
history-passes = refl

register_once_runs_once_example : (◌≡◌ {A = ℕ} 3 3) × (count 3 after_another.fired ≤ 1)
register_once_runs_once_example =
    register_once_runs_once host free (pos 1) 8 (passes 3 ∷ passes 3 ∷ []) emptied emptied-IsValid
      refl register_another history-passes

-- The engine in the middle of its first pass.
abbrev after_visit : TimerThread
after_visit = record after_pass { timers2 = (2, marked second) ∷ [] }

visit-first : visit host slot1 1 engine ≡ some after_visit
unfolding visit visit_node fire rearm apply_calls apply_call unregister_timer get_clock table over
    find update get_interval_macro_secs
visit-first = refl

pub find-first : find 1 (table slot1 engine) ≡ some first
unfolding find table
find-first = refl

visit_fires_iff_example :
    (after_visit.fired ≡ 1 ∷ engine.fired) ↔ (1_000_000 * 1_000_000 ≤ 1_000_000 * 1_000_000)
visit_fires_iff_example =
    visit_fires_iff host slot1 1 first engine find-first refl (omega arith) (omega arith)
      (omega arith) (omega arith) visit-first

-- A timer of some 35 years.
abbrev long : ETimer
long = record first { interval = 2 ^ 50; leftsecs = 2 ^ 50 }

abbrev waits : TimerThread
waits = record engine { timers1 = (1, long) ∷ [] }

visit-long : visit host slot1 1 waits ≡ some (record waits { reads = 3 })
unfolding visit visit_node get_clock table find get_interval_macro_secs
visit-long = refl

find-long : find 1 (table slot1 waits) ≡ some long
unfolding find table
find-long = refl

visit_never_fires_example : waits.fired ≢ 1 ∷ waits.fired
visit_never_fires_example =
    visit_never_fires host slot1 1 long waits find-long refl (omega arith) (omega arith)
      (omega arith) (omega arith) visit-long
