-- ===== src/Net/RunTests.antt =====
-- A client's loop at a concrete input.
use qing.Common.{◌*◌, ◌≡◌, refl, none, some, List, [], ◌∷◌, ◌>>=◌, Bool, true, false, pos}
use qing.Common.OrdMap.{find, insert, erase, update, begin, next}
use qing.Timer.Clock.{get_interval_macro_secs}
use qing.Timer.Defs.{
  TimerThread, register, unregister, Host, new_timer, open_sec, table, over, spin, register_timer,
  get_clock, register_sec, apply_call, apply_calls, rearm, fire, visit_node, visit, sweep,
  update_all,
}
use qing.Timer.History.{new_engine, history}
use qing.Net.Run.{TcpClient, stop_poll, new_client, stop, destroy_client, set_timeout, Round, run}
use qing.Net.RunHistory.{events, run-history}

abbrev host : Host
host = record { clock = λ n. n * 1_000_000; ticks = 1_000_000; actions = λ fp n. [] }

abbrev free : List (Bool × Bool)
free = (true, true) ∷ []

-- A handler asks for another timer in the first round, and stops the loop in the second.
abbrev rounds : List Round
rounds =
    record { polled = register free false (pos 100) 9 ∷ []; stops = false }
    ∷ record { polled = []; stops = true }
    ∷ record { polled = unregister 1 ∷ []; stops = false }
    ∷ []

abbrev one_timer : TimerThread
one_timer = record {
  timers1 = [];
  timers2 =
      (
        1,
        record {
          interval = 1_000_000;
          leftsecs = 1_000_000;
          startclock = 0;
          timer_id = 1;
          run_once = true;
          need_delete = false;
          fp = 8;
        },
      )
      ∷ [];
  cur_timer_id = 1;
  reads = 1;
  fired = [];
}

register_first : register_sec host free true (pos 1) 8 new_engine ≡ some (1, one_timer)
unfolding register_sec register_timer spin new_timer open_sec get_clock over insert new_engine
register_first = refl

abbrev stopped : TimerThread
stopped = record {
  timers1 = [];
  timers2 =
      (
        2,
        record {
          interval = 100_000_000;
          leftsecs = 100_000_000;
          startclock = 3_000_000;
          timer_id = 2;
          run_once = false;
          need_delete = false;
          fp = 9;
        },
      )
      ∷ [];
  cur_timer_id = 2;
  reads = 5;
  fired = 1 ∷ [];
}

abbrev left : List Round
left = record { polled = unregister 1 ∷ []; stops = false } ∷ []

abbrev client : TcpClient
client = record { poller = none; timeout = 1; time_engine = one_timer; is_run = true }

run-rounds :
    run host 3 rounds client ≡ some (left, record client { time_engine = stopped; is_run = false })
unfolding run stop apply_call apply_calls register_sec register_timer spin new_timer open_sec
    update_all sweep visit visit_node fire rearm get_clock table over find insert erase update begin
    next get_interval_macro_secs
run-rounds = refl

run-history_example : run host 3 rounds client ≡ (
    history host (events 3 true rounds) one_timer >>= λ e.
    some (left, record client { is_run = false; time_engine = e }))
run-history_example = run-history host 3 rounds client

-- A client that is destroyed before it runs: the manager is told, and no round begins.
destroyed :
    let (told, c) = destroy_client (set_timeout 5 (new_client (some 2) new_engine)) in
    (told ≡ stop_poll ∷ []) × (c.timeout ≡ 5) × (run host 3 rounds c ≡ some (rounds, c))
unfolding destroy_client set_timeout new_client run
destroyed = (refl, refl, refl)
