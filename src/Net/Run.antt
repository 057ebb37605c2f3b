-- ===== src/Net/Run.antt =====
-- `TcpClient`, its constructor and destructor, `run`, `stop` and `setTimeout`,
-- src/net/tcp_client.cpp and include/qing/net/tcp_client.hpp.
use qing.Common.{ℕ, Option, some, List, [], ◌∷◌, ◌>>=◌, Bool, true, false, if◌then◌else◌}
use qing.Timer.Defs.{TimerThread, Call, Host, apply_calls, update_all}

-- `poller` is what the socket manager's `GetPoller` gives. `_map_connected` is used by nothing.
pub record TcpClient : Type 0 where
  pub poller : Option ℕ
  pub timeout : ℕ
  pub time_engine : TimerThread
  pub is_run : Bool

-- What the destructor calls of the socket manager.
pub data ManagerCall : Type 0 where
  stop_poll : ManagerCall

unfoldable pub new_client : Option ℕ → TimerThread → TcpClient
new_client poller engine = record {
  poller = poller;
  timeout = 1;
  time_engine = engine;
  is_run = true;
}

unfoldable pub stop : TcpClient → TcpClient
stop c = record c { is_run = false }

unfoldable pub destroy_client : TcpClient → List ManagerCall × TcpClient
destroy_client c = (stop_poll ∷ [], record c { is_run = false })

unfoldable pub set_timeout : ℕ → TcpClient → TcpClient
set_timeout timeout_seconds c = record c { timeout = timeout_seconds }

-- A round of the loop: the calls of the engine that the handlers make under `RunPoll`, which is not
-- in the sources, and whether `stop` is called before the loop looks at `_bIsRun` again.
pub record Round : Type 0 where
  pub polled : List Call
  pub stops : Bool

module _ (h : Host) (fuel : ℕ) where
  -- `run`, and the rounds that were not begun when it ended.
  unfoldable pub run : List Round → TcpClient → Option (List Round × TcpClient)
  run [] c = some ([], c)
  run (round ∷ rounds) c =
      let rest = (do
        e1 ← update_all h fuel c.time_engine
        e2 ← apply_calls h round.polled e1
        let c' : TcpClient = record c { time_engine = e2 }
        run rounds (if round.stops then stop c' else c')) in
      if c.is_run then rest else some (round ∷ rounds, c)
