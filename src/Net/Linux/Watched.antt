-- ===== src/Net/Linux/Watched.antt =====
-- The invariant of a server on Linux: which objects epoll watches, and which were called.
use qing.Common.{ℕ, ◌≤◌, ◌≡◌, ◌≢◌, refl, List, [], ◌++◌, arith}
use qing.Net.Events.{epoll_actions}
use qing.Net.Interest.{InterestMasks, event_read, convert_event_mask}
use qing.Net.Socket.{TcpSocket}
use qing.Net.Listener.{TcpListener}
use qing.Net.Objects.{Among}
use qing.Net.Serving
use qing.Net.Linux.Epoll.{Epoll}
use qing.Net.Linux.Serve.{calls_of, AllReads, LinuxServer}

-- What `add` registers for.
abbrev pub read_mask : InterestMasks → ℕ
read_mask m = convert_event_mask m event_read

module _ (m : InterestMasks) (s : Epoll m) where
  open s use {interest}

  -- An object that epoll still watches has not been called, and another once at most.
  pub record IsWatched (w : LinuxServer m s) : Type 0 where
    pub serves : Serving.Reach w.server
    pub known : (b : ℕ) → interest w.kernel b ≢ 0 → Among b w.server.watched
    pub asked : (b : ℕ) → interest w.kernel b ≢ 0 → interest w.kernel b ≡ read_mask m
    pub once : (b : ℕ) → calls_of b w.made ≤ 1
    pub uncalled : (b : ℕ) → interest w.kernel b ≢ 0 → calls_of b w.made ≡ 0
    pub fresh :
        (b : ℕ) → w.server.next_object ≤ b → (interest w.kernel b ≡ 0) × (calls_of b w.made ≡ 0)
    pub reads : AllReads w.made

  pub starts-IsWatched :
      (l : TcpListener)
      → IsWatched (record {
        server = record { listener = l; objects = []; next_object = 0; watched = [] };
        kernel = s.created;
        made = [];
      })
  starts-IsWatched l = record {
    serves = Serving.starts l;
    known = λ b on. absurd (on (s.created_empty b));
    asked = λ b on. absurd (on (s.created_empty b));
    once = λ b. omega arith;
    uncalled = λ b on. refl;
    fresh = λ b le. (s.created_empty b, refl);
    reads = tt;
  }

  -- The server after a poll, with its objects' new contents.
  abbrev pub polled : ℕ → List (ℕ × TcpSocket) → LinuxServer m s → LinuxServer m s
  polled n objects w = record {
    server = record w.server { objects = objects };
    kernel = (s.wait n w.kernel).1;
    made = w.made ++ epoll_actions m.calls (s.wait n w.kernel).0;
  }
