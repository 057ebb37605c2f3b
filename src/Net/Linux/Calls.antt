-- ===== src/Net/Linux/Calls.antt =====
-- Which calls a server on Linux makes over its life.
use qing.Common.{ℕ, ◌≤◌, ◌≡◌, refl, sym, ◌∙◌, Bool, true, some, [], ℤ, along_some}
use qing.Common.OrdMap.{find, update}
use qing.Net.Interest.{InterestMasks}
use qing.Net.Interests.{IsLinux}
use qing.Net.Socket.{TcpSocket, Garbage}
use qing.Net.SocketLife
use qing.Net.Listener.{TcpListener}
use qing.Net.Serving
use qing.Net.Linux.Epoll.{Epoll}
use qing.Net.Linux.Serve.{calls_of, AllReads, LinuxServer, accept_linux, poll_linux}
use qing.Net.Linux.Watched.{IsWatched, polled, starts-IsWatched}
use qing.Net.Linux.Polls.{poll_linux-polled, poll-IsWatched}
use qing.Net.Linux.Accepts.{quiet-IsWatched, accept-IsWatched}

-- One thing that happens to a server: its listener is told of a connection, it polls, or the program
-- uses a socket's object.
pub data Step (m : InterestMasks) (s : Epoll m) (w w' : LinuxServer m s) : Type 0 where
  accepts : (given : ℤ) (g : Garbage) → w' ≡ accept_linux m s given g w → Step m s w w'
  polls : (n : ℕ) (r : Bool) → poll_linux m s n w ≡ some (r, w') → Step m s w w'
  uses :
      (b : ℕ) (t t' : TcpSocket)
      → find b w.server.objects ≡ some t
      → SocketLife.Step t t'
      → w' ≡ record w { server = record w.server { objects = update b (λ _. t') w.server.objects } }
      → Step m s w w'

pub data Reach (m : InterestMasks) (s : Epoll m) : LinuxServer m s → Type 0 where
  starts :
      (l : TcpListener)
      → Reach m s (record {
        server = record { listener = l; objects = []; next_object = 0; watched = [] };
        kernel = s.created;
        made = [];
      })
  next : {w w' : LinuxServer m s} → Reach m s w → Step m s w w' → Reach m s w'

module _ (m : InterestMasks) (s : Epoll m) (linux : IsLinux m) where
  open s use {interest}

  Step-IsWatched : {w w' : LinuxServer m s} → Step m s w w' → IsWatched m s w → IsWatched m s w'
  Step-IsWatched {w} (accepts given g q) v = rw q (accept-IsWatched m s given g w v)
  Step-IsWatched {w} {w'} (polls n r p) v =
      let (objects, q, reached) = poll_linux-polled m s linux n w v in
      along_some (λ (x : Bool × LinuxServer m s). IsWatched m s x.1) _ _ (sym q ∙ p)
        (poll-IsWatched m s linux n objects w reached v)
  Step-IsWatched {w} (uses b t t' e st q) v = rw q (
      quiet-IsWatched m s (record w.server { objects = update b (λ _. t') w.server.objects }) w
        (Serving.next v.serves (Serving.uses b t t' e st refl)) refl refl v)

  Reach-IsWatched : {w : LinuxServer m s} → Reach m s w → IsWatched m s w
  Reach-IsWatched (starts l) = starts-IsWatched m s l
  Reach-IsWatched (next r st) = Step-IsWatched st (Reach-IsWatched r)

  -- A server on Linux over an epoll whose waits do not fail, in any order of accepting connections,
  -- polling and using its sockets: a poll ends and returns true, and so far every object has been
  -- called once at most, and to read.
  pub linux_calls_once :
      {w : LinuxServer m s}
      → Reach m s w
      → ((n : ℕ) → (w' : LinuxServer m s) × (poll_linux m s n w ≡ some (true, w')))
        × ((b : ℕ) → calls_of b w.made ≤ 1)
        × AllReads w.made
  linux_calls_once {w} r =
      let v = Reach-IsWatched r in
      (
        λ n. let (objects, p, _) = poll_linux-polled m s linux n w v in (polled m s n objects w, p),
        v.once,
        v.reads,
      )
