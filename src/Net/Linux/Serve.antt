-- ===== src/Net/Linux/Serve.antt =====
-- A server on Linux: the listener, the poller and the sockets of Server over an epoll instance.
use qing.Common.{
  ℕ, suc, Bool, false, Option, some, List, [], ◌∷◌, ◌++◌, ◌>>=◌, ◌==◌, if◌then◌else◌, length, ℤ,
  pos, negsuc,
}
use qing.Net.Poller.{Action, on_read, on_write, poll_epoll}
use qing.Net.Interest.{InterestMasks, event_read, added_event}
use qing.Net.Socket.{Garbage}
use qing.Net.Server.{Server, accept_one, deliver_all}
use qing.Net.Linux.Epoll.{Epoll}

-- A call of a socket's object.
abbrev is_call : ℕ → Action → Bool
is_call b (on_read c) = b == c
is_call b (on_write c) = b == c

abbrev pub calls_of : ℕ → List Action → ℕ
calls_of b [] = 0
calls_of b (a ∷ actions) = let rest = calls_of b actions in if is_call b a then suc rest else rest

abbrev pub AllReads : List Action → Type 0
AllReads [] = Unit {0}
AllReads (on_read b ∷ actions) = AllReads actions
AllReads (on_write b ∷ actions) = ⊥

module _ (m : InterestMasks) (s : Epoll m) where
  open s use {Kernel, ctl_add, wait}

  -- `made` is the log of the calls that `poll` has made, the oldest first.
  pub record LinuxServer : Type 0 where
    pub server : Server
    pub kernel : Kernel
    pub made : List Action

  -- `onRead` of the listener: `add` hands the new socket to epoll_ctl, if one came.
  unfoldable pub accept_linux : ℤ → Garbage → LinuxServer → LinuxServer
  accept_linux (negsuc n) g w = record w { server = accept_one (negsuc n) false g w.server }
  accept_linux (pos n) g w =
      let ev = added_event m event_read (some w.server.next_object) in
      let (added, k) = ctl_add ev w.kernel in
      if n == 0
      then record w { server = accept_one (pos n) false g w.server }
      else record w { server = accept_one (pos n) added g w.server; kernel = k }

  -- `poll`: what epoll_wait reports, and the calls.
  unfoldable pub poll_linux : ℕ → LinuxServer → Option (Bool × LinuxServer)
  poll_linux n w =
      let (evs, k) = wait n w.kernel in
      poll_epoll m.calls (pos (length evs)) false evs >>= λ r.
      deliver_all r.1 w.server.objects >>= λ objects. some (
        r.0,
        record { server = record w.server { objects = objects }; kernel = k; made = w.made ++ r.1 },
      )
