-- ===== src/Net/Listener.antt =====
-- `TcpListener`, src/net/tcp_listener.cpp: `listen` and `accept` of the three back ends.
use qing.Common.{
  ℕ, suc, ◌-◌, ◌^◌, Bool, true, false, not, Option, none, some, List, ◌∷◌, if◌then◌else◌, ℤ, pos,
  negsuc, ◌==◌, ◌>>=◌,
}
use qing.Net.Poller.{Poller, add}
use qing.Net.Util.{SocketCalls, get_new_socket}

-- A listener, `this` the number of its object. `registered` is the sockets that the socket
-- manager, which is not in the sources, was told of by `RegistAcceptor`.
pub record TcpListener : Type 0 where
  pub this : ℕ
  pub socket : ℤ
  pub listening : Bool
  pub poller : Poller
  pub accept_handler : Option ℕ
  pub registered : List ℤ

-- A SOCKET, the key of the poller's map, is an unsigned number of 64 bits.
abbrev pub socket_key : ℤ → ℕ
socket_key (pos n) = n
socket_key (negsuc n) = 2 ^ 64 - suc n

pub data AcceptError : Type 0 where
  pending other_error : AcceptError

-- What AcceptEx gives: success, or failure with WSAGetLastError's code, in which
-- ERROR_SUCCESS and ERROR_IO_PENDING are one.
pub data AcceptExResult : Type 0 where
  accept_now : AcceptExResult
  accept_failed : AcceptError → AcceptExResult

-- `accept` on IOCP. The memset of sizeof(IO_DATA) bytes at `&socket` runs past the variable, which
-- the language does not define: no result, unless `overruns`, where the compiled program goes on
-- with a 0 in the variable and nothing else changed.
unfoldable pub accept_ex : Bool → SocketCalls → AcceptExResult → Option ℤ
accept_ex overruns calls outcome = elim (get_new_socket calls).0 [
  | negsuc n ↦ some (pos 0)
  | pos s ↦
      if overruns
      then elim outcome [
        | accept_now ↦ some (pos 0)
        | accept_failed pending ↦ some (pos 0)
        | accept_failed other_error ↦ some (negsuc 0)
      ]
      else none
]

-- The answers to setsockopt, bind and listen.
pub record ListenCalls : Type 0 where
  pub option_ok : Bool
  pub bind_ok : Bool
  pub listen_ok : Bool
  pub port_ok : Bool

abbrev pub is_nonzero : ℤ → Bool
is_nonzero (pos n) = not (n == 0)
is_nonzero (negsuc n) = true

-- `listen` on IOCP, of the socket that `::socket` gives. `port_ok`: CreateIoCompletionPort.
unfoldable pub listen_iocp :
    Bool
    → ℤ
    → ListenCalls
    → SocketCalls
    → AcceptExResult
    → TcpListener
    → Option (Bool × TcpListener)
listen_iocp overruns socket calls new_calls outcome l =
    let l1 : TcpListener = record l { socket = socket } in
    let l2 : TcpListener = record l1 {
      poller = (add calls.port_ok (socket_key socket) (some l.this) l.poller).1;
    } in
    if calls.option_ok
    then (if calls.bind_ok
        then (if calls.listen_ok
            then (accept_ex overruns new_calls outcome >>= λ accepted.
                some (if is_nonzero accepted then (true, l2) else (false, l2)))
            else some (false, l1))
        else some (false, l1))
    else some (false, l1)

-- `listen` on epoll. (`runAcceptProcess` is not in the sources.)
unfoldable pub listen_epoll : SocketCalls → ListenCalls → TcpListener → Bool × TcpListener
listen_epoll new_calls calls l =
    let socket = (get_new_socket new_calls).0 in
    let l1 : TcpListener = record l { socket = socket } in
    let l2 : TcpListener = record l1 { registered = socket ∷ l.registered; listening = true } in
    if calls.option_ok
    then (if calls.bind_ok
        then (if calls.listen_ok then (true, l2) else (false, l1))
        else (false, l1))
    else (false, l1)

-- `listen` on kqueue: on success the function ends without a `return`, which is `none`.
unfoldable pub listen_kqueue : SocketCalls → ListenCalls → TcpListener → Option Bool × TcpListener
listen_kqueue new_calls calls l =
    let socket = (get_new_socket new_calls).0 in
    let l1 : TcpListener = record l { socket = socket } in
    let l2 : TcpListener = record l1 { registered = socket ∷ l.registered; listening = true } in
    if calls.option_ok
    then (if calls.bind_ok
        then (if calls.listen_ok then (none, l2) else (some false, l1))
        else (some false, l1))
    else (some false, l1)

-- `accept` on the other systems: what `::accept` gives, the number of the TcpSocket that is made
-- for it, and whether the system takes it into its queue.
unfoldable pub accept : ℤ → ℕ → Bool → TcpListener → ℤ × TcpListener
accept (negsuc n) object added l = (negsuc n, l)
accept (pos s) object added l =
    if s == 0
    then (pos s, l)
    else (pos s, record l { poller = (add added s (some object) l.poller).1 })

unfoldable pub register_accept_handler : ℕ → TcpListener → TcpListener
register_accept_handler handler l = record l { accept_handler = some handler }

-- `onAccept` does nothing yet.
unfoldable pub on_accept : ℤ → TcpListener → TcpListener
on_accept socket l = l

-- `onRead`.
unfoldable pub on_read : ℤ → ℕ → Bool → TcpListener → TcpListener
unfolding on_accept
on_read given object added l = let (socket, l') = accept given object added l in on_accept socket l'
