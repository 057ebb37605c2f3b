-- ===== src/Net/Socket.antt =====
-- `TcpSocket`, include/qing/net/tcp_socket.hpp and src/net/tcp_socket.cpp.
use qing.Common.{
  ℕ, zero, Bool, true, false, not, Option, none, some, List, [], ◌∷◌, ◌++◌, if◌then◌else◌, take, ℤ,
  negsuc, ◌==◌, ◌&&◌,
}
use qing.Net.Address.{Address}
use qing.Net.Poller.{IoType, handle_accept, handle_read, handle_write, handle_complete}
use qing.Net.Util.{SocketCalls, get_new_socket}

-- What a call of a socket does outside it: the calls of the system, and of the handlers by their
-- numbers.
pub data Effect : Type 0 where
  wsa_send : List ℕ → Effect
  wsa_recv : Effect
  close_socket : ℤ → Effect
  closed : ℕ → Effect
  sent : ℕ → Effect
  received : ℕ → Effect

-- `IO_DATA`: what the system is given with a request. `none` is memory that nothing has written.
pub record IoBlock : Type 0 where
  pub socket : Option ℤ
  pub io_type : Option IoType
  pub bytes : Option ℕ

-- A socket. `handle` and `io_socket`, `io_type`, `io_bytes` (of `_ioData`) are named by the code and
-- not declared in the class. `effects` is the log of what it did, newest first.
pub record TcpSocket : Type 0 where
  pub socket : ℤ
  pub handle : ℤ
  pub address : Option Address
  pub io_socket : Option ℤ
  pub io_type : IoType
  pub io_bytes : ℕ
  pub read_io : IoBlock
  pub write_io : IoBlock
  pub read_buffer : List ℕ
  pub write_buffer : List ℕ
  pub write_queue : List (List ℕ)
  pub send_handler : Option ℕ
  pub recv_handler : Option ℕ
  pub close_handler : Option ℕ
  pub effects : List Effect

abbrev pub unwritten : IoBlock
unwritten = record { socket = none; io_type = none; bytes = none }

-- What stands in the members that no initializer writes.
pub record Garbage : Type 0 where
  pub handle : ℤ
  pub io_type : IoType
  pub io_bytes : ℕ
  pub read_buffer : List ℕ
  pub write_buffer : List ℕ

-- `TcpSocket(poller)`: the members' initializers alone.
unfoldable pub polled_socket : Garbage → TcpSocket
polled_socket g = record {
  socket = negsuc 0;
  handle = g.handle;
  address = none;
  io_socket = none;
  io_type = g.io_type;
  io_bytes = g.io_bytes;
  read_io = unwritten;
  write_io = unwritten;
  read_buffer = g.read_buffer;
  write_buffer = g.write_buffer;
  write_queue = [];
  send_handler = none;
  recv_handler = none;
  close_handler = none;
  effects = [];
}

-- `init`: the memset leaves the first `IO_TYPE`, and 0 bytes.
unfoldable pub init : TcpSocket → TcpSocket
init s = record s { io_socket = some s.socket; io_type = handle_accept; io_bytes = 0 }

-- `TcpSocket()`.
unfoldable pub new_socket : SocketCalls → Garbage → TcpSocket
unfolding init polled_socket
new_socket calls g = init (record (polled_socket g) { socket = (get_new_socket calls).0 })

-- `TcpSocket(poller, socket)`; `setSocket` of the base class stores the socket.
unfoldable pub accepted_socket : ℤ → Garbage → TcpSocket
unfolding init polled_socket
accepted_socket socket g = init (record (polled_socket g) { socket = socket })

-- `~TcpSocket`.
unfoldable pub destroy : TcpSocket → TcpSocket
destroy s = record s {
  socket = negsuc 0;
  send_handler = none;
  recv_handler = none;
  close_handler = none;
}

unfoldable pub set_address : Address → TcpSocket → TcpSocket
set_address address s = record s { address = some address }

abbrev is_minus_one : ℤ → Bool
is_minus_one (negsuc zero) = true
is_minus_one _ = false

unfoldable pub valid : TcpSocket → Bool
valid s = not (is_minus_one s.socket)

abbrev pub does : Effect → TcpSocket → TcpSocket
does x s = record s { effects = x ∷ s.effects }

-- `if (nullptr != handler) handler(...)`.
abbrev pub calls : Option ℕ → (ℕ → Effect) → TcpSocket → TcpSocket
calls none f s = s
calls (some handler) f s = does (f handler) s

unfoldable pub register_send_handler : Option ℕ → TcpSocket → TcpSocket
register_send_handler handler s = record s { send_handler = handler }

unfoldable pub register_recv_handler : Option ℕ → TcpSocket → TcpSocket
register_recv_handler handler s = record s { recv_handler = handler }

unfoldable pub register_close_handler : Option ℕ → TcpSocket → TcpSocket
register_close_handler handler s = record s { close_handler = handler }

unfoldable pub write_finished : TcpSocket → TcpSocket
write_finished s = calls s.send_handler sent s

unfoldable pub read_finished : TcpSocket → TcpSocket
read_finished s = calls s.recv_handler received s

-- `close`.
unfoldable pub close : TcpSocket → TcpSocket
unfolding valid
close s =
    let s1 = if is_minus_one s.handle then s else does (close_socket s.handle) s in
    let s2 : TcpSocket = record s1 { socket = negsuc 0 } in
    if valid s then calls s.close_handler closed s2 else s

-- What WSASend or WSARecv gives: 0, an error that only says the operation is pending (or none),
-- or another error.
pub data WsaResult : Type 0 where
  done pending failed : WsaResult

-- What `write` and `read` store before they call the system.
abbrev pub sending : List ℕ → TcpSocket → TcpSocket
sending bytes s = record s {
  write_buffer = bytes;
  write_io = record s.write_io { io_type = some handle_write; bytes = some 0 };
}

abbrev pub receiving : TcpSocket → TcpSocket
receiving s = record s { read_io = record s.read_io { io_type = some handle_read; bytes = some 0 } }

-- `write`. `none` is the `return;` of a function that is declared to return a bool.
unfoldable pub write : List ℕ → WsaResult → TcpSocket → Option Bool × TcpSocket
unfolding valid
write bytes result s =
    if valid s
    then elim bytes [
      | [] ↦ (some false, s)
      | b ∷ rest ↦
          let s1 = does (wsa_send (b ∷ rest)) (sending (b ∷ rest) s) in
          elim result [ failed ↦ (none, close s1) | _ ↦ (none, s1) ]
    ]
    else (some false, s)

abbrev is_complete : IoType → Bool
is_complete handle_complete = true
is_complete _ = false

-- `read`.
unfoldable pub read : WsaResult → TcpSocket → Bool × TcpSocket
unfolding valid
read result s =
    let s1 = does wsa_recv (receiving s) in
    if not (valid s) && is_complete s.io_type
    then (false, s)
    else elim result [ failed ↦ (false, close s1) | _ ↦ (true, s1) ]

-- `onRead`: the bytes that came go to the queue of the writes.
unfoldable pub on_read : TcpSocket → TcpSocket
on_read s =
    if s.io_bytes == 0
    then close s
    else record s { write_queue = s.write_queue ++ take s.io_bytes s.read_buffer ∷ [] }

-- `onWrite` does nothing.
unfoldable pub on_write : TcpSocket → TcpSocket
on_write s = s
