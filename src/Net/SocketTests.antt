-- ===== src/Net/SocketTests.antt =====
-- The sockets, and a server with them, at concrete inputs.
use qing.Common.{Bool, ◌≡◌, refl, true, none, some, [], ◌∷◌, pos}
use qing.Net.Poller.{handle_complete, EpollMasks, EpollEvent, KEvent, evfilt_read}
use qing.Net.Poller
use qing.Net.Util.{SocketCalls}
use qing.Net.Listener.{TcpListener, ListenCalls, listen_iocp, accept_failed, pending}
use qing.Net.Iocp.{accept_block, poll_block}
use qing.Net.Completions.{iocp_completions}
use qing.Net.Socket.{TcpSocket, Garbage, WsaResult, close, valid, accepted_socket, write}
use qing.Net.Socket
use qing.Net.SocketLife
use qing.Net.SocketLife.{on_read_closes}

abbrev connected : TcpSocket
connected = record {
  socket = pos 7;
  handle = pos 7;
  io_type = handle_complete;
  io_bytes = 0;
  read_buffer = [];
  write_queue = [];
  send_handler = some 1;
  recv_handler = some 2;
  close_handler = some 3;
  address = none;
  io_socket = none;
  read_io = Socket.unwritten;
  write_io = Socket.unwritten;
  write_buffer = [];
  effects = [];
}

close-connected : (close connected).effects ≡ Socket.closed 3 ∷ Socket.close_socket (pos 7) ∷ []
unfolding close valid
close-connected = refl

-- What the memory held before the constructor.
abbrev garbage : Garbage
garbage = record {
  handle = pos 3;
  io_type = handle_complete;
  io_bytes = 5;
  read_buffer = 1 ∷ 2 ∷ [];
  write_buffer = [];
}

-- An accepted socket that has written.
abbrev written : TcpSocket
written = (write (1 ∷ 2 ∷ []) Socket.pending (accepted_socket (pos 9) garbage)).1

written-Reach : SocketLife.Reach written
written-Reach =
    SocketLife.next (SocketLife.accepted (pos 9) garbage)
      (SocketLife.writes (1 ∷ 2 ∷ []) Socket.pending refl)

on_read_closes_example :
    (Socket.on_read written ≡ close written)
    × (written.write_queue ≡ [])
    × (written.read_io.socket ≡ none)
    × (written.write_io.socket ≡ none)
on_read_closes_example = on_read_closes written-Reach

abbrev listener : TcpListener
listener = record {
  this = 1;
  socket = pos 3;
  listening = true;
  poller = record { handle = pos 3; socket_pool = [] };
  accept_handler = none;
  registered = pos 3 ∷ [];
}

-- A listener on the socket 6, and a socket that asks for bytes.
iocp_completions_example :
    let all_ok : ListenCalls = record {
      option_ok = true;
      bind_ok = true;
      listen_ok = true;
      port_ok = true;
    } in
    let new_calls : SocketCalls = record { socket = some 7; reuse_ok = true; sndbuf_ok = true } in
    let asked = (Socket.read Socket.done written).1 in
    ((r : Bool) × (l' : TcpListener) × (listen_iocp true
          (pos 6)
          all_ok
          new_calls
          (accept_failed pending)
          listener
        ≡ some (r, l'))
      × (poll_block true (accept_block l') l'.poller
          ≡ some (record { result = true; actions = Poller.on_read 1 ∷ []; pool = l'.poller })))
    × (poll_block true asked.read_io listener.poller ≡ none)
    × (poll_block true asked.write_io listener.poller ≡ none)
iocp_completions_example =
    iocp_completions true listener.poller (pos 6)
      (record { option_ok = true; bind_ok = true; listen_ok = true; port_ok = true })
      (record { socket = some 7; reuse_ok = true; sndbuf_ok = true }) (accept_failed pending)
      listener (SocketLife.next written-Reach (SocketLife.reads Socket.done refl)) tt refl refl refl
