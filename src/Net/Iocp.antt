-- ===== src/Net/Iocp.antt =====
-- The completions of IOCP: the requests of listeners and sockets, src/net/tcp_listener.cpp and
-- src/net/tcp_socket.cpp, as `Poller::poll`, src/net/poller.cpp, finds them.
use qing.Common.{Bool, Option, none, some, [], ◌>>=◌, true}
use qing.Net.Poller.{handle_accept, handle_complete, Poller, Polled, poll_iocp}
use qing.Net.Listener.{TcpListener, socket_key}
use qing.Net.Socket.{IoBlock}

-- The block that `accept` of a listener hands to AcceptEx.
unfoldable pub accept_block : TcpListener → IoBlock
accept_block l = record { socket = some l.socket; io_type = some handle_accept; bytes = none }

-- `poll` when a request with this block completes. No result: it reads memory that nothing wrote, or
-- follows a null pointer.
unfoldable pub poll_block : Bool → IoBlock → Poller → Option Polled
poll_block ret block p = elim block.io_type [
  | none ↦ none
  | some handle_complete ↦ some (record { result = true; actions = []; pool = p })
  | some other ↦ block.socket >>= λ s.
      poll_iocp
        (record {
          ret = ret;
          overlapped = some (record { socket = socket_key s; io_type = other });
        })
        p
]
