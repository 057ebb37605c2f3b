-- ===== src/Net/Tests.antt =====
-- The parts of the network code at concrete inputs.
use mathlib.Core.Option
use qing.Common.{
  Bool, ◌+◌, ◌*◌, ◌/◌, ◌%◌, ℕ, ◌^◌, ◌<◌, ◌≡◌, refl, Bool, true, false, none, some, List, [], ◌∷◌,
  ◌++◌, arith, pos, negsuc, ltb,
}
use qing.Net.Buffer.{Buffer, new_buffer, write, fetch, size}
use qing.Net.Stream.{step, Op, puts, gets, run, run_conserves, fetch-write}
use qing.Net.Client.{client_connected, connect}
use qing.Net.Connect.{connect_lem}
use qing.Net.Poller.{
  kqueue_event, filter_actions, handle_read, on_read, on_write, Poller, add, remove, IoData,
  poll_iocp, EpollEvent, EpollMasks, epoll_event, poll_epoll, evfilt_read, KEvent, poll_kqueue,
}
use qing.Net.Dispatch.{IsPool, poll_iocp_calls}
use qing.Net.Events.{epoll_actions, poll_epoll_lem, poll_kqueue_lem}
use qing.Net.Util.{SocketCalls}
use qing.Net.Address.{Conversions}
use qing.Net.Listener.{TcpListener, ListenCalls}

abbrev three_bytes : Buffer
three_bytes = record { bytes = 1 ∷ 2 ∷ 3 ∷ [] }

abbrev client_ops : List Op
client_ops = gets 2 ∷ puts (4 ∷ 5 ∷ []) ∷ gets 4 ∷ gets 3 ∷ []

run-client_ops : run client_ops three_bytes ≡ some (1 ∷ 2 ∷ 3 ∷ 4 ∷ 5 ∷ [], new_buffer)
unfolding run step write fetch size new_buffer
run-client_ops = refl

run_conserves_example :
    (out : List ℕ) × (b' : Buffer) × (run client_ops three_bytes ≡ some (out, b'))
    × (out ++ b'.bytes ≡ 1 ∷ 2 ∷ 3 ∷ 4 ∷ 5 ∷ [])
run_conserves_example = run_conserves client_ops three_bytes

write-two :
    write (some (4 ∷ 5 ∷ [])) 2 three_bytes ≡ some (record { bytes = 1 ∷ 2 ∷ 3 ∷ 4 ∷ 5 ∷ [] })
unfolding write
write-two = refl

fetch-write_example :
    fetch (0 ∷ 0 ∷ 0 ∷ []) 2 (record { bytes = 1 ∷ 2 ∷ 3 ∷ 4 ∷ 5 ∷ [] })
    ≡ some (true, 1 ∷ 2 ∷ 0 ∷ [], record { bytes = 3 ∷ 4 ∷ 5 ∷ [] })
unfolding size
fetch-write_example =
    fetch-write (4 ∷ 5 ∷ []) 2 (0 ∷ 0 ∷ 0 ∷ []) 2 three_bytes write-two (omega arith) (omega arith)

-- The first two attempts are refused.
abbrev busy : ℕ → Bool
busy i = ltb i 2

busy_below : (i : ℕ) → i < 2 → busy i ≡ true
busy_below i h = ground arith

connect_lem_example :
    connect busy 5 (pos 1)
    ≡ some (
      true,
      record { socket = 5; conn_status = client_connected; nonblocking = true; attempts = 3 },
      (5, pos 1) ∷ [],
    )
connect_lem_example = connect_lem busy 5 (pos 1) 2 (omega arith) busy_below (λ h. refl)

-- One socket, and none.
abbrev pool : Poller
pool = record { handle = pos 3; socket_pool = (4, some 40) ∷ [] }

pool-IsPool : IsPool pool
pool-IsPool = (omega arith, tt)

abbrev read_on_9 : IoData
read_on_9 = record { socket = 9; io_type = handle_read }

abbrev two_sockets : Poller
two_sockets = record { handle = pos 3; socket_pool = (4, some 40) ∷ (9, some 90) ∷ [] }

poll_iocp_calls_example :
    let p1 = (add true 9 (some 90) pool).1 in
    let p2 = (remove none p1).1 in
    (poll_iocp (record { ret = true; overlapped = some read_on_9 }) p1
      ≡ some (record { result = true; actions = on_read 90 ∷ []; pool = p1 }))
    × (poll_iocp (record { ret = true; overlapped = some read_on_9 }) p2
        ≡ some (record { result = true; actions = on_read 90 ∷ []; pool = p1 }))
poll_iocp_calls_example = poll_iocp_calls true true none read_on_9 90 pool pool-IsPool

abbrev masks : EpollMasks
masks = record { epollin = 1; epollout = 4 }

-- Both events at once, then none of the two, then one without a socket.
abbrev reported : List EpollEvent
reported =
    record { ptr = some 40; events = 5 }
    ∷ record { ptr = some 90; events = 16 }
    ∷ record { ptr = some 90; events = 4 }
    ∷ record { ptr = none; events = 1 }
    ∷ []

epoll_reported : epoll_actions masks reported ≡ on_read 40 ∷ on_write 90 ∷ []
unfolding epoll_event
epoll_reported = refl

poll_epoll_lem_example :
    (poll_epoll masks (pos 4) false (reported ++ reported)
      ≡ some (true, epoll_actions masks reported))
    × (poll_epoll masks (negsuc 0) true reported ≡ none)
poll_epoll_lem_example =
    poll_epoll_lem masks reported reported reported false true (omega arith) (omega arith)

-- A closed peer with bytes to read: two calls.
abbrev closed_peer : List KEvent
closed_peer = record { udata = some 40; eof_or_error = true; filter = evfilt_read } ∷ []

poll_kqueue_lem_example :
    (poll_kqueue (pos 1) (closed_peer ++ closed_peer) ≡ some (true, on_read 40 ∷ on_read 40 ∷ []))
    × (poll_kqueue (negsuc 0) (closed_peer ++ closed_peer) ≡ some (false, []))
unfolding kqueue_event filter_actions
poll_kqueue_lem_example = poll_kqueue_lem closed_peer closed_peer (omega arith)

abbrev listener : TcpListener
listener = record {
  this = 1;
  socket = negsuc 0;
  listening = false;
  poller = pool;
  accept_handler = none;
  registered = [];
}

abbrev new_calls : SocketCalls
new_calls = record { socket = some 7; reuse_ok = true; sndbuf_ok = true }

abbrev all_ok : ListenCalls
all_ok = record { option_ok = true; bind_ok = true; listen_ok = true; port_ok = true }

abbrev swapped : ℕ → ℕ
swapped n = n % 256 * 256 + n / 256

abbrev swapped4 : ℕ → ℕ
swapped4 n = swapped (n % 2 ^ 16) * 2 ^ 16 + swapped (n / 2 ^ 16)

-- A machine that stores the low byte first and knows one name, that of 127.0.0.1.
abbrev machine : Conversions
machine = record {
  htons = swapped;
  ntohs = swapped;
  htonl = swapped4;
  ntohl = swapped4;
  inet_pton = λ text. none;
  inet_ntop = λ a. 49 ∷ 50 ∷ 55 ∷ 46 ∷ 48 ∷ 46 ∷ 48 ∷ 46 ∷ 49 ∷ [];
  getaddrinfo = λ text. (0, 0x0100007f ∷ []);
}

abbrev local_name : List ℕ
local_name = 109 ∷ 101 ∷ []
