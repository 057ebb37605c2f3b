-- ===== src/Net/Completions.antt =====
-- Which completions of IOCP reach an object.
use qing.Common.{◌≡◌, refl, ◌⊎◌, inl, inr, Bool, true, none, some, [], ◌∷◌, arith, ℤ, Option-cases}
use qing.Net.Poller.{handle_accept, handle_read, handle_write, Poller, add, on_read}
use qing.Net.Dispatch.{IsPool, poll_iocp_calls}
use qing.Net.Util.{SocketCalls}
use qing.Net.Listener.{
  TcpListener, socket_key, AcceptExResult, ListenCalls, listen_iocp, accept_ex, is_nonzero,
}
use qing.Net.Socket
use qing.Net.Socket.{
  TcpSocket, IoBlock, new_socket, accepted_socket, set_address, calls, register_send_handler,
  register_recv_handler, register_close_handler, write_finished, read_finished, valid, close,
  WsaResult, write, read, on_write,
}
use qing.Net.SocketLife.{
  Reach, on_read_closes, Step, writes, reads, reads_on, writes_on, closes, finishes_write,
  finishes_read, registers_send, registers_recv, registers_close, gets_address, completes_read,
  completes_write, created, accepted, next,
}
use qing.Net.Iocp.{accept_block, poll_block}

-- What the blocks of a socket say that they are for.
record IsTyped (s : TcpSocket) : Type 0 where
  read_type : (s.read_io.io_type ≡ none) ⊎ (s.read_io.io_type ≡ some handle_read)
  write_type : (s.write_io.io_type ≡ none) ⊎ (s.write_io.io_type ≡ some handle_write)

close-IsTyped : {s : TcpSocket} → IsTyped s → IsTyped (close s)
unfolding close valid
close-IsTyped v = record {
  read_type = ground (arith, v.read_type);
  write_type = ground (arith, v.write_type);
}

Step-IsTyped : {s s' : TcpSocket} → Step s s' → IsTyped s → IsTyped s'
unfolding write read Socket.on_read on_write write_finished read_finished register_send_handler
    register_recv_handler register_close_handler set_address valid close
Step-IsTyped (writes bytes result q) v =
    rw q (record {
      read_type = ground (arith, v.read_type);
      write_type = ground (arith, v.write_type);
    })
Step-IsTyped (reads result q) v =
    rw q (record {
      read_type = ground (arith, v.read_type);
      write_type = ground (arith, v.write_type);
    })
Step-IsTyped (reads_on q) v =
    rw q (record {
      read_type = ground (arith, v.read_type);
      write_type = ground (arith, v.write_type);
    })
Step-IsTyped (writes_on q) v = rw q v
Step-IsTyped (closes q) v = rw q (close-IsTyped v)
Step-IsTyped (finishes_write q) v =
    rw q (record {
      read_type = ground (arith, v.read_type);
      write_type = ground (arith, v.write_type);
    })
Step-IsTyped (finishes_read q) v =
    rw q (record {
      read_type = ground (arith, v.read_type);
      write_type = ground (arith, v.write_type);
    })
Step-IsTyped (registers_send handler q) v =
    rw q (record { read_type = v.read_type; write_type = v.write_type })
Step-IsTyped (registers_recv handler q) v =
    rw q (record { read_type = v.read_type; write_type = v.write_type })
Step-IsTyped (registers_close handler q) v =
    rw q (record { read_type = v.read_type; write_type = v.write_type })
Step-IsTyped (gets_address address q) v =
    rw q (record { read_type = v.read_type; write_type = v.write_type })
Step-IsTyped (completes_read bytes n q) v =
    rw q (record { read_type = v.read_type; write_type = v.write_type })
Step-IsTyped (completes_write n q) v =
    rw q (record { read_type = v.read_type; write_type = v.write_type })

Reach-IsTyped : {s : TcpSocket} → Reach s → IsTyped s
unfolding new_socket accepted_socket
Reach-IsTyped (created calls g) = record { read_type = inl refl; write_type = inl refl }
Reach-IsTyped (accepted socket g) = record { read_type = inl refl; write_type = inl refl }
Reach-IsTyped (next r st) = Step-IsTyped st (Reach-IsTyped r)

-- A block that is of a read or a write, or of nothing yet, and names no socket.
nameless-lem :
    (ret : Bool) (block : IoBlock) (p : Poller)
    → (block.io_type ≡ none)
      ⊎ ((block.io_type ≡ some handle_read) ⊎ (block.io_type ≡ some handle_write))
    → block.socket ≡ none
    → poll_block ret block p ≡ none
unfolding poll_block
nameless-lem ret block p (inl t) n = rw t refl
nameless-lem ret block p (inr (inl t)) n = rw (t, n) refl
nameless-lem ret block p (inr (inr t)) n = rw (t, n) refl

-- Behind the memset `accept` always has a result.
accept_ex-some :
    (calls : SocketCalls) (outcome : AcceptExResult)
    → (z : ℤ) × (accept_ex true calls outcome ≡ some z)
unfolding accept_ex
accept_ex-some calls outcome = elim (Option-cases (accept_ex true calls outcome)) [
  | inl q ↦ absurd (ground arith)
  | inr (z, q) ↦ (z, q)
]

-- On IOCP, of a listener whose `listen` makes its three calls, and whose poller had its keys in
-- order, the memset of `accept` that runs past its variable aside: `listen` returns, and when its
-- request completes,
-- `poll` calls its `onRead`, and nothing else, and returns true. But of a socket that was made with
-- a descriptor, whatever was done with it: when a request with one of its blocks completes, `poll`
-- does nothing that the language defines, for it looks the socket up by a member that nothing has
-- written.
pub iocp_completions :
    {s : TcpSocket} (ret : Bool) (p : Poller) (socket : ℤ) (calls : ListenCalls)
    (new_calls : SocketCalls) (outcome : AcceptExResult) (l : TcpListener)
    → Reach s
    → IsPool l.poller
    → calls.option_ok ≡ true
    → calls.bind_ok ≡ true
    → calls.listen_ok ≡ true
    → ((r : Bool) × (l' : TcpListener) × (listen_iocp true socket calls new_calls outcome l
          ≡ some (r, l'))
        × (poll_block ret (accept_block l') l'.poller
            ≡ some (record { result = true; actions = on_read l.this ∷ []; pool = l'.poller })))
      × (poll_block ret s.read_io p ≡ none)
      × (poll_block ret s.write_io p ≡ none)
unfolding listen_iocp poll_block accept_block
iocp_completions {s} ret p socket calls new_calls outcome l r pool o b li =
    let (_, _, no_reader, no_writer) = on_read_closes r in
    let v = Reach-IsTyped r in
    let dispatched =
      (poll_iocp_calls calls.port_ok ret none
        (record { socket = socket_key socket; io_type = handle_accept }) l.this l.poller pool).0 in
    let l2 : TcpListener = record l {
      socket = socket;
      poller = (add calls.port_ok (socket_key socket) (some l.this) l.poller).1;
    } in
    let (z, goes_on) = accept_ex-some new_calls outcome in
    (
      (is_nonzero z, l2, ground arith, dispatched),
      nameless-lem ret s.read_io p (elim v.read_type [ inl t ↦ inl t | inr t ↦ inr (inl t) ])
          no_reader,
      nameless-lem ret s.write_io p (elim v.write_type [ inl t ↦ inl t | inr t ↦ inr (inr t) ])
          no_writer,
    )
