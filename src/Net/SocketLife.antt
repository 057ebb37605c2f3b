-- ===== src/Net/SocketLife.antt =====
-- The life of a socket: every order of its operations, and of the system's completions.
use qing.Common.{ℕ, ap, ◌∙◌, ◌≡◌, refl, false, Option, none, some, List, [], arith, ℤ}
use qing.Net.Address.{Address}
use qing.Net.Poller.{handle_accept}
use qing.Net.Util.{SocketCalls}
use qing.Net.Socket.{
  TcpSocket, Garbage, new_socket, accepted_socket, set_address, calls, register_send_handler,
  register_recv_handler, register_close_handler, write_finished, read_finished, valid, close,
  WsaResult, write, read, on_read, on_write,
}

-- One operation on a socket, or a completion: the poller writes the number of the bytes into the
-- block of the request, and the system the bytes into the buffer.
pub data Step (s s' : TcpSocket) : Type 0 where
  writes : (bytes : List ℕ) (result : WsaResult) → s' ≡ (write bytes result s).1 → Step s s'
  reads : (result : WsaResult) → s' ≡ (read result s).1 → Step s s'
  reads_on : s' ≡ on_read s → Step s s'
  writes_on : s' ≡ on_write s → Step s s'
  closes : s' ≡ close s → Step s s'
  finishes_write : s' ≡ write_finished s → Step s s'
  finishes_read : s' ≡ read_finished s → Step s s'
  registers_send : (handler : Option ℕ) → s' ≡ register_send_handler handler s → Step s s'
  registers_recv : (handler : Option ℕ) → s' ≡ register_recv_handler handler s → Step s s'
  registers_close : (handler : Option ℕ) → s' ≡ register_close_handler handler s → Step s s'
  gets_address : (address : Address) → s' ≡ set_address address s → Step s s'
  completes_read :
      (bytes : List ℕ) (n : ℕ)
      → s' ≡ record s { read_buffer = bytes; read_io = record s.read_io { bytes = some n } }
      → Step s s'
  completes_write :
      (n : ℕ) → s' ≡ record s { write_io = record s.write_io { bytes = some n } } → Step s s'

pub data Reach : TcpSocket → Type 0 where
  created : (calls : SocketCalls) (g : Garbage) → Reach (new_socket calls g)
  accepted : (socket : ℤ) (g : Garbage) → Reach (accepted_socket socket g)
  next : {s s' : TcpSocket} → Reach s → Step s s' → Reach s'

-- The block that `init` clears is not one that a request is made with, and nothing else writes it.
record IsUnfed (s : TcpSocket) : Type 0 where
  io_type : s.io_type ≡ handle_accept
  io_bytes : s.io_bytes ≡ 0
  queue : s.write_queue ≡ []
  read_socket : s.read_io.socket ≡ none
  write_socket : s.write_io.socket ≡ none

close-IsUnfed : {s : TcpSocket} → IsUnfed s → IsUnfed (close s)
unfolding close valid
close-IsUnfed v = ground arith

Step-IsUnfed : {s s' : TcpSocket} → Step s s' → IsUnfed s → IsUnfed s'
unfolding write read on_read on_write write_finished read_finished register_send_handler
    register_recv_handler register_close_handler set_address valid close
Step-IsUnfed (writes bytes result q) v = rw q (ground arith)
Step-IsUnfed (reads result q) v = rw q (ground arith)
Step-IsUnfed (reads_on q) v = rw q (ground arith)
Step-IsUnfed (writes_on q) v = rw q v
Step-IsUnfed (closes q) v = rw q (close-IsUnfed v)
Step-IsUnfed (finishes_write q) v = rw q (ground arith)
Step-IsUnfed (finishes_read q) v = rw q (ground arith)
Step-IsUnfed (registers_send handler q) v = rw q (ground arith)
Step-IsUnfed (registers_recv handler q) v = rw q (ground arith)
Step-IsUnfed (registers_close handler q) v = rw q (ground arith)
Step-IsUnfed (gets_address address q) v = rw q (ground arith)
Step-IsUnfed (completes_read bytes n q) v = rw q (ground arith)
Step-IsUnfed (completes_write n q) v = rw q (ground arith)

Reach-IsUnfed : {s : TcpSocket} → Reach s → IsUnfed s
unfolding new_socket accepted_socket
Reach-IsUnfed (created calls g) = record {
  io_type = refl;
  io_bytes = refl;
  queue = refl;
  read_socket = refl;
  write_socket = refl;
}
Reach-IsUnfed (accepted socket g) = record {
  io_type = refl;
  io_bytes = refl;
  queue = refl;
  read_socket = refl;
  write_socket = refl;
}
Reach-IsUnfed (next r st) = Step-IsUnfed st (Reach-IsUnfed r)

-- Whatever is done with a socket that was made with a descriptor, and whatever the system completes:
-- `onRead` closes it, no bytes are in its queue, and the blocks that it reads and writes with do not
-- say which socket they are of.
pub on_read_closes :
    {s : TcpSocket}
    → Reach s
    → (on_read s ≡ close s)
      × (s.write_queue ≡ [])
      × (s.read_io.socket ≡ none)
      × (s.write_io.socket ≡ none)
unfolding on_read
on_read_closes r =
    let v = Reach-IsUnfed r in (ground (arith, v.io_bytes), v.queue, v.read_socket, v.write_socket)

-- A socket without a descriptor never gets one.
pub Step-closed : {s s' : TcpSocket} → Step s s' → valid s ≡ false → valid s' ≡ false
unfolding write read on_read on_write write_finished read_finished register_send_handler
    register_recv_handler register_close_handler set_address valid close
Step-closed (writes bytes result q) c = ap valid q ∙ ground arith
Step-closed (reads result q) c = ap valid q ∙ ground arith
Step-closed (reads_on q) c = ap valid q ∙ ground arith
Step-closed (writes_on q) c = ap valid q ∙ c
Step-closed (closes q) c = ap valid q ∙ ground arith
Step-closed (finishes_write q) c = ap valid q ∙ ground arith
Step-closed (finishes_read q) c = ap valid q ∙ ground arith
Step-closed (registers_send handler q) c = ap valid q ∙ c
Step-closed (registers_recv handler q) c = ap valid q ∙ c
Step-closed (registers_close handler q) c = ap valid q ∙ c
Step-closed (gets_address address q) c = ap valid q ∙ c
Step-closed (completes_read bytes n q) c = ap valid q ∙ c
Step-closed (completes_write n q) c = ap valid q ∙ c

-- What becomes of a socket by further operations and completions.
pub data Later (s : TcpSocket) : TcpSocket → Type 0 where
  now : Later s s
  later : {t t' : TcpSocket} → Later s t → Step t t' → Later s t'
