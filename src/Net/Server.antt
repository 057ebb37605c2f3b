-- ===== src/Net/Server.antt =====
-- A listener and the socket objects that it makes, on epoll. The objects' `onRead` is that of
-- Socket: it tests `_ioData.bytes`, a member that `IO_DATA` has under HAVE_IOCP alone, so that on epoll
-- nothing is to be concluded from what `onRead` does with it.
use qing.Common.{
  ℕ, suc, Bool, Option, none, some, List, [], ◌∷◌, ◌>>=◌, ◌==◌, if◌then◌else◌, ℤ, pos, negsuc,
}
use qing.Common.OrdMap.{find, insert, update}
use qing.Net.Poller.{Action, on_read, on_write}
use qing.Net.Socket
use qing.Net.Socket.{TcpSocket, Garbage, accepted_socket}
use qing.Net.Listener
use qing.Net.Listener.{TcpListener}

-- `objects` are the sockets that `new` made: no code deletes one. `watched` are the pointers that
-- epoll_ctl or `kevent` took: no code removes one.
pub record Server : Type 0 where
  pub listener : TcpListener
  pub objects : List (ℕ × TcpSocket)
  pub next_object : ℕ
  pub watched : List ℕ

-- `onRead` of the listener, of what `::accept` gives. `added`: the system takes the new socket.
unfoldable pub accept_one : ℤ → Bool → Garbage → Server → Server
accept_one given added g w =
    let l = Listener.on_read given w.next_object added w.listener in
    elim given [
      | negsuc n ↦ record w { listener = l }
      | pos s ↦ if s == 0 then record w { listener = l } else record w {
        listener = l;
        objects = insert w.next_object (accepted_socket (pos s) g) w.objects;
        next_object = suc w.next_object;
        watched = if added then w.next_object ∷ w.watched else w.watched;
      }
    ]

-- The virtual call, on the object that the pointer names. No result: there is none.
unfoldable pub deliver : Action → List (ℕ × TcpSocket) → Option (List (ℕ × TcpSocket))
deliver (on_read b) m = elim (find b m) [ none ↦ none | some s ↦ some (update b Socket.on_read m) ]
deliver (on_write b) m = elim (find b m) [
  | none ↦ none
  | some s ↦ some (update b Socket.on_write m)
]

unfoldable pub deliver_all : List Action → List (ℕ × TcpSocket) → Option (List (ℕ × TcpSocket))
deliver_all [] m = some m
deliver_all (a ∷ actions) m = deliver a m >>= deliver_all actions
