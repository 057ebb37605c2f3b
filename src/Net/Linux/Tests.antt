-- ===== src/Net/Linux/Tests.antt =====
-- A server on Linux at a concrete epoll: a wait reports one pointer, the number that it is given,
-- if this has an interest, with all that it asks for.
use qing.Common.{
  ℕ, ◌≤◌, ◌≡◌, refl, ◌⊎◌, inl, inr, true, false, none, some, List, [], ◌∷◌, arith, ◌==◌, Bool-cases,
  ne_of_==_false, if◌then◌else◌, pos, length,
}
use qing.Net.Poller.{EpollEvent, epoll_event, epoll_loop, poll_epoll}
use qing.Net.Interest.{has, convert_event_mask, added_event}
use qing.Net.InterestTests.{masks, masks-IsLinux}
use qing.Common.OrdMap.{find, insert, update}
use qing.Net.Poller
use qing.Net.Poller.{handle_complete}
use qing.Net.Listener.{TcpListener}
use qing.Net.Socket.{TcpSocket, Garbage, accepted_socket, on_read}
use qing.Net.Server.{accept_one, deliver, deliver_all}
use qing.Net.Linux.Epoll.{Epoll, reports, AllAsked}
use qing.Net.Linux.Serve.{LinuxServer, accept_linux, poll_linux, calls_of, AllReads}
use qing.Net.Linux.Calls.{Reach, starts, next, accepts, polls, linux_calls_once}

abbrev waits : ℕ → (ℕ → ℕ) → List EpollEvent × (ℕ → ℕ)
waits n k =
    if k n == 0
    then ([], k)
    else (record { ptr = some n; events = k n } ∷ [], λ b. if b == n then 0 else k b)

length-waits : (n : ℕ) (k : ℕ → ℕ) → length (waits n k).0 ≤ 256
length-waits n k = ground arith

waits_asked : (n : ℕ) (k : ℕ → ℕ) → AllAsked masks k (waits n k).0
waits_asked n k = elim (Bool-cases (k n == 0)) [
  | inl off ↦ rw off tt
  | inr on ↦ rw on ((n, refl, ne_of_==_false (k n) 0 on, (λ p. p), (λ p. p)), tt)
]

waits_once : (n b : ℕ) (k : ℕ → ℕ) → reports b (waits n k).0 ≤ 1
waits_once n b k = ground arith

waits_interest :
    (n b : ℕ) (k : ℕ → ℕ)
    → ((waits n k).1 b ≡ 0)
      ⊎ (((waits n k).1 b ≡ k b)
          × ((reports b (waits n k).0 ≡ 0) ⊎ (has (k b) masks.epolloneshot ≡ false)))
waits_interest n b k = elim (Bool-cases (k n == 0)) [
  | inl off ↦ rw off (inr (refl, inl refl))
  | inr on ↦ elim (Bool-cases (b == n)) [
    | inl same ↦ rw (on, same) (inl refl)
    | inr other ↦ rw (on, other) (inr (refl, inl refl))
  ]
]

abbrev machine : Epoll masks
machine = record {
  Kernel = ℕ → ℕ;
  interest = λ k. k;
  created = λ b. 0;
  ctl_add =
      λ ev k. (true, λ c. elim ev.ptr [ none ↦ k c | some b ↦ if c == b then ev.events else k c ]);
  wait = waits;
  created_empty = λ b. refl;
  ctl_add_interest = λ b c mask k. refl;
  wait_length = length-waits;
  wait_asked = waits_asked;
  wait_once = waits_once;
  wait_interest = waits_interest;
}

abbrev listener : TcpListener
listener = record {
  this = 1;
  socket = pos 3;
  listening = true;
  poller = record { handle = pos 4; socket_pool = [] };
  accept_handler = none;
  registered = pos 3 ∷ [];
}

-- What the memory held before the constructor.
abbrev garbage : Garbage
garbage = record {
  handle = pos 9;
  io_type = handle_complete;
  io_bytes = 5;
  read_buffer = [];
  write_buffer = [];
}

abbrev started : LinuxServer masks machine
started = record {
  server = record { listener = listener; objects = []; next_object = 0; watched = [] };
  kernel = machine.created;
  made = [];
}

abbrev accepted : LinuxServer masks machine
accepted = accept_linux masks machine (pos 9) garbage started

-- The socket after `onRead`: closed.
abbrev read_once : TcpSocket
read_once = on_read (accepted_socket (pos 9) garbage)

abbrev called : LinuxServer masks machine
called = record {
  server = record accepted.server { objects = (0, read_once) ∷ [] };
  kernel = (waits 0 accepted.kernel).1;
  made = Poller.on_read 0 ∷ [];
}

poll-accepted : poll_linux masks machine 0 accepted ≡ some (true, called)
unfolding poll_linux accept_linux accept_one poll_epoll epoll_loop epoll_event added_event
    convert_event_mask deliver_all deliver find insert update
poll-accepted = refl

called-Reach : Reach masks machine called
called-Reach =
    next (next (starts listener) (accepts (pos 9) garbage refl)) (polls 0 true poll-accepted)

linux_calls_once_example :
    ((n : ℕ)
      → (w' : LinuxServer masks machine) × (poll_linux masks machine n called ≡ some (true, w')))
    × ((b : ℕ) → calls_of b called.made ≤ 1)
    × AllReads called.made
linux_calls_once_example = linux_calls_once masks machine masks-IsLinux called-Reach

-- A second poll finds nothing.
poll-called : poll_linux masks machine 0 called ≡ some (true, called)
unfolding poll_linux accept_linux poll_epoll epoll_loop deliver_all added_event convert_event_mask
poll-called = refl
