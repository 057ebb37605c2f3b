-- ===== src/Net/Poller.antt =====
-- `Poller`, include/qing/net/poller.hpp and src/net/poller.cpp: the pool of sockets, and the
-- dispatch of each of the three back ends. A `BaseSocket*` is a number, `none` the null pointer.
use Prim.Native.Nat.{bit_and}
use mathlib.Core.Option
use qing.Common.{
  ℕ, zero, suc, Bool, true, false, Option, none, some, List, [], ◌∷◌, ◌++◌, not, ◌>>=◌, ◌==◌, ltb,
  if◌then◌else◌, get_elem?, ℤ, u32_of_int, pos, negsuc,
}
use qing.Common.OrdMap.{find, insert, update}

-- `IO_TYPE`.
pub data IoType : Type 0 where
  handle_accept handle_read handle_write handle_complete : IoType

-- A virtual call that the poller makes on a socket's object.
pub data Action : Type 0 where
  on_read on_write : ℕ → Action

-- `_handle` and `_socketPool`; the order of an unordered_map plays no part.
pub record Poller : Type 0 where
  pub handle : ℤ
  pub socket_pool : List (ℕ × Option ℕ)

-- What the constructor and the destructor do outside: the calls of the system, and what they print.
pub data PollerCall : Type 0 where
  wsa_startup wsa_cleanup logs traces : PollerCall
  closes : ℤ → PollerCall

abbrev is_null : ℤ → Bool
is_null (pos zero) = true
is_null _ = false

abbrev is_minus_one : ℤ → Bool
is_minus_one (negsuc zero) = true
is_minus_one _ = false

-- `Poller()` on IOCP, by what WSAStartup and CreateIoCompletionPort give: a failure is printed, and
-- the poller keeps the handle all the same.
unfoldable pub new_poller_iocp : Bool → ℤ → List PollerCall × Poller
new_poller_iocp started port = (
  wsa_startup ∷ ((if started then [] else logs ∷ []) ++ (if is_null port then logs ∷ [] else [])),
  record { handle = port; socket_pool = [] },
)

-- The same on epoll and on kqueue, by what `epoll_create1`, `epoll_create` or `kqueue` gives.
unfoldable pub new_poller : ℤ → List PollerCall × Poller
new_poller created =
    (if is_minus_one created then logs ∷ [] else [], record { handle = created; socket_pool = [] })

-- `~Poller` on IOCP, by what CloseHandle gives, and elsewhere.
unfoldable pub destroy_poller_iocp : Bool → Poller → List PollerCall
destroy_poller_iocp closed p =
    closes p.handle ∷ ((if closed then [] else traces ∷ []) ++ wsa_cleanup ∷ [])

unfoldable pub destroy_poller : Poller → List PollerCall
destroy_poller p = closes p.handle ∷ []

-- `_socketPool[socket]` makes an entry that holds null where there is none.
unfoldable pub pool_at : ℕ → Poller → Option ℕ × Poller
pool_at socket p =
    let pool = insert socket none p.socket_pool in
    (elim (find socket pool) [ some ptr ↦ ptr | none ↦ none ], record p { socket_pool = pool })

-- `_socketPool[socket] = ptr`.
unfoldable pub pool_set : ℕ → Option ℕ → Poller → Poller
pool_set socket ptr p = record p {
  socket_pool = update socket (λ _. ptr) (insert socket none p.socket_pool);
}

-- `add`: the pool has the socket whether or not the system's call succeeds.
unfoldable pub add : Bool → ℕ → Option ℕ → Poller → Bool × Poller
add accepted socket ptr p = (accepted, pool_set socket ptr p)

-- `remove`: `epoll_ctl` and `kevent` give an `int` that goes into a uint32_t, which is tested for
-- being negative. On IOCP there is no call at all. The pool keeps the socket.
unfoldable pub remove_result : ℤ → Bool
remove_result result = not (ltb (u32_of_int result) 0)

unfoldable pub remove : Option ℤ → Poller → Bool × Poller
remove none p = (true, p)
remove (some result) p = (remove_result result, p)

-- A completion that GetQueuedCompletionStatus gives, with what its OVERLAPPED points to.
pub record IoData : Type 0 where
  pub socket : ℕ
  pub io_type : IoType

pub record Completion : Type 0 where
  pub ret : Bool
  pub overlapped : Option IoData

-- What `poll` returns, the calls that it makes, and the pool after it.
pub record Polled : Type 0 where
  pub result : Bool
  pub actions : List Action
  pub pool : Poller

-- The `switch`; no result is a call through the null pointer.
unfoldable pub dispatch : IoType → Option ℕ → Option (List Action)
dispatch handle_accept ptr = Option.map (λ b. on_read b ∷ []) ptr
dispatch handle_read ptr = Option.map (λ b. on_read b ∷ []) ptr
dispatch handle_write ptr = Option.map (λ b. on_write b ∷ []) ptr
dispatch handle_complete ptr = some []

unfoldable pub poll_complete : IoData → Poller → Option Polled
poll_complete io p = elim io.io_type [
  | handle_complete ↦ some (record { result = true; actions = []; pool = p })
  | other ↦
      let (ptr, p') = pool_at io.socket p in
      dispatch other ptr >>= λ actions.
      some (record { result = true; actions = actions; pool = p' })
]

-- `poll` on IOCP. No result: a null pointer is followed.
unfoldable pub poll_iocp : Completion → Poller → Option Polled
poll_iocp c p = elim c.overlapped [
  | none ↦ if c.ret then none else some (record { result = false; actions = []; pool = p })
  | some io ↦ poll_complete io p
]

-- An event of `epoll_wait`: `data.ptr`, and its mask.
pub record EpollEvent : Type 0 where
  pub ptr : Option ℕ
  pub events : ℕ

-- The masks of sys/epoll.h.
pub record EpollMasks : Type 0 where
  pub epollin : ℕ
  pub epollout : ℕ

-- `result`, a uint32_t, is 0xffffffff where `epoll_wait` gives -1, and is not below 0. The loop
-- reads `_events[i]`; no result is a read past its MAX_EVENT_SIZE entries.
module _ (m : EpollMasks) where
  unfoldable pub epoll_event : EpollEvent → List Action
  epoll_event ev = elim ev.ptr [
    | none ↦ []
    | some b ↦
        if not (bit_and ev.events m.epollin == 0)
        then on_read b ∷ []
        else (if not (bit_and ev.events m.epollout == 0) then on_write b ∷ [] else [])
  ]

  unfoldable pub epoll_loop : ℕ → ℕ → List EpollEvent → Option (List Action)
  epoll_loop zero i evs = some []
  epoll_loop (suc n) i evs =
      get_elem? evs i >>= λ ev. epoll_loop n (suc i) evs >>= λ rest. some (epoll_event ev ++ rest)

  -- `interrupted`: errno is EINTR.
  unfoldable pub poll_epoll : ℤ → Bool → List EpollEvent → Option (Bool × List Action)
  poll_epoll returned interrupted evs =
      let result = u32_of_int returned in
      if ltb result 0
      then (if interrupted then some (true, []) else some (false, []))
      else (epoll_loop result 0 evs >>= λ actions. some (true, actions))

-- An event of `kevent`, with what the code asks of it: EV_EOF or EV_ERROR among the flags, and
-- whether the filter is EVFILT_READ or EVFILT_WRITE.
pub data Filter : Type 0 where
  evfilt_read evfilt_write evfilt_other : Filter

pub record KEvent : Type 0 where
  pub udata : Option ℕ
  pub eof_or_error : Bool
  pub filter : Filter

unfoldable pub filter_actions : Filter → ℕ → List Action
filter_actions evfilt_read b = on_read b ∷ []
filter_actions evfilt_write b = on_write b ∷ []
filter_actions evfilt_other b = []

unfoldable pub kqueue_event : KEvent → List Action
kqueue_event ev = elim ev.udata [
  | none ↦ []
  | some b ↦ (if ev.eof_or_error then on_read b ∷ [] else []) ++ filter_actions ev.filter b
]

unfoldable pub kqueue_loop : ℕ → ℕ → List KEvent → Option (List Action)
kqueue_loop zero i evs = some []
kqueue_loop (suc n) i evs =
    get_elem? evs i >>= λ ev. kqueue_loop n (suc i) evs >>= λ rest. some (kqueue_event ev ++ rest)

-- `result == -1` compares a uint32_t with -1, that is with 0xffffffff.
unfoldable pub poll_kqueue : ℤ → List KEvent → Option (Bool × List Action)
poll_kqueue returned evs =
    let result = u32_of_int returned in
    if result == u32_of_int (negsuc 0)
    then some (false, [])
    else (kqueue_loop result 0 evs >>= λ actions. some (true, actions))
