-- ===== src/Net/Interest.antt =====
-- What a socket is registered for: `convertEventMask`, `add` and `modify` of `Poller`,
-- src/net/poller.cpp.
use Prim.Native.Nat.{bit_and, bit_or}
use qing.Common.{
  ℕ, not, Bool, true, false, Option, none, some, ◌==◌, if◌then◌else◌, ℤ, pos, negsuc, u16,
  u32_of_int,
}
use qing.Net.Poller.{EpollMasks, EpollEvent}

-- `IO_EVENT_TYPE`, one bit for each kind.
abbrev pub event_read : ℕ
event_read = 2

abbrev pub event_write : ℕ
event_write = 4

abbrev pub event_error : ℕ
event_error = 16

abbrev pub has : ℕ → ℕ → Bool
has e bit = not (bit_and e bit == 0)

-- The masks of sys/epoll.h that a registration uses.
pub record InterestMasks : Type 0 where
  pub calls : EpollMasks
  pub epollerr : ℕ
  pub epolloneshot : ℕ

-- `convertEventMask` on epoll.
unfoldable pub convert_event_mask : InterestMasks → ℕ → ℕ
convert_event_mask m e =
    let op1 = if has e event_read then bit_or 0 (bit_or m.calls.epollin m.epolloneshot) else 0 in
    let op2 =
      if has e event_write then bit_or op1 (bit_or m.calls.epollout m.epolloneshot) else op1 in
    if has e event_error then bit_or op2 m.epollerr else op2

-- The filters of sys/event.h, which are negative numbers.
pub record KqueueFilters : Type 0 where
  pub evfilt_read : ℤ
  pub evfilt_write : ℤ

-- `op |= EVFILT_…` of a uint16_t.
abbrev pub or_filter : ℕ → ℤ → ℕ
or_filter op filter = u16 (bit_or op (u32_of_int filter))

-- `convertEventMask` on kqueue.
unfoldable pub convert_event_filter : KqueueFilters → ℕ → ℕ
convert_event_filter m e =
    let op1 = if has e event_read then or_filter 0 m.evfilt_read else 0 in
    if has e event_write then or_filter op1 m.evfilt_write else op1

-- The `ev` that `add` hands to epoll_ctl: it asks for EVENT_READ, whatever `e` it is given.
unfoldable pub added_event : InterestMasks → ℕ → Option ℕ → EpollEvent
added_event m e ptr = record { ptr = ptr; events = convert_event_mask m event_read }

abbrev is_negative : ℤ → Bool
is_negative (pos n) = false
is_negative (negsuc n) = true

-- `modify` on epoll, by what epoll_ctl gives: what it returns, and the `ev` that it hands over.
unfoldable pub modify_epoll : InterestMasks → ℤ → ℕ → Option ℕ → Bool × EpollEvent
modify_epoll m result e ptr =
    (not (is_negative result), record { ptr = ptr; events = convert_event_mask m e })

-- A `struct kevent` that is handed over.
pub record Change : Type 0 where
  pub filter : ℕ
  pub udata : ℕ

-- What `modify` returns on kqueue, what it hands to `kevent`, and the handler whose current event
-- it sets.
pub record Modified : Type 0 where
  pub result : Bool
  pub change : Option Change
  pub current : Option (ℕ × ℕ)

-- `modify` on kqueue, by the handler that the socket manager has, if any, and what `kevent` gives.
unfoldable pub modify_kqueue : KqueueFilters → Option ℕ → ℤ → ℕ → Modified
modify_kqueue f none result e = record { result = false; change = none; current = none }
modify_kqueue f (some handler) result e =
    let change : Change = record { filter = convert_event_filter f e; udata = handler } in
    if is_negative result
    then record { result = false; change = some change; current = none }
    else record { result = true; change = some change; current = some (handler, e) }

-- `modify` on IOCP.
unfoldable pub modify_iocp : ℕ → Bool
modify_iocp e = true
