-- ===== src/Net/Interests.antt =====
-- What a registered socket is called for.
use Prim.Native.Nat.{bit_or}
use mathlib.Core.Option
use qing.Common.{
  ℕ, ◌≡◌, refl, sym, ◌∙◌, ◌⊎◌, inl, inr, Bool, true, false, Option, some, [], ◌∷◌, arith,
  if◌then◌else◌, Bool-cases, ℤ, negsuc, ◌^◌,
}
use qing.Net.Poller.{on_read, on_write, EpollEvent, epoll_event}
use qing.Net.Interest.{
  event_read, event_write, event_error, has, InterestMasks, convert_event_mask, KqueueFilters,
  added_event, modify_epoll,
}

-- The values that Linux documents.
pub record IsLinux (m : InterestMasks) : Type 0 where
  pub epollin : m.calls.epollin ≡ 1
  pub epollout : m.calls.epollout ≡ 4
  pub epollerr : m.epollerr ≡ 8
  pub epolloneshot : m.epolloneshot ≡ 2 ^ 30

-- An event that epoll reports for a registration, as documented: it has the pointer that epoll_ctl
-- was given last, and EPOLLIN and EPOLLOUT only where they were asked for.
pub record Reports (m : InterestMasks) (registered ev : EpollEvent) : Type 0 where
  pub same_ptr : ev.ptr ≡ registered.ptr
  pub read : has ev.events m.calls.epollin ≡ true → has registered.events m.calls.epollin ≡ true
  pub write : has ev.events m.calls.epollout ≡ true → has registered.events m.calls.epollout ≡ true

-- The mask in Linux's numbers, by what is asked for.
abbrev linux_mask : Bool → Bool → Bool → ℕ
linux_mask r w x =
    let op1 = if r then bit_or 0 (bit_or 1 (2 ^ 30)) else 0 in
    let op2 = if w then bit_or op1 (bit_or 4 (2 ^ 30)) else op1 in if x then bit_or op2 8 else op2

linux_mask-has :
    (r w x : Bool)
    → (has (linux_mask r w x) 1 ≡ r)
      × (has (linux_mask r w x) 4 ≡ w)
      × (has (linux_mask r w x) (2 ^ 30) ≡ (if r then true else w))
linux_mask-has true true true = (refl, refl, refl)
linux_mask-has true true false = (refl, refl, refl)
linux_mask-has true false true = (refl, refl, refl)
linux_mask-has true false false = (refl, refl, refl)
linux_mask-has false true true = (refl, refl, refl)
linux_mask-has false true false = (refl, refl, refl)
linux_mask-has false false true = (refl, refl, refl)
linux_mask-has false false false = (refl, refl, refl)

module _ (m : InterestMasks) (linux : IsLinux m) where
  convert_event_mask-has :
      (e : ℕ)
      → (has (convert_event_mask m e) m.calls.epollin ≡ has e event_read)
        × (has (convert_event_mask m e) m.calls.epollout ≡ has e event_write)
        × (has (convert_event_mask m e) m.epolloneshot
            ≡ (if has e event_read then true else has e event_write))
  unfolding convert_event_mask
  convert_event_mask-has e =
      rw (linux.epollin, linux.epollout, linux.epollerr, linux.epolloneshot)
        (linux_mask-has (has e event_read) (has e event_write) (has e event_error))

  -- What `add` registers: EPOLLIN and EPOLLONESHOT, and not EPOLLOUT.
  pub read_interest :
      (has (convert_event_mask m event_read) m.calls.epollin ≡ true)
      × (has (convert_event_mask m event_read) m.calls.epollout ≡ false)
      × (has (convert_event_mask m event_read) m.epolloneshot ≡ true)
  read_interest = convert_event_mask-has event_read

  -- What `poll` calls for an event is among what its registration asks for.
  epoll_event-Reports :
      (b : ℕ) (registered ev : EpollEvent)
      → registered.ptr ≡ some b
      → Reports m registered ev
      → (epoll_event m.calls ev ≡ [])
        ⊎ (((epoll_event m.calls ev ≡ on_read b ∷ [])
              × (has registered.events m.calls.epollin ≡ true))
            ⊎ ((epoll_event m.calls ev ≡ on_write b ∷ [])
                × (has registered.events m.calls.epollout ≡ true)))
  unfolding epoll_event
  epoll_event-Reports b registered ev ptr reports =
      let same = reports.same_ptr ∙ ptr in
      elim (Bool-cases (has ev.events m.calls.epollin)) [
        | inl i ↦ inr (inl (ground arith, reports.read i))
        | inr n ↦ elim (Bool-cases (has ev.events m.calls.epollout)) [
          | inl i ↦ inr (inr (ground arith, reports.write i))
          | inr n' ↦ inl (ground arith)
        ]
      ]

  -- On Linux, for events that epoll reports of the socket `b`: after `modify` to `e`, `poll` calls
  -- it to read only if `e` has EVENT_READ, and to write only if it has EVENT_WRITE; after `add`,
  -- whatever events this was given, `poll` never calls it to write. The registration is for one
  -- event alone (EPOLLONESHOT), after `modify` if `e` has one of the two, and after `add` always.
  registered_calls :
      (e b : ℕ) (result : ℤ) (modified added : EpollEvent)
      → Reports m (modify_epoll m result e (some b)).1 modified
      → Reports m (added_event m e (some b)) added
      → ((epoll_event m.calls modified ≡ [])
          ⊎ (((epoll_event m.calls modified ≡ on_read b ∷ []) × (has e event_read ≡ true))
              ⊎ ((epoll_event m.calls modified ≡ on_write b ∷ []) × (has e event_write ≡ true))))
        × ((epoll_event m.calls added ≡ []) ⊎ (epoll_event m.calls added ≡ on_read b ∷ []))
        × (has (modify_epoll m result e (some b)).1.events m.epolloneshot
            ≡ (if has e event_read then true else has e event_write))
        × (has (added_event m e (some b)).events m.epolloneshot ≡ true)
  unfolding added_event modify_epoll
  registered_calls e b result modified added x y =
      let (r, w, o) = convert_event_mask-has e in
      let (_, w', o') = convert_event_mask-has event_read in
      (
        elim (epoll_event-Reports b (modify_epoll m result e (some b)).1 modified refl x) [
          | inl q ↦ inl q
          | inr (inl (q, i)) ↦ inr (inl (q, sym r ∙ i))
          | inr (inr (q, i)) ↦ inr (inr (q, sym w ∙ i))
        ],
        elim (epoll_event-Reports b (added_event m e (some b)) added refl y) [
          | inl q ↦ inl q
          | inr (inl (q, i)) ↦ inr q
          | inr (inr (q, i)) ↦ absurd (cc (sym w' ∙ i))
        ],
        o,
        o',
      )

-- The values of the BSDs.
pub record IsBsd (f : KqueueFilters) : Type 0 where
  pub evfilt_read : f.evfilt_read ≡ negsuc 0
  pub evfilt_write : f.evfilt_write ≡ negsuc 1
