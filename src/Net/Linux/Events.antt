-- ===== src/Net/Linux/Events.antt =====
-- The events of registered pointers, and the calls that they make.
use qing.Common.{
  ℕ, ◌+◌, ◌≤◌, ◌≡◌, ◌≢◌, refl, inl, inr, true, false, some, List, [], ◌∷◌, ◌++◌, ◌==◌, ==_iff,
  Bool-cases, arith,
}
use qing.Net.Poller.{Action, on_read, on_write, EpollEvent, epoll_event}
use qing.Net.Events.{epoll_actions}
use qing.Net.Interest.{InterestMasks, has}
use qing.Net.Objects.{Among, AllAmong}
use qing.Net.Linux.Epoll.{reports, AllAsked}
use qing.Net.Linux.Serve.{calls_of, AllReads}

-- The calls of a list of events, by the object.
pub calls_of-append :
    (b : ℕ) (xs ys : List Action) → calls_of b (xs ++ ys) ≡ calls_of b xs + calls_of b ys
calls_of-append b [] ys = omega arith
calls_of-append b (on_read c ∷ xs) ys = ground (arith, calls_of-append b xs ys)
calls_of-append b (on_write c ∷ xs) ys = ground (arith, calls_of-append b xs ys)

pub AllReads-append : (xs ys : List Action) → AllReads xs → AllReads ys → AllReads (xs ++ ys)
AllReads-append [] ys p q = q
AllReads-append (on_read c ∷ xs) ys p q = AllReads-append xs ys p q
AllReads-append (on_write c ∷ xs) ys p q = absurd p

module _ (m : InterestMasks) where
  calls_of-event :
      (b : ℕ) (ev : EpollEvent) → calls_of b (epoll_event m.calls ev) ≤ reports b (ev ∷ [])
  unfolding epoll_event
  calls_of-event b ev = ground arith

  pub calls_of-epoll_actions :
      (b : ℕ) (evs : List EpollEvent) → calls_of b (epoll_actions m.calls evs) ≤ reports b evs
  calls_of-epoll_actions b [] = omega arith
  calls_of-epoll_actions b (ev ∷ evs) = omega (
    arith,
    calls_of-append b (epoll_event m.calls ev) (epoll_actions m.calls evs),
    calls_of-event b ev,
    calls_of-epoll_actions b evs,
  )

  -- Events of pointers that are registered as `add` registers them make calls to read only.
  epoll_event-AllReads :
      (interest : ℕ → ℕ) (b : ℕ) (ev : EpollEvent)
      → ev.ptr ≡ some b
      → (has ev.events m.calls.epollout ≡ true → has (interest b) m.calls.epollout ≡ true)
      → has (interest b) m.calls.epollout ≡ false
      → AllReads (epoll_event m.calls ev)
  unfolding epoll_event
  epoll_event-AllReads interest b ev ptr asked out =
      elim (Bool-cases (has ev.events m.calls.epollin)) [
        | inl i ↦ rw (ptr, i) tt
        | inr n ↦ elim (Bool-cases (has ev.events m.calls.epollout)) [
          | inl i ↦ cc (asked i)
          | inr n' ↦ rw (ptr, n, n') tt
        ]
      ]

  pub epoll_actions-AllReads :
      (interest : ℕ → ℕ) (evs : List EpollEvent)
      → ((b : ℕ) → interest b ≢ 0 → has (interest b) m.calls.epollout ≡ false)
      → AllAsked m interest evs
      → AllReads (epoll_actions m.calls evs)
  epoll_actions-AllReads interest [] out x = tt
  epoll_actions-AllReads interest (ev ∷ evs) out ((b, ptr, on, _, asked), xs) =
      AllReads-append (epoll_event m.calls ev) (epoll_actions m.calls evs)
        (epoll_event-AllReads interest b ev ptr asked (out b on))
        (epoll_actions-AllReads interest evs out xs)

  pub AllAsked-AllAmong :
      (interest : ℕ → ℕ) (watched : List ℕ) (evs : List EpollEvent)
      → ((b : ℕ) → interest b ≢ 0 → Among b watched)
      → AllAsked m interest evs
      → AllAmong watched evs
  AllAsked-AllAmong interest watched [] known x = tt
  AllAsked-AllAmong interest watched (ev ∷ evs) known ((b, ptr, on, _, _), xs) =
      ((b, ptr, known b on), AllAsked-AllAmong interest watched evs known xs)

  -- A pointer without an interest is not reported.
  pub unasked-reports :
      (interest : ℕ → ℕ) (b : ℕ) (evs : List EpollEvent)
      → interest b ≡ 0
      → AllAsked m interest evs
      → reports b evs ≡ 0
  unasked-reports interest b [] off x = refl
  unasked-reports interest b (ev ∷ evs) off ((c, ptr, on, _, _), xs) = elim (Bool-cases (b == c)) [
    | inl same ↦ absurd (on (rw (← (==_iff b c).0 same) off))
    | inr other ↦ rw (ptr, other) (omega (arith, unasked-reports interest b evs off xs))
  ]
