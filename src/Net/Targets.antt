-- ===== src/Net/Targets.antt =====
-- The objects that the events of a poll name.
use Prim.Native.Nat.{bit_and}
use qing.Common.{ℕ, ◌≡◌, ◌⊎◌, inl, inr, not, some, List, [], ◌∷◌, ◌++◌, ◌==◌, Bool-cases, arith}
use qing.Net.Poller.{Action, on_read, on_write, EpollMasks, EpollEvent, epoll_event}
use qing.Net.Events.{epoll_actions}
use qing.Net.Socket.{TcpSocket}
use qing.Net.Objects.{Among, Stands, AllAmong, AllStand, target}

-- The calls are of pointers that the system was handed.
abbrev pub AllTargets : List ℕ → List Action → Type 0
AllTargets watched [] = Unit {0}
AllTargets watched (a ∷ actions) = Among (target a) watched × AllTargets watched actions

AllTargets-append :
    (watched : List ℕ) (xs ys : List Action)
    → AllTargets watched xs
    → AllTargets watched ys
    → AllTargets watched (xs ++ ys)
AllTargets-append watched [] ys p q = q
AllTargets-append watched (a ∷ xs) ys (p, ps) q = (p, AllTargets-append watched xs ys ps q)

pub AllTargets-AllStand :
    (watched : List ℕ) (m : List (ℕ × TcpSocket)) (actions : List Action)
    → ((b : ℕ) → Among b watched → Stands b m)
    → AllTargets watched actions
    → AllStand actions m
AllTargets-AllStand watched m [] there x = tt
AllTargets-AllStand watched m (a ∷ actions) there (x, xs) =
    (there (target a) x, AllTargets-AllStand watched m actions there xs)

epoll_event-cases :
    (masks : EpollMasks) (ev : EpollEvent) (b : ℕ)
    → ev.ptr ≡ some b
    → (epoll_event masks ev ≡ [])
      ⊎ ((epoll_event masks ev ≡ on_read b ∷ []) ⊎ (epoll_event masks ev ≡ on_write b ∷ []))
unfolding epoll_event
epoll_event-cases masks ev b ptr = elim (Bool-cases (not (bit_and ev.events masks.epollin == 0))) [
  | inl reads ↦ inr (inl (ground arith))
  | inr other ↦ elim (Bool-cases (not (bit_and ev.events masks.epollout == 0))) [
    | inl writes ↦ inr (inr (ground arith))
    | inr neither ↦ inl (ground arith)
  ]
]

pub epoll_actions-AllTargets :
    (masks : EpollMasks) (watched : List ℕ) (evs : List EpollEvent)
    → AllAmong watched evs
    → AllTargets watched (epoll_actions masks evs)
epoll_actions-AllTargets masks watched [] x = tt
epoll_actions-AllTargets masks watched (ev ∷ evs) ((b, ptr, among), xs) =
    AllTargets-append watched (epoll_event masks ev) (epoll_actions masks evs)
      (elim (epoll_event-cases masks ev b ptr) [
        | inl p ↦ rw p tt
        | inr (inl p) ↦ rw p (among, tt)
        | inr (inr p) ↦ rw p (among, tt)
      ])
      (epoll_actions-AllTargets masks watched evs xs)
