-- ===== src/Net/Events.antt =====
-- The loops over the events of epoll and of kqueue.
use mathlib.Core.List.{append_assoc}
use qing.Common.{
  ℕ, zero, suc, ◌+◌, ◌-◌, ◌%◌, ◌^◌, ◌≤◌, ◌<◌, ◌≡◌, refl, Bool, true, false, none, some, List, [],
  ◌∷◌, ◌++◌, arith, length, length-append, get_elem?, pos, negsuc, u32_of_int, ◌==◌, ◌⊎◌, inl, inr,
}
use qing.Net.Poller.{
  Action, EpollEvent, EpollMasks, epoll_event, epoll_loop, poll_epoll, KEvent, kqueue_event,
  kqueue_loop, poll_kqueue,
}

module _ {ℓ} {A : Type ℓ} where
  get_elem?-append : (xs ys : List A) (y : A) → get_elem? (xs ++ y ∷ ys) (length xs) ≡ some y
  get_elem?-append [] ys y = refl
  get_elem?-append (x ∷ xs) ys y = get_elem?-append xs ys y

  get_elem?-cases :
      (xs : List A) (i : ℕ)
      → i ≤ length xs
      → (get_elem? xs i ≡ none) ⊎ ((x : A) × (get_elem? xs i ≡ some x) × (suc i ≤ length xs))
  get_elem?-cases [] i h = inl refl
  get_elem?-cases (x ∷ xs) zero h = inr (x, refl, omega arith)
  get_elem?-cases (x ∷ xs) (suc i) h = elim (get_elem?-cases xs i (omega arith)) [
    | inl e ↦ inl e
    | inr (y, e, lt) ↦ inr (y, e, omega arith)
  ]

-- The calls of some events, in order.
abbrev pub epoll_actions : EpollMasks → List EpollEvent → List Action
epoll_actions m [] = []
epoll_actions m (ev ∷ evs) = epoll_event m ev ++ epoll_actions m evs

abbrev pub kqueue_actions : List KEvent → List Action
kqueue_actions [] = []
kqueue_actions (ev ∷ evs) = kqueue_event ev ++ kqueue_actions evs

module _ (m : EpollMasks) where
  epoll_loop_lem :
      (before reported stale : List EpollEvent)
      → epoll_loop m (length reported) (length before) (before ++ (reported ++ stale))
        ≡ some (epoll_actions m reported)
  unfolding epoll_loop
  epoll_loop_lem before [] stale = refl
  epoll_loop_lem before (ev ∷ reported) stale =
      let one : length (before ++ ev ∷ []) ≡ suc (length before) =
        omega (arith, length-append before (ev ∷ [])) in
      let rest =
        rw (append_assoc before (ev ∷ []) (reported ++ stale), one) at
          (epoll_loop_lem (before ++ ev ∷ []) reported stale) in
      rw (get_elem?-append before (reported ++ stale) ev, rest)

  epoll_loop_beyond :
      (n i : ℕ) (evs : List EpollEvent)
      → i ≤ length evs
      → length evs < i + n
      → epoll_loop m n i evs ≡ none
  unfolding epoll_loop
  epoll_loop_beyond zero i evs h h' = absurd (omega arith)
  epoll_loop_beyond (suc n) i evs h h' = elim (get_elem?-cases evs i h) [
    | inl e ↦ rw e
    | inr (ev, e, lt) ↦ rw (e, epoll_loop_beyond n (suc i) evs lt (omega arith))
  ]

  pub poll_epoll_calls :
      (reported stale : List EpollEvent) (interrupted : Bool)
      → length reported < 2 ^ 32
      → poll_epoll m (pos (length reported)) interrupted (reported ++ stale)
        ≡ some (true, epoll_actions m reported)
  unfolding poll_epoll
  poll_epoll_calls reported stale interrupted h =
      let e : length reported % 2 ^ 32 ≡ length reported = omega arith in
      rw (e, epoll_loop_lem [] reported stale) (ground arith)

  poll_epoll_error :
      (interrupted : Bool) (evs : List EpollEvent)
      → length evs ≤ 256
      → poll_epoll m (negsuc 0) interrupted evs ≡ none
  unfolding poll_epoll
  poll_epoll_error interrupted evs h =
      rw (epoll_loop_beyond (2 ^ 32 - 1) 0 evs (omega arith) (omega arith))

  -- `poll` on epoll makes the calls of the events that were reported, fewer than 2 ^ 32, in their
  -- order, and returns true, and the entries behind them play no part; but when `epoll_wait` fails,
  -- on EINTR or not, it returns neither true nor false: it reads past the end of the array, which
  -- has 256 entries at most.
  pub poll_epoll_lem :
      (reported stale array : List EpollEvent) (interrupted failed_interrupted : Bool)
      → length reported < 2 ^ 32
      → length array ≤ 256
      → (poll_epoll m (pos (length reported)) interrupted (reported ++ stale)
          ≡ some (true, epoll_actions m reported))
        × (poll_epoll m (negsuc 0) failed_interrupted array ≡ none)
  poll_epoll_lem reported stale array interrupted failed_interrupted h h' =
      (poll_epoll_calls reported stale interrupted h, poll_epoll_error failed_interrupted array h')

kqueue_loop_lem :
    (before reported stale : List KEvent)
    → kqueue_loop (length reported) (length before) (before ++ (reported ++ stale))
      ≡ some (kqueue_actions reported)
unfolding kqueue_loop
kqueue_loop_lem before [] stale = refl
kqueue_loop_lem before (ev ∷ reported) stale =
    let one : length (before ++ ev ∷ []) ≡ suc (length before) =
      omega (arith, length-append before (ev ∷ [])) in
    let rest =
      rw (append_assoc before (ev ∷ []) (reported ++ stale), one) at
        (kqueue_loop_lem (before ++ ev ∷ []) reported stale) in
    rw (get_elem?-append before (reported ++ stale) ev, rest)

-- `poll` on kqueue makes the calls of the events that were reported, fewer than 2 ^ 31, in their
-- order, and returns true; if `kevent` fails, it makes none and returns false.
pub poll_kqueue_lem :
    (reported stale : List KEvent)
    → length reported < 2 ^ 31
    → (poll_kqueue (pos (length reported)) (reported ++ stale)
        ≡ some (true, kqueue_actions reported))
      × (poll_kqueue (negsuc 0) (reported ++ stale) ≡ some (false, []))
unfolding poll_kqueue
poll_kqueue_lem reported stale h =
    let e : length reported % 2 ^ 32 ≡ length reported = omega arith in
    let other : (length reported == u32_of_int (negsuc 0)) ≡ false = ground arith in
    (rw (e, other, kqueue_loop_lem [] reported stale), refl)
