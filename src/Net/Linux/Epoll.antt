-- ===== src/Net/Linux/Epoll.antt =====
-- epoll as an interface: what the code takes from it, and what its documentation says.
use qing.Common.{
  ℕ, ◌+◌, ◌≤◌, ◌⊎◌, ◌≡◌, ◌≢◌, Bool, true, false, Option, none, some, List, [], ◌∷◌, ◌==◌,
  if◌then◌else◌, ◌&&◌, length,
}
use qing.Net.Poller.{EpollEvent}
use qing.Net.Interest.{InterestMasks, has}

-- How often a pointer is reported.
abbrev is_ptr : ℕ → Option ℕ → Bool
is_ptr b none = false
is_ptr b (some c) = b == c

abbrev pub reports : ℕ → List EpollEvent → ℕ
reports b [] = 0
reports b (ev ∷ evs) = (if is_ptr b ev.ptr then 1 else 0) + reports b evs

-- Every event is of a pointer with an interest, and can be read or written only if this asks for it.
abbrev pub AllAsked : InterestMasks → (ℕ → ℕ) → List EpollEvent → Type 0
AllAsked m interest [] = Unit {0}
AllAsked m interest (ev ∷ evs) =
    ((b : ℕ) × (ev.ptr ≡ some b)
      × (interest b ≢ 0)
      × (has ev.events m.calls.epollin ≡ true → has (interest b) m.calls.epollin ≡ true)
      × (has ev.events m.calls.epollout ≡ true → has (interest b) m.calls.epollout ≡ true))
    × AllAsked m interest evs

-- An epoll instance, with what the documentation of epoll says of it, as long as `epoll_wait` does
-- not fail. `interest` is the mask that a pointer is registered with, 0 for none; the number that
-- `wait` takes is what happens outside. An interest ends when the descriptor is closed, and when it
-- has EPOLLONESHOT and was reported; nothing but epoll_ctl makes one.
pub record Epoll (m : InterestMasks) : Type 1 where
  pub Kernel : Type 0
  pub interest : Kernel → ℕ → ℕ
  pub created : Kernel
  pub ctl_add : EpollEvent → Kernel → Bool × Kernel
  pub wait : ℕ → Kernel → List EpollEvent × Kernel
  pub created_empty : (b : ℕ) → interest created b ≡ 0
  pub ctl_add_interest :
      (b c mask : ℕ) (k : Kernel)
      → let (added, k') = ctl_add (record { ptr = some b; events = mask }) k in
        interest k' c ≡ (if added && c == b then mask else interest k c)
  pub wait_length : (n : ℕ) (k : Kernel) → length (wait n k).0 ≤ 256
  pub wait_asked : (n : ℕ) (k : Kernel) → AllAsked m (interest k) (wait n k).0
  pub wait_once : (n b : ℕ) (k : Kernel) → reports b (wait n k).0 ≤ 1
  pub wait_interest :
      (n b : ℕ) (k : Kernel)
      → (interest (wait n k).1 b ≡ 0)
        ⊎ ((interest (wait n k).1 b ≡ interest k b)
            × ((reports b (wait n k).0 ≡ 0) ⊎ (has (interest k b) m.epolloneshot ≡ false)))
