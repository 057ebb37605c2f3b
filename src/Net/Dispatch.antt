-- ===== src/Net/Dispatch.antt =====
-- What `poll` dispatches, and to whom.
use qing.Common.{
  ℕ, ◌≡◌, refl, Bool, true, Option, none, some, List, [], ◌∷◌, arith, ℤ, Option-cases, inl, inr,
}
use qing.Common.OrdMap.{
  insert_present, find, insert, IsSorted, insert-IsSorted, update-IsSorted, find-insert_self,
  find-update_self,
}
use qing.Net.Poller.{
  IoType, handle_accept, handle_read, handle_write, handle_complete, Action, on_read, on_write,
  Poller, pool_at, pool_set, add, remove, remove_result, IoData, dispatch, poll_complete, poll_iocp,
}

-- The pool's keys are in order: a fact of its representation, which every operation keeps.
abbrev pub IsPool : Poller → Type 0
IsPool p = IsSorted 0 p.socket_pool

-- The null pointer.
abbrev no_ptr : Option ℕ
no_ptr = none

pub pool_set-IsPool :
    (socket : ℕ) (ptr : Option ℕ) (p : Poller) → IsPool p → IsPool (pool_set socket ptr p)
unfolding pool_set
pool_set-IsPool socket ptr p s =
    update-IsSorted 0 socket (λ _. ptr) (insert socket none p.socket_pool)
      (insert-IsSorted 0 socket none p.socket_pool (omega arith) s)

pub find-pool_set :
    (socket : ℕ) (ptr : Option ℕ) (p : Poller)
    → IsPool p
    → find socket (pool_set socket ptr p).socket_pool ≡ some ptr
unfolding pool_set
find-pool_set socket ptr p s = elim (Option-cases (find socket p.socket_pool)) [
  | inl e ↦ ground (
    arith,
    find-update_self socket (λ (x : Option ℕ). ptr) (insert socket none p.socket_pool),
    find-insert_self 0 socket no_ptr p.socket_pool s e,
  )
  | inr (x, e) ↦ ground (
    arith,
    find-update_self socket (λ (x : Option ℕ). ptr) (insert socket none p.socket_pool),
    insert_present 0 socket none x p.socket_pool s e,
  )
]

-- A look at a socket that the pool has changes nothing.
pool_at-present :
    (socket : ℕ) (ptr : Option ℕ) (p : Poller)
    → IsPool p
    → find socket p.socket_pool ≡ some ptr
    → pool_at socket p ≡ (ptr, p)
unfolding pool_at
pool_at-present socket ptr p s e =
    ground (arith, insert_present 0 socket none ptr p.socket_pool s e)

-- The call that an operation's completion stands for.
abbrev pub call_of : IoType → ℕ → List Action
call_of handle_accept b = on_read b ∷ []
call_of handle_read b = on_read b ∷ []
call_of handle_write b = on_write b ∷ []
call_of handle_complete b = []

poll_complete-present :
    (io : IoData) (b : ℕ) (p : Poller)
    → IsPool p
    → find io.socket p.socket_pool ≡ some (some b)
    → poll_complete io p ≡ some (record { result = true; actions = call_of io.io_type b; pool = p })
unfolding poll_complete dispatch
poll_complete-present io b p s e = ground (arith, pool_at-present io.socket (some b) p s e)

-- On IOCP, with the pool's keys in order, a completion for a socket that was added calls the
-- handler of that socket, of the operation's kind, returns true and leaves the pool alone; also if
-- the socket was removed between, whatever `remove` was told.
pub poll_iocp_calls :
    (accepted ret : Bool) (told : Option ℤ) (io : IoData) (b : ℕ) (p : Poller)
    → IsPool p
    → let p1 = (add accepted io.socket (some b) p).1 in
      let p2 = (remove told p1).1 in
      (poll_iocp (record { ret = ret; overlapped = some io }) p1
        ≡ some (record { result = true; actions = call_of io.io_type b; pool = p1 }))
      × (poll_iocp (record { ret = ret; overlapped = some io }) p2
          ≡ some (record { result = true; actions = call_of io.io_type b; pool = p1 }))
unfolding add remove poll_iocp
poll_iocp_calls accepted ret told io b p s =
    let p1 = pool_set io.socket (some b) p in
    let done =
      poll_complete-present io b p1 (pool_set-IsPool io.socket (some b) p s)
        (find-pool_set io.socket (some b) p s) in
    (
      done,
      elim told
          as (λ t.
            poll_iocp (record { ret = ret; overlapped = some io }) (remove t p1).1
            ≡ some (record { result = true; actions = call_of io.io_type b; pool = p1 })) [
              | none ↦ done
              | some r ↦ done
            ],
    )

-- Neither epoll_ctl's nor kevent's failure shows in what `remove` returns.
pub remove_always_true : (told : Option ℤ) (p : Poller) → remove told p ≡ (true, p)
unfolding remove remove_result
remove_always_true none p = refl
remove_always_true (some result) p = ground arith
