-- ===== src/Tasks.antt =====
-- `Timer::createTask` of include/qing/util/timer.hpp.
pub mod Kept
pub mod Sleepers
mod Tests
use qing.Common.{
  ℕ, zero, suc, ◌+◌, Bool, true, false, not, Option, none, some, List, [], ◌∷◌, leb, if◌then◌else◌,
  ◌>>=◌,
}

-- A thread that sleeps before its task: when the call was, for how many milliseconds it sleeps, the
-- name of the task, and whether the thread is the caller itself.
record Sleeper : Type 0 where
  called_at : ℕ
  after : ℕ
  task : ℕ
  is_caller : Bool

-- The clock in milliseconds, the threads that sleep, and the tasks that were run with the time of
-- each, newest first. There is one caller.
record Tasks : Type 0 where
  now : ℕ
  sleeping : List Sleeper
  ran : List (ℕ × Sleeper)

-- The caller sleeps in a call that is not `async`.
unfoldable caller_sleeps : List Sleeper → Bool
caller_sleeps [] = false
caller_sleeps (s ∷ rest) = let below = caller_sleeps rest in if s.is_caller then true else below

-- The call up to the sleep. No result: the caller is in a call already.
unfoldable create_task : ℕ → Bool → ℕ → Tasks → Option Tasks
create_task after is_async task w =
    if caller_sleeps w.sleeping
    then none
    else some (record w {
      sleeping =
          record { called_at = w.now; after = after; task = task; is_caller = not is_async }
          ∷ w.sleeping;
    })

-- The thread at a place of the list, and the others.
unfoldable pick : ℕ → List Sleeper → Option (Sleeper × List Sleeper)
pick i [] = none
pick zero (s ∷ rest) = some (s, rest)
pick (suc i) (x ∷ rest) = pick i rest >>= λ (s, others). some (s, x ∷ others)

-- A thread whose time has come runs its task: `sleep_for` sleeps as long as it is told, or longer.
unfoldable wake : ℕ → Tasks → Option Tasks
wake i w = pick i w.sleeping >>= λ (s, others).
    (if leb (s.called_at + s.after) w.now
      then some (record w { sleeping = others; ran = (w.now, s) ∷ w.ran })
      else none)

data Event : Type 0 where
  creates : ℕ → Bool → ℕ → Event
  wakes passes : ℕ → Event

unfoldable happen : Event → Tasks → Option Tasks
happen (creates after is_async task) w = create_task after is_async task w
happen (wakes i) w = wake i w
happen (passes milliseconds) w = some (record w { now = w.now + milliseconds })

unfoldable history : List Event → Tasks → Option Tasks
history [] w = some w
history (x ∷ xs) w = happen x w >>= history xs
