-- ===== src/Tasks/Tests.antt =====
-- Tasks at concrete inputs.
use qing.Common.{◌+◌, ◌≤◌, ◌≡◌, refl, true, false, none, some, List, [], ◌∷◌, ◌++◌, count, length}
use qing.Tasks.{
  Sleeper, Tasks, caller_sleeps, create_task, pick, wake, Event, creates, wakes, passes, happen,
  history,
}
use qing.Tasks.Sleepers.{tasks, callers, sleepers}
use qing.Tasks.Kept.{created, called, InTime, create_task_lem}

abbrev nothing_yet : Tasks
nothing_yet = record { now = 1000; sleeping = []; ran = [] }

-- The task 7 in a thread of its own, then the task 8 in the caller's.
abbrev two_calls : List Event
two_calls = creates 50 true 7 ∷ creates 20 false 8 ∷ passes 30 ∷ wakes 0 ∷ passes 30 ∷ wakes 0 ∷ []

abbrev in_thread : Sleeper
in_thread = record { called_at = 1000; after = 50; task = 7; is_caller = false }

abbrev in_caller : Sleeper
in_caller = record { called_at = 1000; after = 20; task = 8; is_caller = true }

abbrev both : Tasks
both = record { now = 1060; sleeping = []; ran = (1060, in_thread) ∷ (1030, in_caller) ∷ [] }

history-two_calls : history two_calls nothing_yet ≡ some both
unfolding history happen create_task wake pick caller_sleeps
history-two_calls = refl

-- The caller cannot call while it sleeps.
history-busy : history (creates 20 false 8 ∷ creates 0 true 9 ∷ []) nothing_yet ≡ none
unfolding history happen create_task caller_sleeps
history-busy = refl

create_task_lem_example :
    (count 7 (tasks (sleepers both.ran)) + count 7 (tasks both.sleeping)
      ≡ count 7 (created two_calls))
    × InTime both.ran
    × (callers both.sleeping ++ callers (sleepers both.ran) ≡ called two_calls [])
    × (length (callers both.sleeping) ≤ 1)
create_task_lem_example = create_task_lem two_calls 1000 7 both history-two_calls
