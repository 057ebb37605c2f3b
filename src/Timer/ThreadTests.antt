-- ===== src/Timer/ThreadTests.antt =====
-- Two threads that register, at concrete inputs.
use qing.Common.{
  ℕ, ◌*◌, ◌≤◌, ◌≡◌, refl, ◌≢◌, Bool, inl, inr, Bool-cases, ◌==◌, true, false, some, List, [], ◌∷◌,
  pos, arith,
}
use qing.Common.OrdMap.{find, update}
use qing.Timer.Defs.{ETimer, new_timer, slot2, over, Host, get_clock}
use qing.Timer.Valid.{IsValid}
use qing.Timer.History.{new_engine}
use qing.Timer.Threads.{
  Request, calling, numbered, opened, inserted, returned, open_request, advance, Threads, move,
  moves, Reach, here, next, Starts,
}
use qing.Timer.Race.{registrations_safe}
use qing.Timer.Overtake.{register_overtaken}

abbrev host : Host
host = record { clock = λ n. n * 1_000_000; ticks = 1_000_000; actions = λ fp n. [] }

abbrev seconds : Request
seconds = record { in_milsec = false; run_once = true; interval_time = pos 1; fp = 7 }

abbrev milliseconds : Request
milliseconds = record { in_milsec = true; run_once = false; interval_time = pos 2500; fp = 8 }

abbrev two_threads : Threads
two_threads = record {
  engine = new_engine;
  phases = (1, calling seconds) ∷ (2, calling milliseconds) ∷ [];
}

two_threads-Starts : Starts two_threads
unfolding find
two_threads-Starts = (
  refl,
  λ a p f. elim (Bool-cases (a == 1)) [
    | inl first ↦ (seconds, ground arith)
    | inr second ↦ (milliseconds, ground arith)
  ],
)

-- The rounds of a thread whose first `try_lock` of both meets other threads.
abbrev contended : List (Bool × Bool)
contended = (false, false) ∷ (false, true) ∷ []

register_overtaken_example :
    (w' : Threads) × (t : ETimer) × (u : ETimer) × (n : ℕ) × Reach host two_threads w'
    × (find 1 w'.phases ≡ some (returned t n))
    × (find 2 w'.phases ≡ some (returned u n))
    × (u.timer_id ≡ n)
    × (t.timer_id ≢ n)
unfolding find
register_overtaken_example =
    register_overtaken host slot2 1 2 seconds milliseconds two_threads (omega arith) refl refl

-- The first thread takes its id, the second takes the next, and the first goes on.
abbrev first_numbered : Threads
first_numbered = move host slot2 1 (calling seconds) two_threads

abbrev both_numbered : Threads
both_numbered = move host slot2 2 (calling milliseconds) first_numbered

abbrev first_opened : Threads
first_opened = move host slot2 1 (numbered seconds (new_timer true 1)) both_numbered

abbrev timer : ETimer
timer = open_request seconds (new_timer true 1) 0

abbrev first_inserted : Threads
first_inserted = move host slot2 1 (opened timer) first_opened

abbrev first_returned : Threads
first_returned = move host slot2 1 (inserted timer) first_inserted

first_returned-Reach : Reach host two_threads first_returned
unfolding find move advance new_timer update new_engine get_clock over
first_returned-Reach =
    next
      (next
        (next
          (next (next here (moves slot2 1 (calling seconds) refl refl))
            (moves slot2 2 (calling milliseconds) refl refl))
          (moves slot2 1 (numbered seconds (new_timer true 1)) refl refl))
        (moves slot2 1 (opened timer) refl refl))
      (moves slot2 1 (inserted timer) refl refl)

registrations_safe_example :
    IsValid first_returned.engine
    × ((a b : ℕ) (t u : ETimer) (n m : ℕ)
        → a ≢ b
        → find a first_returned.phases ≡ some (returned t n)
        → find b first_returned.phases ≡ some (returned u m)
        → t.timer_id ≢ u.timer_id)
    × ((a : ℕ) (t : ETimer) (n : ℕ)
        → find a first_returned.phases ≡ some (returned t n)
        → (t.timer_id ≤ n) × (n ≤ first_returned.engine.cur_timer_id))
registrations_safe_example = registrations_safe host two_threads-Starts first_returned-Reach
