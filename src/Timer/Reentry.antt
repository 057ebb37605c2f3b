-- ===== src/Timer/Reentry.antt =====
-- `Update` with callbacks that call `Update` too, as its recursive mutexes let them, in one thread:
-- src/util/time_engine.cpp.
use qing.Common.{ℕ, zero, suc, Option, none, some, List, [], ◌∷◌, leb, if◌then◌else◌}
use qing.Common.OrdMap.{find, erase, begin, next}
use qing.Timer.Clock.{get_interval_macro_secs}
use qing.Timer.Defs.{
  ETimer, Slot, slot1, slot2, TimerThread, table, over, Call, Host, get_clock, apply_call, rearm,
}

-- One thing that a callback does with the engine.
pub data Doing : Type 0 where
  calls : Call → Doing
  updates : Doing

-- How a run ends. `dangles`: it goes on with an iterator and a reference whose node is gone, which the
-- language does not define. `unfinished`: the fuel or the depth ran out, or a call still waits for a
-- lock.
pub data Outcome : Type 0 where
  ends dangles : TimerThread → Outcome
  unfinished : Outcome

abbrev pub outcome_of : Option TimerThread → Outcome
outcome_of none = unfinished
outcome_of (some e) = ends e

unfoldable pub and_then : Outcome → (TimerThread → Outcome) → Outcome
and_then (ends e) f = f e
and_then (dangles e) f = dangles e
and_then unfinished f = unfinished

-- `doings` says what a run of a callback does, as `Host.actions` says what it calls, and `inner` what
-- `Update` does when a callback calls it.
module _ (h : Host) (doings : ℕ → ℕ → List Doing) (inner : TimerThread → Outcome) where
  unfoldable pub do_one : Doing → TimerThread → Outcome
  do_one (calls c) e = outcome_of (apply_call h c e)
  do_one updates e = inner e

  unfoldable pub do_all : List Doing → TimerThread → Outcome
  do_all [] e = ends e
  do_all (d ∷ ds) e = and_then (do_one d e) (do_all ds)

  -- What follows `timer._fp();` writes through the reference and moves the iterator.
  unfoldable pub come_back : Slot → ℕ → TimerThread → Outcome
  come_back s k e = elim (find k (table s e)) [
    | none ↦ dangles e
    | some timer ↦ ends (rearm h s k timer e)
  ]

  -- The body of a loop of `Update` at the node of the key `k`.
  unfoldable pub node_in : Slot → ℕ → ETimer → TimerThread → Outcome
  unfolding get_clock
  node_in s k timer e =
      let (now_clock, e1) = get_clock h e in
      let due = leb timer.leftsecs (get_interval_macro_secs h.ticks now_clock timer.startclock) in
      if timer.need_delete
      then ends (over s (erase k) e)
      else (if due
          then and_then (do_all (doings timer.fp e1.reads) (record e1 { fired = k ∷ e1.fired }))
              (come_back s k)
          else ends e1)

  unfoldable pub visit_in : Slot → ℕ → TimerThread → Outcome
  visit_in s k e = elim (find k (table s e)) [ none ↦ dangles e | some timer ↦ node_in s k timer e ]

  unfoldable pub sweep_in : Slot → ℕ → Option ℕ → TimerThread → Outcome
  sweep_in s zero position e = unfinished
  sweep_in s (suc fuel) none e = ends e
  sweep_in s (suc fuel) (some k) e =
      and_then (visit_in s k e) (λ e'. sweep_in s fuel (next k (table s e')) e')

  unfoldable pub update_with : ℕ → TimerThread → Outcome
  update_with fuel e =
      and_then (sweep_in slot1 fuel (begin (table slot1 e)) e)
        (λ e1. sweep_in slot2 fuel (begin (table slot2 e1)) e1)

-- `Update`, with `depth` calls of it in one another at most.
unfoldable pub update_in : Host → (ℕ → ℕ → List Doing) → ℕ → ℕ → TimerThread → Outcome
update_in h doings zero fuel e = unfinished
update_in h doings (suc depth) fuel e = update_with h doings (update_in h doings depth fuel) fuel e
