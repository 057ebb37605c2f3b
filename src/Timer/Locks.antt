-- ===== src/Timer/Locks.antt =====
-- The engine in several threads, lock by lock: `Update` node by node, and the calls that its
-- callbacks or other threads make statement by statement, src/util/time_engine.cpp. Callbacks call
-- `Register`, `RegisterByMilSec` and `UnRegister`; `Update` is begun by threads outside of it alone.
pub mod Alone
pub mod Awaited
pub mod Calls
pub mod Crossing
pub mod Deadlock
pub mod Deeds
pub mod Events
pub mod Frames
pub mod Iterators
pub mod Marked
pub mod Moves
pub mod Nodes
pub mod Onces
pub mod OneShot
pub mod Runners
pub mod Safe
pub mod Shots
pub mod Whole
mod Tests
mod OnceTests
mod CrossingTests
use qing.Common.{
  ℕ, ◌≡◌, ◌≢◌, Bool, false, Option, none, some, List, [], ◌∷◌, leb, if◌then◌else◌, ◌==◌,
}
use qing.Common.OrdMap.{find, erase, update, begin, next}
use qing.Timer.Clock.{get_interval_macro_secs}
use qing.Timer.Defs.{
  ETimer, Slot, slot1, slot2, TimerThread, table, over, marked, Call, register, register_by_mil_sec,
  unregister, Host, get_clock, rearm,
}
use qing.Timer.Threads.{Phase, calling, numbered, opened, inserted, returned, advance}

-- A call that a thread is in: a registration at one of its statements, or `UnRegister` before the
-- lock of `_timers2` or, after that, before the lock of `_timers1`.
data Act : Type 0 where
  registering : Phase → Act
  before_second before_first : ℕ → Act

-- Where a thread is in `Update`, which no callback calls again here (Reentry): not in it, before the lock of a map, in the loop with its
-- iterator's key, or in the callback of a node with the calls that this has left.
pub data Frame : Type 0 where
  outside : Frame
  locking : Slot → Frame
  looping : Slot → Option ℕ → Frame
  calling_back : Slot → ℕ → List Call → Frame

record Runner : Type 0 where
  frame : Frame
  act : Option Act

abbrev at_frame : Frame → Runner
at_frame f = record { frame = f; act = none }

-- The outcomes of `try_lock` that a call carries play no part here.
unfoldable start : Call → Act
start (register rounds once i fp) =
    registering
      (calling (record { in_milsec = false; run_once = once; interval_time = i; fp = fp }))
start (register_by_mil_sec rounds once i fp) =
    registering
      (calling (record { in_milsec = Bool.true; run_once = once; interval_time = i; fp = fp }))
start (unregister k) = before_second k

-- What a thread does next in a call. `s`: the map whose lock `Register(ETimer&)` gets.
unfoldable act_step : Host → Slot → Act → TimerThread → Option Act × TimerThread
act_step h s (registering (returned t id)) e = (none, e)
act_step h s (registering p) e = let (p', e') = advance h s p e in (some (registering p'), e')
act_step h s (before_second k) e = elim (find k e.timers2) [
  | some _ ↦ (none, over slot2 (update k marked) e)
  | none ↦ (some (before_first k), e)
]
act_step h s (before_first k) e = elim (find k e.timers1) [
  | some _ ↦ (none, over slot1 (update k marked) e)
  | none ↦ (none, e)
]

-- What follows the lock of a map.
unfoldable unlocked : Slot → Frame
unlocked slot1 = locking slot2
unlocked slot2 = outside

-- A loop's body up to the callback, at the node of the timer.
unfoldable look : Host → Slot → ℕ → ETimer → TimerThread → Runner × TimerThread
unfolding get_clock
look h s k timer e =
    let (now_clock, e1) = get_clock h e in
    let due = leb timer.leftsecs (get_interval_macro_secs h.ticks now_clock timer.startclock) in
    let erased = over s (erase k) e in
    if timer.need_delete
    then (at_frame (looping s (next k (table s erased))), erased)
    else (if due
        then (
          at_frame (calling_back s k (h.actions timer.fp e1.reads)),
          record e1 { fired = k ∷ e.fired },
        )
        else (at_frame (looping s (next k (table s e1))), e1))

-- What a thread that is in no call does next. No result: the iterator, or the reference to the
-- timer, dangles.
unfoldable frame_step : Host → Frame → TimerThread → Option (Runner × TimerThread)
frame_step h outside e = some (at_frame outside, e)
frame_step h (locking s) e = some (at_frame (looping s (begin (table s e))), e)
frame_step h (looping s none) e = some (at_frame (unlocked s), e)
frame_step h (looping s (some k)) e = elim (find k (table s e)) [
  | none ↦ none
  | some timer ↦ some (look h s k timer e)
]
frame_step h (calling_back s k (c ∷ cs)) e =
    some (record { frame = calling_back s k cs; act = some (start c) }, e)
frame_step h (calling_back s k []) e = elim (find k (table s e)) [
  | none ↦ none
  | some timer ↦
      let e' = rearm h s k timer e in some (at_frame (looping s (next k (table s e'))), e')
]

unfoldable runner_step : Host → Slot → Runner → TimerThread → Option (Runner × TimerThread)
runner_step h s r e = elim r.act [
  | some a ↦ let (a', e') = act_step h s a e in some (record { frame = r.frame; act = a' }, e')
  | none ↦ frame_step h r.frame e
]

-- The map whose mutex a thread holds from one statement to the next.
abbrev held : Frame → Option Slot
held outside = none
held (locking s) = none
held (looping s position) = some s
held (calling_back s k cs) = some s

-- The map whose mutex the next statement takes.
abbrev lock_of : Slot → Runner → Option Slot
lock_of s r = elim r.act [
  | some (registering (opened t)) ↦ some s
  | some (registering _) ↦ none
  | some (before_second k) ↦ some slot2
  | some (before_first k) ↦ some slot1
  | none ↦ elim r.frame [ locking s' ↦ some s' | _ ↦ none ]
]

-- The engine, and its threads by number.
record System : Type 0 where
  engine : TimerThread
  runners : ℕ → Runner

abbrev put : ℕ → Runner → (ℕ → Runner) → ℕ → Runner
put a r runners b = if b == a then r else runners b

-- No other thread holds the mutex that the next statement of `a` takes. (A mutex that is held within
-- one statement alone is free between the steps, and `try_lock` may fail at any time.)
abbrev MayStep : Slot → ℕ → System → Type 0
MayStep s a w =
    (s' : Slot) (b : ℕ)
    → lock_of s (w.runners a) ≡ some s'
    → b ≢ a
    → held (w.runners b).frame ≢ some s'

-- A thread goes on, calls the engine, or begins a pass.
data Step (h : Host) (w w' : System) : Type 0 where
  moves :
      (a : ℕ) (s : Slot) (r : Runner) (e' : TimerThread)
      → MayStep s a w
      → runner_step h s (w.runners a) w.engine ≡ some (r, e')
      → w' ≡ record { engine = e'; runners = put a r w.runners }
      → Step h w w'
  calls :
      (a : ℕ) (c : Call)
      → w.runners a ≡ at_frame outside
      → w'
        ≡ record w { runners = put a (record { frame = outside; act = some (start c) }) w.runners }
      → Step h w w'
  updates :
      (a : ℕ)
      → w.runners a ≡ at_frame outside
      → w' ≡ record w { runners = put a (at_frame (locking slot1)) w.runners }
      → Step h w w'

data Reach (h : Host) (w : System) : System → Type 0 where
  here : Reach h w w
  next_step : {w' w'' : System} → Reach h w w' → Step h w' w'' → Reach h w w''
