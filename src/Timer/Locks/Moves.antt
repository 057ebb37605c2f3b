-- ===== src/Timer/Locks/Moves.antt =====
-- What a statement of a thread does to the engine and to the thread.
use qing.Common.{count, ◌↔◌, true, List, ℕ, suc, ◌≡◌, refl, ◌≢◌, ◌⊎◌, Option, none, some, arith}
use qing.Common.OrdMap.{find}
use qing.Timer.Defs.{
  ETimer, Slot, TimerThread, table, Call, register, register_by_mil_sec, unregister,
}
use qing.Timer.Threads.{Request, calling, numbered, opened, inserted, returned}
use qing.Timer.ThreadSteps.{own, Fits}
use qing.Timer.Locks.{
  Act, registering, before_second, before_first, Frame, outside, locking, looping, calling_back,
  Runner, start, held, lock_of,
}
use qing.Timer.Deleted.{Settled}
use qing.Timer.Locks.Deeds.{Deed}
use qing.Timer.Locks.Deeds.{inserting}

-- The id that a call has taken, and 0 before.
abbrev pub id_of : Option Act → ℕ
id_of none = 0
id_of (some (registering p)) = own p
id_of (some (before_second k)) = 0
id_of (some (before_first k)) = 0

-- The id that the next statement of a call inserts, and 0 for none.
abbrev pub inserting_of : Option Act → ℕ
inserting_of none = 0
inserting_of (some (registering p)) = inserting p
inserting_of (some (before_second k)) = 0
inserting_of (some (before_first k)) = 0

-- The id that a call has taken and is yet to insert, and 0 for none.
abbrev pub awaited : Option Act → ℕ
awaited none = 0
awaited (some (registering (calling r))) = 0
awaited (some (registering (numbered r t))) = t.timer_id
awaited (some (registering (opened t))) = t.timer_id
awaited (some (registering (inserted t))) = 0
awaited (some (registering (returned t n))) = 0
awaited (some (before_second k)) = 0
awaited (some (before_first k)) = 0

-- What is 0, was there before, or is the next id.
abbrev pub IsNoneOr : ℕ → ℕ → TimerThread → Type 0
IsNoneOr k j e = (k ≡ j) ⊎ ((k ≡ 0) ⊎ (k ≡ suc e.cur_timer_id))

abbrev pub FitsAct : Option Act → TimerThread → Type 0
FitsAct none e = Unit {0}
FitsAct (some (registering p)) e = Fits p e
FitsAct (some (before_second k)) e = Unit {0}
FitsAct (some (before_first k)) e = Unit {0}

-- The node of a thread's iterator is in its map.
abbrev pub Stands : Frame → TimerThread → Type 0
Stands outside e = Unit {0}
Stands (locking s) e = Unit {0}
Stands (looping s none) e = Unit {0}
Stands (looping s (some k)) e = (t : ETimer) × (find k (table s e) ≡ some t)
Stands (calling_back s k cs) e = (t : ETimer) × (find k (table s e) ≡ some t)

pub Stands-remains :
    (f : Frame) (mine : Option Slot) (fresh : ℕ) (e e' : TimerThread)
    → Deed mine fresh e e'
    → ((s : Slot) → held f ≡ some s → mine ≢ some s)
    → Stands f e
    → Stands f e'
Stands-remains outside mine fresh e e' d ne st = tt
Stands-remains (locking s) mine fresh e e' d ne st = tt
Stands-remains (looping s none) mine fresh e e' d ne st = tt
Stands-remains (looping s (some k)) mine fresh e e' d ne (t, f) =
    let (u, g, _) = d.remains s k t (ne s refl) f in (u, g)
Stands-remains (calling_back s k cs) mine fresh e e' d ne (t, f) =
    let (u, g, _) = d.remains s k t (ne s refl) f in (u, g)

-- The thread is in the callback of the timer.
abbrev pub IsAt : Slot → ℕ → Frame → Type 0
IsAt s k f = (cs : List Call) × (f ≡ calling_back s k cs)

-- What a statement does to a timer of a map that runs once.
pub data Once (s : Slot) (k : ℕ) (f f' : Frame) (e e' : TimerThread) : Type 0 where
  stays :
      (u : ETimer)
      → find k (table s e') ≡ some u
      → u.run_once ≡ true
      → count k e'.fired ≡ count k e.fired
      → IsAt s k f ↔ IsAt s k f'
      → Once s k f f' e e'
  runs :
      (u : ETimer)
      → find k (table s e') ≡ some u
      → u.run_once ≡ true
      → count k e'.fired ≡ suc (count k e.fired)
      → f ≡ looping s (some k)
      → IsAt s k f'
      → Once s k f f' e e'
  ends : Settled k (count k e.fired) e' → Once s k f f' e e'

abbrev pub AllOnce : Frame → Frame → TimerThread → TimerThread → Type 0
AllOnce f f' e e' =
    (s : Slot) (k : ℕ) (t : ETimer)
    → find k (table s e) ≡ some t
    → t.run_once ≡ true
    → Once s k f f' e e'

-- The thread and the engine before and after.
pub record Moved (s : Slot) (r r' : Runner) (e e' : TimerThread) : Type 0 where
  pub deed : Deed (held r.frame) (inserting_of r.act) e e'
  pub fits : FitsAct r'.act e'
  pub id : IsNoneOr (id_of r'.act) (id_of r.act) e
  pub waits : IsNoneOr (awaited r'.act) (awaited r.act) e
  pub stands : Stands r'.frame e'
  pub once : AllOnce r.frame r'.frame e e'
  pub holds :
      (s' : Slot) → held r'.frame ≡ some s' → (held r.frame ≡ some s') ⊎ (lock_of s r ≡ some s')

pub start-id_of : (c : Call) → id_of (some (start c)) ≡ 0
unfolding start
start-id_of (register rounds once i fp) = refl
start-id_of (register_by_mil_sec rounds once i fp) = refl
start-id_of (unregister k) = refl

pub start-awaited : (c : Call) → awaited (some (start c)) ≡ 0
unfolding start
start-awaited (register rounds once i fp) = refl
start-awaited (register_by_mil_sec rounds once i fp) = refl
start-awaited (unregister k) = refl

calling-Fits : (r : Request) (e : TimerThread) → Fits (calling r) e
calling-Fits r e = record {
  old = omega arith;
  taken = λ q. cc;
  unused = λ q. cc;
  result = λ t n q. cc;
}

pub start-FitsAct : (c : Call) (e : TimerThread) → FitsAct (some (start c)) e
unfolding start
start-FitsAct (register rounds once i fp) e = calling-Fits _ e
start-FitsAct (register_by_mil_sec rounds once i fp) e = calling-Fits _ e
start-FitsAct (unregister k) e = tt
