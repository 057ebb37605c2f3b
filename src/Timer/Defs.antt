-- ===== src/Timer/Defs.antt =====
-- `ETimer` and `TimerThread`: the state, registration, and the sweep of `Update`.
use qing.Common.{
  ℕ, zero, suc, ◌*◌, Bool, true, false, Option, none, some, List, [], ◌∷◌, leb, if◌then◌else◌,
  ◌>>=◌, ℤ, u32_of_int, u64,
}
use qing.Common.OrdMap.{find, insert, erase, update, begin, next}
use qing.Timer.Clock.{get_interval_macro_secs}

-- `_fp` is the name of a callback: what it does with the engine is the host's `actions`.
-- `_args` and `_callback` are used by nothing.
pub record ETimer : Type 0 where
  pub interval : ℕ
  pub leftsecs : ℕ
  pub startclock : ℕ
  pub timer_id : ℕ
  pub run_once : Bool
  pub need_delete : Bool
  pub fp : ℕ

-- `ETimer timer;` with its id and flag set. The other fields hold garbage until `open_*`.
unfoldable pub new_timer : Bool → ℕ → ETimer
new_timer run_once id = record {
  interval = 0;
  leftsecs = 0;
  startclock = 0;
  timer_id = id;
  run_once = run_once;
  need_delete = false;
  fp = 0;
}

unfoldable pub open_sec : ETimer → ℕ → ℕ → ℕ → ETimer
open_sec timer interval_sec fp now_clock =
    let interval = u64 (interval_sec * 1_000_000) in
    record timer { interval = interval; leftsecs = interval; startclock = now_clock; fp = fp }

unfoldable pub open_milsec : ETimer → ℕ → ℕ → ℕ → ETimer
open_milsec timer interval_milsec fp now_clock =
    let interval = u64 (interval_milsec * 1000) in
    record timer { interval = interval; leftsecs = interval; startclock = now_clock; fp = fp }

-- Which of `_timers1` and `_timers2`.
pub data Slot : Type 0 where
  slot1 slot2 : Slot

-- `TimerThread`. `reads` counts the calls of `get_clock`, and `fired` is the log of the ids whose
-- callback has run, newest first: neither is a member of the class. `_cur_timer_id` stays below
-- 2 ^ 31 in any run that the source defines.
pub record TimerThread : Type 0 where
  pub timers1 : List (ℕ × ETimer)
  pub timers2 : List (ℕ × ETimer)
  pub cur_timer_id : ℕ
  pub reads : ℕ
  pub fired : List ℕ

unfoldable pub table : Slot → TimerThread → List (ℕ × ETimer)
table slot1 e = e.timers1
table slot2 e = e.timers2

unfoldable pub over : Slot → (List (ℕ × ETimer) → List (ℕ × ETimer)) → TimerThread → TimerThread
over slot1 f e = record e { timers1 = f e.timers1 }
over slot2 f e = record e { timers2 = f e.timers2 }

-- A call of the engine that a callback or another caller makes, but `Update` (Reentry has the
-- callbacks that make that one too). A registration carries the outcomes that its `try_lock` calls
-- meet: of `_timers2_mutex` and, where that failed, of `_timers1_mutex`, one pair for each round.
pub data Call : Type 0 where
  register : List (Bool × Bool) → Bool → ℤ → ℕ → Call
  register_by_mil_sec : List (Bool × Bool) → Bool → ℤ → ℕ → Call
  unregister : ℕ → Call

-- What the engine takes from outside: the readings of its clock, the clock's frequency, and the
-- calls that a run of a callback makes, by the callback and by the number of the clock's readings
-- before the run, which no other run has. A callback that calls `Update`, as the recursive mutexes
-- let it, has no host here.
pub record Host : Type 0 where
  pub clock : ℕ → ℕ
  pub ticks : ℕ
  pub actions : ℕ → ℕ → List Call

-- The loop of `Register(ETimer&)`. `none`: no lock was had in the rounds given.
unfoldable pub spin : List (Bool × Bool) → Option Slot
spin [] = none
spin ((free2, free1) ∷ rounds) =
    let rest = spin rounds in if free2 then some slot2 else (if free1 then some slot1 else rest)

unfoldable pub register_timer : List (Bool × Bool) → ETimer → TimerThread → Option TimerThread
register_timer rounds timer e = spin rounds >>= λ s. some (over s (insert timer.timer_id timer) e)

-- `it->second.need_delete = true`.
abbrev pub marked : ETimer → ETimer
marked timer = record timer { need_delete = true }

-- `_leftsecs = _interval; _startclock = get_clock();`.
abbrev pub restarted : ℕ → ETimer → ETimer
restarted now_clock timer = record timer { leftsecs = timer.interval; startclock = now_clock }

unfoldable pub unregister_timer : ℕ → TimerThread → TimerThread
unregister_timer timer_id e = elim (find timer_id e.timers2) [
  | some _ ↦ over slot2 (update timer_id marked) e
  | none ↦ elim (find timer_id e.timers1) [
    | some _ ↦ over slot1 (update timer_id marked) e
    | none ↦ e
  ]
]

module _ (h : Host) where
  unfoldable pub get_clock : TimerThread → ℕ × TimerThread
  get_clock e = (h.clock e.reads, record e { reads = suc e.reads })

  -- `Register` and `RegisterByMilSec` return the id.
  unfoldable pub register_sec :
      List (Bool × Bool) → Bool → ℤ → ℕ → TimerThread → Option (ℕ × TimerThread)
  unfolding get_clock new_timer
  register_sec rounds run_once interval_time fp e =
      let id = suc e.cur_timer_id in
      let (now_clock, e') = get_clock (record e { cur_timer_id = id }) in
      let timer = open_sec (new_timer run_once id) (u32_of_int interval_time) fp now_clock in
      register_timer rounds timer e' >>= λ e''. some (e''.cur_timer_id, e'')

  unfoldable pub register_milsec :
      List (Bool × Bool) → Bool → ℤ → ℕ → TimerThread → Option (ℕ × TimerThread)
  unfolding get_clock new_timer
  register_milsec rounds run_once interval_time fp e =
      let id = suc e.cur_timer_id in
      let (now_clock, e') = get_clock (record e { cur_timer_id = id }) in
      let timer = open_milsec (new_timer run_once id) (u32_of_int interval_time) fp now_clock in
      register_timer rounds timer e' >>= λ e''. some (e''.cur_timer_id, e'')

  unfoldable pub apply_call : Call → TimerThread → Option TimerThread
  apply_call (register rounds run_once interval_time fp) e =
      register_sec rounds run_once interval_time fp e >>= λ r. some r.1
  apply_call (register_by_mil_sec rounds run_once interval_time fp) e =
      register_milsec rounds run_once interval_time fp e >>= λ r. some r.1
  apply_call (unregister timer_id) e = some (unregister_timer timer_id e)

  unfoldable pub apply_calls : List Call → TimerThread → Option TimerThread
  apply_calls [] e = some e
  apply_calls (c ∷ cs) e = apply_call c e >>= apply_calls cs

  -- What follows `timer._fp();`: the timer starts again, or leaves the map if it runs once.
  unfoldable pub rearm : Slot → ℕ → ETimer → TimerThread → TimerThread
  unfolding get_clock
  rearm s k timer e =
      let (now_clock, e1) = get_clock e in
      let e2 = over s (update k (restarted now_clock)) e1 in
      if timer.run_once then over s (erase k) e2 else e2

  unfoldable pub fire : Slot → ℕ → ETimer → TimerThread → Option TimerThread
  fire s k timer e =
      apply_calls (h.actions timer.fp e.reads) (record e { fired = k ∷ e.fired }) >>= λ e1.
      some (rearm s k timer e1)

  -- The body of a loop of `Update` at the node of the key `k`.
  unfoldable pub visit_node : Slot → ℕ → ETimer → TimerThread → Option TimerThread
  unfolding get_clock
  visit_node s k timer e =
      let (now_clock, e1) = get_clock e in
      let due = leb timer.leftsecs (get_interval_macro_secs h.ticks now_clock timer.startclock) in
      if timer.need_delete
      then some (over s (erase k) e)
      else (if due then fire s k timer e1 else some e1)

  unfoldable pub visit : Slot → ℕ → TimerThread → Option TimerThread
  visit s k e = elim (find k (table s e)) [ none ↦ some e | some timer ↦ visit_node s k timer e ]

  -- A loop of `Update` from the iterator's key (`none` at `end()`), on fuel. `none`: the fuel ran
  -- out, or a callback is still waiting for a lock.
  unfoldable pub sweep : Slot → ℕ → Option ℕ → TimerThread → Option TimerThread
  sweep s zero position e = none
  sweep s (suc fuel) none e = some e
  sweep s (suc fuel) (some k) e = visit s k e >>= λ e'. sweep s fuel (next k (table s e')) e'

  -- `Update`: the loop over `_timers1`, then that over `_timers2`.
  unfoldable pub update_all : ℕ → TimerThread → Option TimerThread
  update_all fuel e = do
    e1 ← sweep slot1 fuel (begin (table slot1 e)) e
    sweep slot2 fuel (begin (table slot2 e1)) e1
