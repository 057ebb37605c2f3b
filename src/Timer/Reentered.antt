-- ===== src/Timer/Reentered.antt =====
-- What `Update` does when a callback calls `Update`.
use qing.Common.{leb, zero, ℕ, zero, suc, ◌≡◌, refl, true, false, some, List, [], ◌∷◌, arith, ◌==◌}
use qing.Common.OrdMap.{find, erase, update, begin, next}
use qing.Timer.Clock.{get_interval_macro_secs}
use qing.Timer.Defs.{ETimer, Slot, slot1, TimerThread, table, over, Host, get_clock, rearm}
use qing.Timer.Visit.{is_due, called_back}
use qing.Timer.Reentry.{
  unfinished, Doing, updates, Outcome, ends, dangles, and_then, do_all, do_one, come_back, node_in,
  visit_in, sweep_in, update_with, update_in,
}

-- One timer, and none.
abbrev alone : ℕ → ETimer → ℕ → ℕ → List ℕ → TimerThread
alone k t id n log = record {
  timers1 = (k, t) ∷ [];
  timers2 = [];
  cur_timer_id = id;
  reads = n;
  fired = log;
}

abbrev emptied : ℕ → ℕ → List ℕ → TimerThread
emptied id n log = record { timers1 = []; timers2 = []; cur_timer_id = id; reads = n; fired = log }

find-first : (k : ℕ) (t : ETimer) (m : List (ℕ × ETimer)) → find k ((k, t) ∷ m) ≡ some t
unfolding find
find-first k t m = ground arith

find-alone : (k : ℕ) (t : ETimer) → find k ((k, t) ∷ []) ≡ some t
find-alone k t = find-first k t []

module _ (h : Host) (doings : ℕ → ℕ → List Doing) (inner : TimerThread → Outcome) where
  visit_in_due :
      (s : Slot) (k : ℕ) (t : ETimer) (e : TimerThread)
      → find k (table s e) ≡ some t
      → t.need_delete ≡ false
      → is_due h t e ≡ true
      → visit_in h doings inner s k e
        ≡ and_then
            (do_all h doings inner (doings t.fp (suc e.reads)) (called_back k e))
            (come_back h doings inner s k)
  unfolding visit_in node_in get_clock
  visit_in_due s k t e f m due = rw (visit_in, f, m, due) refl

  -- `rearm` erases a timer that runs once.
  rearm-alone :
      (k : ℕ) (t : ETimer) (id n : ℕ) (log : List ℕ)
      → t.run_once ≡ true
      → rearm h slot1 k t (alone k t id n log) ≡ emptied id (suc n) log
  unfolding rearm get_clock over erase update
  rearm-alone k t id n log once =
      let same : (k == k) ≡ true = ground arith in rw (once, same, same) refl

  -- A pass over the one timer, whose callback does nothing.
  inner_erases :
      (fuel k : ℕ) (t : ETimer) (id n : ℕ) (log : List ℕ)
      → t.run_once ≡ true
      → t.need_delete ≡ false
      → is_due h t (alone k t id n log) ≡ true
      → doings t.fp (suc n) ≡ []
      → update_with h doings inner (suc (suc fuel)) (alone k t id n log)
        ≡ ends (emptied id (suc (suc n)) (k ∷ log))
  unfolding update_with sweep_in do_all and_then come_back table begin next
  inner_erases fuel k t id n log once m due d =
      rw
        (
          visit_in_due slot1 k t (alone k t id n log) (find-alone k t) m due,
          d,
          come_back,
          find-alone k t,
          rearm-alone k t id (suc n) (k ∷ log) once,
        )
        refl

module _ (h : Host) (doings : ℕ → ℕ → List Doing) where
  -- An engine whose first map has one timer, which runs once and is due now and at the next reading of
  -- the clock, and whose second map is empty: if its callback calls `Update` in its first run and does
  -- nothing in the next, `Update` runs it twice, erases it in the inner pass, and goes on with the
  -- dangling iterator and reference of the outer one.
  pub reentered_dangles :
      (depth fuel k : ℕ) (t : ETimer) (id n : ℕ) (log : List ℕ)
      → t.run_once ≡ true
      → t.need_delete ≡ false
      → is_due h t (alone k t id n log) ≡ true
      → is_due h t (alone k t id (suc n) log) ≡ true
      → doings t.fp (suc n) ≡ updates ∷ []
      → doings t.fp (suc (suc n)) ≡ []
      → update_in h doings (suc (suc depth)) (suc (suc fuel)) (alone k t id n log)
        ≡ dangles (emptied id (suc (suc (suc n))) (k ∷ k ∷ log))
  unfolding update_in update_with sweep_in do_all do_one and_then come_back table begin find
  reentered_dangles depth fuel k t id n log once m due due' d d' =
      let inner = update_in h doings (suc depth) (suc (suc fuel)) in
      rw
        (
          visit_in_due h doings inner slot1 k t (alone k t id n log) (find-alone k t) m due,
          d,
          inner_erases h doings (update_in h doings depth (suc (suc fuel))) fuel k t id (suc n)
              (k ∷ log) once m due' d',
        )
        refl

  -- If the callback of the first timer of the first map calls `Update` before all else in every run, and
  -- the timer is not unregistered and due at every reading of the clock, `Update` does not end: it is
  -- called in itself without an end, whatever the fuel and the depth.
  pub reentered_unending :
      (depth fuel k : ℕ) (t : ETimer) (m m' : List (ℕ × ETimer)) (id n : ℕ) (log : List ℕ)
      → t.need_delete ≡ false
      → ((j : ℕ) → leb t.leftsecs (get_interval_macro_secs h.ticks (h.clock j) t.startclock) ≡ true)
      → ((j : ℕ) → (ds : List Doing) × (doings t.fp j ≡ updates ∷ ds))
      → update_in h doings depth fuel
          (record { timers1 = (k, t) ∷ m; timers2 = m'; cur_timer_id = id; reads = n; fired = log })
        ≡ unfinished
  unfolding update_in update_with sweep_in do_all do_one and_then table begin
  reentered_unending zero fuel k t m m' id n log mark due calls_update = refl
  reentered_unending (suc depth) zero k t m m' id n log mark due calls_update = refl
  reentered_unending (suc depth) (suc fuel) k t m m' id n log mark due calls_update =
      let e : TimerThread = record {
        timers1 = (k, t) ∷ m;
        timers2 = m';
        cur_timer_id = id;
        reads = n;
        fired = log;
      } in
      let (ds, d) = calls_update (suc n) in
      rw
        (
          visit_in_due h doings (update_in h doings depth (suc fuel)) slot1 k t e (find-first k t m)
              mark (due n),
          d,
          reentered_unending depth (suc fuel) k t m m' id (suc n) (k ∷ log) mark due calls_update,
        )
        refl
