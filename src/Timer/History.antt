-- ===== src/Timer/History.antt =====
-- The engine over time: calls from outside, and passes of `Update`, in any order.
use qing.Common.{
  ℕ, ◌≤◌, ◌≡◌, refl, ap, ◌∙◌, inl, inr, Option, none, some, List, [], ◌∷◌, arith, ◌>>=◌,
  >>=-eq-some, along_some, count,
}
use qing.Common.OrdMap.{find, begin, IsSorted}
use qing.Timer.Defs.{
  ETimer, Slot, slot1, slot2, TimerThread, table, Call, Host, apply_call, update_all, sweep,
  unregister_timer,
}
use qing.Timer.Register.{Effect, apply_call-Effect}
use qing.Timer.Visit.{Visited, sweep-keeps, update_all-loops}
use qing.Timer.Valid.{IsValid, unregister_timer-IsValid}
use qing.Timer.Preserve.{Effect-IsValid, Visited-IsValid, update_all-IsValid}
use qing.Timer.Frame.{Carried-none, Effect-Extends}
use qing.Timer.Deleted.{IsGone, Settled}
use qing.Timer.Doomed.{update_all-Settled, update_all-Doomed, unregister_timer-cases}

-- A constructed engine: `TimerThread()`.
unfoldable pub new_engine : TimerThread
new_engine = record { timers1 = []; timers2 = []; cur_timer_id = 0; reads = 0; fired = [] }

pub new_engine-IsValid : IsValid new_engine
unfolding new_engine table find
new_engine-IsValid = record {
  sorted = λ s. elim s as (λ x. IsSorted 1 (table x new_engine)) [ slot1 ↦ tt | slot2 ↦ tt ];
  fresh =
      λ s k h. elim s as (λ x. find k (table x new_engine) ≡ none) [ slot1 ↦ refl | slot2 ↦ refl ];
  apart = λ s s' k t ne f. elim s' as (λ x. find k (table x new_engine) ≡ none) [
    | slot1 ↦ refl
    | slot2 ↦ refl
  ];
  named = λ s k t f. absurd (empty s k t f);
}
  where
    empty : (s : Slot) (k : ℕ) (t : ETimer) → find k (table s new_engine) ≡ some t → ⊥
    empty slot1 k t f = cc
    empty slot2 k t f = cc

-- What happens to an engine: a call, or a pass with its fuel.
pub data Event : Type 0 where
  calls : Call → Event
  passes : ℕ → Event

module _ (h : Host) where
  unfoldable pub happen : Event → TimerThread → Option TimerThread
  happen (calls c) e = apply_call h c e
  happen (passes fuel) e = update_all h fuel e

  unfoldable pub history : List Event → TimerThread → Option TimerThread
  history [] e = some e
  history (x ∷ xs) e = happen x e >>= history xs

  -- An invariant of the calls and the passes holds after any history.
  pub history-keeps :
      (P : TimerThread → Type 0)
      → ((x : Event) (e e' : TimerThread) → P e → happen x e ≡ some e' → P e')
      → (xs : List Event) (e : TimerThread) {e' : TimerThread} → P e
      → history xs e ≡ some e'
      → P e'
  unfolding history
  history-keeps P keep [] e {e'} v p = along_some P e e' p v
  history-keeps P keep (x ∷ xs) e v p =
      let (e1, p1, p2) = >>=-eq-some (happen x e) (history xs) p in
      history-keeps P keep xs e1 (keep x e e1 v p1) p2

  pub happen-IsValid :
      (x : Event) (e e' : TimerThread) → IsValid e → happen x e ≡ some e' → IsValid e'
  unfolding happen
  happen-IsValid (calls c) e e' v p = Effect-IsValid h (apply_call-Effect h e c p) v
  happen-IsValid (passes fuel) e e' v p = update_all-IsValid h fuel e v p

  -- The same, of what every visit of a node and every call that returns keep in a valid engine.
  pub history-carries :
      (P : TimerThread → Type 0)
      → ((s : Slot) (k : ℕ) (e e' : TimerThread) → IsValid e → Visited h s k e e' → P e → P e')
      → ((e e' : TimerThread) → Effect h e e' → P e → P e')
      → (xs : List Event) (e : TimerThread) {e' : TimerThread} → IsValid e
      → P e
      → history xs e ≡ some e'
      → P e'
  unfolding happen
  history-carries P visits effects xs e v o p = (history-keeps Both once xs e (v, o) p).1
    where
      Both : TimerThread → Type 0
      Both x = IsValid x × P x

      pass :
          (s : Slot) (fuel : ℕ) (position : Option ℕ) (e : TimerThread) {e' : TimerThread}
          → Both e
          → sweep h s fuel position e ≡ some e'
          → Both e'
      pass s =
          sweep-keeps h s Both
            (λ k x x' (w, b) vis. (Visited-IsValid h vis w, visits s k x x' w vis b))

      once : (x : Event) (e e' : TimerThread) → Both e → happen x e ≡ some e' → Both e'
      once (calls c) e e' (w, b) q =
          (happen-IsValid (calls c) e e' w q, effects e e' (apply_call-Effect h e c q) b)
      once (passes fuel) e e' w q =
          let (e1, p1, p2) = update_all-loops h fuel e q in
          pass slot2 fuel (begin (table slot2 e1)) e1
            (pass slot1 fuel (begin (table slot1 e)) e w p1) p2

  -- If no callback calls `Update`, any history of calls and passes that comes to an end keeps the invariant of the two maps.
  pub history-IsValid :
      (xs : List Event) (e : TimerThread) {e' : TimerThread}
      → IsValid e
      → history xs e ≡ some e'
      → IsValid e'
  history-IsValid = history-keeps IsValid happen-IsValid

  pub happen-Settled :
      (k n : ℕ) (x : Event) (e e' : TimerThread)
      → Settled k n e
      → happen x e ≡ some e'
      → Settled k n e'
  unfolding happen
  happen-Settled k n (calls c) e e' d p =
      let x = Effect-Extends h (apply_call-Effect h e c p) in
      record {
        old = omega (arith, d, x.ids);
        gone = λ s. Carried-none (rw (d.gone s) at (x.carries s k d.old));
        runs = ap (count k) x.log ∙ d.runs;
      }
  happen-Settled k n (passes fuel) e e' d p = update_all-Settled h fuel k n e d p

  -- In a valid engine, if no callback calls `Update`: after `UnRegister` of an id that was handed
  -- out, and a pass that ends, the id is in neither map and its callback has not run since the
  -- call; and so it is after whatever calls and passes follow, once they end.
  pub unregister_settles :
      (k fuel : ℕ) (later : List Event) (e : TimerThread) {e1 e2 : TimerThread}
      → IsValid e
      → k ≤ e.cur_timer_id
      → update_all h fuel (unregister_timer k e) ≡ some e1
      → history later e1 ≡ some e2
      → IsGone k e2 × (count k e2.fired ≡ count k e.fired)
  unregister_settles k fuel later e {e1} {e2} v old p q =
      let n = count k e.fired in
      let d : Settled k n e1 = elim (unregister_timer-cases k e old) [
        | inl (s, d) ↦
            update_all-Doomed h s fuel k n (unregister_timer k e) (unregister_timer-IsValid k e v) d
              p
        | inr d ↦ update_all-Settled h fuel k n (unregister_timer k e) d p
      ] in
      let d2 = history-keeps (Settled k n) (happen-Settled k n) later e1 d q in (d2.gone, d2.runs)
