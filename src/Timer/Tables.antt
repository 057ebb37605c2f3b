-- ===== src/Timer/Tables.antt =====
-- The two maps of the engine under the writes of its operations.
use qing.Common.{ℕ, ◌≡◌, refl, ◌≢◌, ◌⊎◌, inl, inr, List}
use qing.Timer.Defs.{ETimer, Slot, slot1, slot2, TimerThread, table, over}

pub Slot-discrete : Discrete Slot
Slot-discrete = hlevel

pub table-over_self :
    (s : Slot) (f : List (ℕ × ETimer) → List (ℕ × ETimer)) (e : TimerThread)
    → table s (over s f e) ≡ f (table s e)
unfolding table over
table-over_self slot1 f e = refl
table-over_self slot2 f e = refl

pub table-over_ne :
    (s s' : Slot) (f : List (ℕ × ETimer) → List (ℕ × ETimer)) (e : TimerThread)
    → s ≢ s'
    → table s (over s' f e) ≡ table s e
unfolding table over
table-over_ne slot1 slot1 f e h = absurd (h refl)
table-over_ne slot1 slot2 f e h = refl
table-over_ne slot2 slot1 f e h = refl
table-over_ne slot2 slot2 f e h = absurd (h refl)

-- Nothing but the maps changes.
pub over_rest :
    (s : Slot) (f : List (ℕ × ETimer) → List (ℕ × ETimer)) (e : TimerThread)
    → ((over s f e).cur_timer_id ≡ e.cur_timer_id)
      × ((over s f e).reads ≡ e.reads)
      × ((over s f e).fired ≡ e.fired)
unfolding over
over_rest slot1 f e = (refl, refl, refl)
over_rest slot2 f e = (refl, refl, refl)

-- The maps do not depend on the other fields.
pub table_eq :
    (s : Slot) (e e' : TimerThread)
    → e'.timers1 ≡ e.timers1
    → e'.timers2 ≡ e.timers2
    → table s e' ≡ table s e
unfolding table
table_eq slot1 e e' h1 h2 = h1
table_eq slot2 e e' h1 h2 = h2

pub Slot-cases : (s s' : Slot) → (s ≡ s') ⊎ (s ≢ s')
Slot-cases slot1 slot1 = inl refl
Slot-cases slot1 slot2 = inr (λ p. cc)
Slot-cases slot2 slot1 = inr (λ p. cc)
Slot-cases slot2 slot2 = inl refl
