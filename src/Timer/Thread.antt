-- ===== src/Timer/Thread.antt =====
-- What is left of include/qing/util/time_engine.h: `Thread`, and the order of `ETimer`,
-- and the destructor of the engine, src/util/time_engine.cpp.
use qing.Common.{ℕ, ◌≡◌, ◌↔◌, Bool, true, false, ltb, ◌==◌, arith, ℤ, pos, [], refl}
use qing.Common.OrdMap.{find}
use qing.Timer.Defs.{ETimer, TimerThread, slot1, slot2, table}
use qing.Timer.Deleted.{IsGone}

-- `THREADSTATE`.
pub data ThreadState : Type 0 where
  idle work busy : ThreadState

-- `Thread::cancel`.
unfoldable pub cancel : ThreadState → ℤ × ThreadState
cancel state = (pos 0, state)

-- `ETimer::operator <` and `operator ==`.
unfoldable pub timer_lt : ETimer → ETimer → Bool
timer_lt this timer = ltb timer.leftsecs this.leftsecs

unfoldable pub timer_eq : ETimer → ETimer → Bool
timer_eq this timer = timer.leftsecs == this.leftsecs

-- `~TimerThread`.
unfoldable pub destroy_engine : TimerThread → TimerThread
destroy_engine e = record e { timers1 = []; timers2 = [] }

-- `<` orders no timer before itself, and leaves unordered exactly those that `==` takes for the
-- same.
timer_eq_iff :
    (t u : ETimer)
    → (timer_lt t t ≡ false)
      × ((timer_eq t u ≡ true) ↔ ((timer_lt t u ≡ false) × (timer_lt u t ≡ false)))
unfolding timer_lt timer_eq
timer_eq_iff t u = (ground arith, ((λ e. ground arith), (λ e. ground arith)))

timer_lt_trans : (t u w : ETimer) → timer_lt t u ≡ true → timer_lt u w ≡ true → timer_lt t w ≡ true
unfolding timer_lt
timer_lt_trans t u w p q = ground arith

-- A destroyed engine has a timer of no id.
destroy_engine-IsGone : (k : ℕ) (e : TimerThread) → IsGone k (destroy_engine e)
unfolding destroy_engine table find
destroy_engine-IsGone k e slot1 = refl
destroy_engine-IsGone k e slot2 = refl
