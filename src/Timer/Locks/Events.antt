-- ===== src/Timer/Locks/Events.antt =====
-- What the threads can do against what the engine's calls and passes do as wholes.
use qing.Common.{ℕ, ◌≡◌, ◌≢◌, refl, none, some, List, [], ◌∷◌, along_some, >>=-eq-some}
use qing.Timer.Defs.{Slot, slot1, TimerThread, Host}
use qing.Timer.Valid.{IsValid}
use qing.Timer.History.{Event, passes, happen, history, happen-IsValid}
use qing.Timer.Locks.{
  outside, locking, Runner, at_frame, start, held, System, put, MayStep, Step, moves, calls,
  updates, Reach, here, next_step,
}
use qing.Timer.Locks.Runners.{put_self, put_ne, put-put, put-keeps, Reach-trans}
use qing.Timer.Locks.Alone.{Alone, rests, goes, in_act, calls_whole}
use qing.Timer.Locks.Whole.{pass_whole}

-- Beside threads that hold no mutex a thread is never kept from its next statement.
module _ (h : Host) (a : ℕ) (runners : ℕ → Runner)
    (free : (b : ℕ) → b ≢ a → held (runners b).frame ≡ none) where
  abbrev pub in_place : Runner → TimerThread → System
  in_place r e = record { engine = e; runners = put a r runners }

  pub may_step : (s : Slot) (r : Runner) (e : TimerThread) → MayStep s a (in_place r e)
  may_step s r e s' b takes ne p =
      let held_now = rw (put_ne a b r runners ne) at p in cc (held_now, free b ne)

  pub Alone-Reach :
      {r : Runner} {e : TimerThread} {r' : Runner} {e' : TimerThread}
      → Alone h r e r' e'
      → Reach h (in_place r e) (in_place r' e')
  Alone-Reach rests = here
  Alone-Reach {r} {e} {r'} {e'} (goes s {r1 = r1} {e1 = e1} al p) = next_step (Alone-Reach al) (
      moves a s r' e' (may_step s r1 e1) (rw (put_self a r1 runners) p)
        (rw (put-put a r1 r' runners) refl))

module _ (h : Host) (a : ℕ) (w : System) (idle : w.runners a ≡ at_frame outside)
    (free : (b : ℕ) → b ≢ a → held (w.runners b).frame ≡ none) where
  -- What a thread does between one rest and the next.
  rounds-Reach :
      (r : Runner) (e' : TimerThread)
      → Step h w (record w { runners = put a r w.runners })
      → Alone h r w.engine (at_frame outside) e'
      → Reach h w (record w { engine = e' })
  rounds-Reach r e' st al =
      let back = put-keeps a (at_frame outside) w.runners idle in
      rw back at (Reach-trans (next_step here st) (Alone-Reach h a w.runners free al))

  happen-Reach :
      (x : Event) {e' : TimerThread}
      → IsValid w.engine
      → happen h x w.engine ≡ some e'
      → Reach h w (record w { engine = e' })
  unfolding happen
  happen-Reach (Event.calls c) {e'} v p =
      rounds-Reach (in_act outside (start c)) e' (calls a c idle refl)
        (calls_whole h outside c w.engine e' p)
  happen-Reach (passes fuel) {e'} v p =
      rounds-Reach (at_frame (locking slot1)) e' (updates a idle refl)
        (pass_whole h fuel w.engine v p)

-- Calls and passes that go through one after another, each as a whole, are something that the
-- threads can do, statement by statement and lock by lock: from a state in which the thread `a` is
-- in nothing and no other thread holds a mutex, with the maps in order, they come to the same state
-- but for the engine, which is what the calls and the passes leave.
pub history-Reach :
    (h : Host) (a : ℕ) (xs : List Event) (w : System) {e' : TimerThread}
    → w.runners a ≡ at_frame outside
    → ((b : ℕ) → b ≢ a → held (w.runners b).frame ≡ none)
    → IsValid w.engine
    → history h xs w.engine ≡ some e'
    → Reach h w (record w { engine = e' })
unfolding history
history-Reach h a [] w {e'} idle free v p =
    along_some (λ x. Reach h w (record w { engine = x })) w.engine e' p here
history-Reach h a (x ∷ xs) w {e'} idle free v p =
    let (e1, p1, p2) = >>=-eq-some (happen h x w.engine) (history h xs) p in
    Reach-trans (happen-Reach h a w idle free x v p1) (
      history-Reach h a xs (record w { engine = e1 }) idle free
        (happen-IsValid h x w.engine e1 v p1) p2)
