-- ===== src/Timer/Locks/OneShot.antt =====
-- A timer that is registered to run once, among the statements of several threads.
use qing.Common.{
  ℕ, suc, ◌≤◌, ◌<◌, ◌≡◌, refl, sym, ap, ◌∙◌, ◌≢◌, ◌⊎◌, inl, inr, true, Option, none, some, arith,
  count,
}
use qing.Common.OrdMap.{find, insert, find-insert_self}
use qing.Timer.Defs.{ETimer, Slot, TimerThread, table, over, Host}
use qing.Timer.Tables.{table-over_self, over_rest}
use qing.Timer.Valid.{IsValid}
use qing.Timer.Threads.{calling, numbered, opened, inserted, returned, advance}
use qing.Timer.ThreadSteps.{Fits}
use qing.Timer.Locks.{
  Act, registering, before_second, before_first, Frame, Runner, act_step, runner_step, System, put,
  MayStep, moves, Reach,
}
use qing.Timer.Locks.Runners.{put-all}
use qing.Timer.Locks.Moves.{id_of, awaited, Stands, IsAt}
use qing.Timer.Locks.Safe.{IsSafe, Step-IsSafe, Reach-IsSafe, starts_with, starts_with-IsSafe}
use qing.Timer.Locks.Shots.{IsShot, unspent, Shot-count, Reach-IsShot}

-- The statement of a registration that inserts its timer.
inserting_lem :
    (h : Host) (x : Slot) (t : ETimer) (r r' : Runner) (e : TimerThread) {e' : TimerThread}
    → r.act ≡ some (registering (opened t))
    → runner_step h x r e ≡ some (r', e')
    → (r'.frame ≡ r.frame)
      × (r'.act ≡ some (registering (inserted t)))
      × (e' ≡ over x (insert t.timer_id t) e)
unfolding runner_step act_step advance
inserting_lem h x t r r' e act p = ground arith

awaited-cases : (a : Option Act) → (awaited a ≡ 0) ⊎ (awaited a ≡ id_of a)
awaited-cases none = inl refl
awaited-cases (some (registering (calling r))) = inl refl
awaited-cases (some (registering (numbered r t))) = inr refl
awaited-cases (some (registering (opened t))) = inr refl
awaited-cases (some (registering (inserted t))) = inl refl
awaited-cases (some (registering (returned t n))) = inl refl
awaited-cases (some (before_second k)) = inl refl
awaited-cases (some (before_first k)) = inl refl

-- No thread is in the callback of a timer that is gone.
gone-NotAt :
    (s : Slot) (k : ℕ) (f : Frame) (e : TimerThread)
    → Stands f e
    → find k (table s e) ≡ none
    → ¬ IsAt s k f
gone-NotAt s k f e st gone (cs, q) = let (t, there) = rw q at st in cc (gone, there)

module _ (h : Host) (x : Slot) (a : ℕ) (t : ETimer) (r : Runner) (e' : TimerThread) (w : System)
    (safe : IsSafe w) (act : (w.runners a).act ≡ some (registering (opened t)))
    (may : MayStep x a w) (p : runner_step h x (w.runners a) w.engine ≡ some (r, e')) where
  others_unclaimed : (b : ℕ) → b ≢ a → 0 < t.timer_id → awaited (w.runners b).act ≢ t.timer_id
  others_unclaimed b ne low q = elim (awaited-cases (w.runners b).act) [
    | inl zero_now ↦ omega (arith, low, q, zero_now)
    | inr its ↦
        let own_id : id_of (w.runners a).act ≡ t.timer_id = rw act refl in
        safe.apart a b (λ y. ne (sym y)) (rw own_id low) (own_id ∙ sym q ∙ its)
  ]

  inserted-IsShot :
      t.run_once ≡ true
      → IsShot t.timer_id
          (count t.timer_id w.engine.fired)
          (record { engine = e'; runners = put a r w.runners })
  inserted-IsShot once =
      let k = t.timer_id in
      let fits : Fits (opened t) w.engine = rw act at (safe.fits a) in
      let low : 0 < k = fits.taken refl in
      let (n, unused) = fits.unused refl in
      let (frame, acts, is) = inserting_lem h x t (w.runners a) r w.engine act p in
      let (cur, _, log) = over_rest x (insert k t) w.engine in
      record {
        safe = Step-IsSafe h (moves a x r e' may p refl) safe;
        positive = low;
        old = rw (is, cur) fits.old;
        shot =
            unspent x t
              (rw (is, table-over_self x (insert k t) w.engine)
                (find-insert_self 1 k t (table x w.engine) (safe.valid.sorted x) (unused.gone x)))
              once (rw is (ap (count k) log))
              (put-all (λ b y. ¬ IsAt x k y.frame) a r w.runners
                (rw frame
                  (gone-NotAt x k (w.runners a).frame w.engine (safe.stands a) (unused.gone x)))
                (λ b _.
                  gone-NotAt x k (w.runners b).frame w.engine (safe.stands b) (unused.gone x)));
        unclaimed =
            put-all (λ b y. awaited y.act ≢ k) a r w.runners (rw acts (λ q. omega (arith, low, q)))
              (λ b ne. others_unclaimed b ne low);
      }

-- If no callback calls `Update`: once the statement of a registration that inserts a timer with
-- `run_once` has gone through, in whatever state the threads were, its callback is begun once at
-- most, whatever statements of passes, callbacks and other calls in whatever threads come after it
-- in whatever order.
pub once_in_threads :
    (h : Host) (e : TimerThread) (w w' : System) (a : ℕ) (x : Slot) (t : ETimer) (r : Runner)
    (e' : TimerThread)
    → IsValid e
    → Reach h (starts_with e) w
    → (w.runners a).act ≡ some (registering (opened t))
    → t.run_once ≡ true
    → MayStep x a w
    → runner_step h x (w.runners a) w.engine ≡ some (r, e')
    → Reach h (record { engine = e'; runners = put a r w.runners }) w'
    → count t.timer_id w'.engine.fired ≤ suc (count t.timer_id w.engine.fired)
once_in_threads h e w w' a x t r e' v reach act once may p after =
    let safe = Reach-IsSafe h reach (starts_with-IsSafe e v) in
    let k = t.timer_id in
    let d =
      Reach-IsShot h k (count k w.engine.fired) after
        (inserted-IsShot h x a t r e' w safe act may p once) in
    Shot-count k (count k w.engine.fired) w' d.shot
