-- ===== src/Timer/Locks/Crossing.antt =====
-- How two threads in `Update` come to wait for one another.
use qing.Common.{
  ap, ℕ, suc, ◌≡◌, refl, sym, ◌∙◌, ◌≢◌, inl, inr, true, false, none, some, List, [], ◌∷◌, arith,
  Bool-cases, ◌==◌,
}
use qing.Common.OrdMap.{find, begin, next}
use qing.Timer.Defs.{ETimer, slot1, slot2, TimerThread, table, Call, unregister, Host, get_clock}
use qing.Timer.Visit.{is_due}
use qing.Timer.Locks.{
  before_second, before_first, outside, locking, looping, calling_back, Runner, at_frame, start,
  look, unlocked, act_step, frame_step, runner_step, held, lock_of, System, put, MayStep, moves,
  updates, Reach, here, next_step,
}
use qing.Timer.Locks.Runners.{put_self, put_ne, put-put, Reach-trans}
use qing.Timer.Locks.Safe.{starts_with}
use qing.Timer.Locks.Alone.{Alone, rests, goes}
use qing.Timer.Locks.Whole.{looking}
use qing.Timer.Locks.Events.{Alone-Reach}
use qing.Timer.Locks.Deadlock.{IsDeadlocked, deadlock_stays}

-- A timer in each map.
abbrev pub two_timers : ℕ → ETimer → ℕ → ETimer → ℕ → ℕ → List ℕ → TimerThread
two_timers k1 t1 k2 t2 id n log = record {
  timers1 = (k1, t1) ∷ [];
  timers2 = (k2, t2) ∷ [];
  cur_timer_id = id;
  reads = n;
  fired = log;
}

-- In the callback of the timer `k1`, before the lock of `_timers2` in `UnRegister(x)`.
abbrev pub in_first : ℕ → List Call → ℕ → Runner
in_first k1 cs x = record { frame = calling_back slot1 k1 cs; act = some (before_second x) }

-- In the callback of the timer `k2`, before the lock of `_timers1` in `UnRegister(x)`.
abbrev pub in_second : ℕ → List Call → ℕ → Runner
in_second k2 cs x = record { frame = calling_back slot2 k2 cs; act = some (before_first x) }

find_only : (k : ℕ) (t : ETimer) → find k ((k, t) ∷ []) ≡ some t
unfolding find
find_only k t = ground arith

next_only : (k : ℕ) (t : ETimer) → next k ((k, t) ∷ []) ≡ none
unfolding next
next_only k t = ground arith

module _ (h : Host) (k1 k2 : ℕ) (t1 t2 : ETimer) (id : ℕ) where
  -- The thread that comes to the second map.
  second_waits :
      (n : ℕ) (log : List ℕ) (x : ℕ) (cs : List Call)
      → t1.need_delete ≡ false
      → t2.need_delete ≡ false
      → is_due h t1 (two_timers k1 t1 k2 t2 id n log) ≡ false
      → is_due h t2 (two_timers k1 t1 k2 t2 id (suc n) log) ≡ true
      → h.actions t2.fp (suc (suc n)) ≡ unregister x ∷ cs
      → k2 ≢ x
      → Alone h
          (at_frame (locking slot1))
          (two_timers k1 t1 k2 t2 id n log)
          (in_second k2 cs x)
          (two_timers k1 t1 k2 t2 id (suc (suc n)) (k2 ∷ log))
  unfolding runner_step frame_step act_step look get_clock table find begin next unlocked start
  second_waits n log x cs m1 m2 w1 w2 acts ne =
      let e = two_timers k1 t1 k2 t2 id n log in
      let e1 = two_timers k1 t1 k2 t2 id (suc n) log in
      let e2 = two_timers k1 t1 k2 t2 id (suc (suc n)) (k2 ∷ log) in
      let b0 : Alone h _ e (at_frame (looping slot1 (some k1))) e =
        goes slot1 {e1 = e} rests refl in
      let b1 : Alone h _ e (at_frame (looping slot1 none)) e1 =
        goes slot1 {e1 = e} b0
          (looking h slot1 k1 t1 e (find_only k1 t1) ∙ rw (m1, w1, next_only k1 t1) refl) in
      let b2 : Alone h _ e (at_frame (locking slot2)) e1 = goes slot1 {e1 = e1} b1 refl in
      let b3 : Alone h _ e (at_frame (looping slot2 (some k2))) e1 = goes slot1 {e1 = e1} b2 refl in
      let b4 : Alone h _ e (at_frame (calling_back slot2 k2 (unregister x ∷ cs))) e2 =
        goes slot1 {e1 = e1} b3
          (looking h slot2 k2 t2 e1 (find_only k2 t2) ∙ rw (m2, w2, acts) refl) in
      let b5 : Alone h _ e
          (record { frame = calling_back slot2 k2 cs; act = some (before_second x) }) e2 =
        goes slot1 {e1 = e2} b4 refl in
      goes slot1 {e1 = e2} b5 (ground arith)

  -- The system of two threads that wait for one another.
  abbrev pub locked : ℕ → ℕ → ℕ → List ℕ → Runner → Runner → System
  locked a b n log ra rb = record {
    engine = two_timers k1 t1 k2 t2 id n log;
    runners = put a ra (put b rb (λ c. at_frame outside));
  }

  beside_may :
      (a b n x : ℕ) (log : List ℕ) (cs : List Call) (r : Runner)
      → lock_of slot1 r ≢ some slot2
      → MayStep slot1 a (locked a b n log r (in_second k2 cs x))
  beside_may a b n x log cs r no_second s c takes ne p =
      let others = put b (in_second k2 cs x) (λ c. at_frame outside) in
      let there = rw (put_ne a c r others ne) at p in
      let takes_it = ap (lock_of slot1) (sym (put_self a r others)) ∙ takes in
      elim (Bool-cases (c == b)) [
        | inl same ↦ no_second (takes_it ∙ sym (rw same at there))
        | inr other ↦ let free = rw other at there in cc free
      ]

  beside_goes :
      (w : System) (a b n n' x : ℕ) (log log' : List ℕ) (cs : List Call) (r r' : Runner)
      → Reach h w (locked a b n log r (in_second k2 cs x))
      → lock_of slot1 r ≢ some slot2
      → runner_step h slot1 r (two_timers k1 t1 k2 t2 id n log)
        ≡ some (r', two_timers k1 t1 k2 t2 id n' log')
      → Reach h w (locked a b n' log' r' (in_second k2 cs x))
  beside_goes w a b n n' x log log' cs r r' reach no_second p =
      let others = put b (in_second k2 cs x) (λ c. at_frame outside) in
      next_step reach (
        moves a slot1 r' (two_timers k1 t1 k2 t2 id n' log') (beside_may a b n x log cs r no_second)
          (rw (put_self a r others) p) (rw (put-put a r r' others) refl))

  -- The thread that comes to the first map after the other went on to the second.
  first_waits :
      (w : System) (a b n x1 x2 : ℕ) (log : List ℕ) (cs1 cs2 : List Call)
      → a ≢ b
      → t1.need_delete ≡ false
      → is_due h t1 (two_timers k1 t1 k2 t2 id n log) ≡ true
      → h.actions t1.fp (suc n) ≡ unregister x1 ∷ cs1
      → Reach h w (record {
        engine = two_timers k1 t1 k2 t2 id n log;
        runners = put b (in_second k2 cs2 x2) (λ c. at_frame outside);
      })
      → Reach h w (locked a b (suc n) (k1 ∷ log) (in_first k1 cs1 x1) (in_second k2 cs2 x2))
  unfolding runner_step frame_step look get_clock table begin start
  first_waits w a b n x1 x2 log cs1 cs2 ne m w1 acts reach =
      let e = two_timers k1 t1 k2 t2 id n log in
      let idle = put_ne b a (in_second k2 cs2 x2) (λ c. at_frame outside) ne in
      let r0 = next_step reach (updates a idle refl) in
      let r1 =
        beside_goes w a b n n x2 log log cs2 (at_frame (locking slot1))
          (at_frame (looping slot1 (some k1))) r0 (λ p. cc) refl in
      let r2 =
        beside_goes w a b n (suc n) x2 log (k1 ∷ log) cs2 (at_frame (looping slot1 (some k1)))
          (at_frame (calling_back slot1 k1 (unregister x1 ∷ cs1))) r1 (λ p. cc)
          (looking h slot1 k1 t1 e (find_only k1 t1) ∙ rw (m, w1, acts) refl) in
      beside_goes w a b (suc n) (suc n) x2 (k1 ∷ log) (k1 ∷ log) cs2
        (at_frame (calling_back slot1 k1 (unregister x1 ∷ cs1))) (in_first k1 cs1 x1) r2 (λ p. cc)
        refl

  -- A timer in each map; that of the first is not due at the next reading of the clock, and is due two
  -- readings later, and that of the second is due at the reading between. Its callback calls
  -- `UnRegister` of an id that is not in the second map, and the callback of the first timer calls
  -- `UnRegister` of any id. If two threads call `Update`, the one can come into the callback of the
  -- second map and the other into that of the first, each with the mutex that the other waits for;
  -- and whatever any threads do from then on, the two stay there.
  pub deadlock_comes :
      {w' : System} (a b n x1 x2 : ℕ) (log : List ℕ) (cs1 cs2 : List Call)
      → a ≢ b
      → t1.need_delete ≡ false
      → t2.need_delete ≡ false
      → is_due h t1 (two_timers k1 t1 k2 t2 id n log) ≡ false
      → is_due h t2 (two_timers k1 t1 k2 t2 id (suc n) log) ≡ true
      → is_due h t1 (two_timers k1 t1 k2 t2 id (suc (suc n)) log) ≡ true
      → h.actions t2.fp (suc (suc n)) ≡ unregister x2 ∷ cs2
      → h.actions t1.fp (suc (suc (suc n))) ≡ unregister x1 ∷ cs1
      → k2 ≢ x2
      → Reach h
          (locked a b
            (suc (suc (suc n)))
            (k1 ∷ k2 ∷ log)
            (in_first k1 cs1 x1)
            (in_second k2 cs2 x2))
          w'
      → Reach h (starts_with (two_timers k1 t1 k2 t2 id n log)) (
          locked a b (suc (suc (suc n))) (k1 ∷ k2 ∷ log) (in_first k1 cs1 x1) (in_second k2 cs2 x2))
        × (w'.runners a ≡ in_first k1 cs1 x1)
        × (w'.runners b ≡ in_second k2 cs2 x2)
  deadlock_comes {w'} a b n x1 x2 log cs1 cs2 ne m1 m2 w1 w2 w3 acts2 acts1 other reach =
      let e = two_timers k1 t1 k2 t2 id n log in
      let rb = in_second k2 cs2 x2 in
      let idle = λ (c : ℕ). at_frame outside in
      let w = locked a b (suc (suc (suc n))) (k1 ∷ k2 ∷ log) (in_first k1 cs1 x1) rb in
      let at_a = put_self a (in_first k1 cs1 x1) (put b rb idle) in
      let at_b =
        put_ne a b (in_first k1 cs1 x1) (put b rb idle) (λ p. ne (sym p)) ∙ put_self b rb idle in
      let d : IsDeadlocked a b x1 x2 w = record {
        apart = ne;
        has_first = ap (λ r. held r.frame) at_a;
        wants_second = ap (λ r. r.act) at_a;
        has_second = ap (λ r. held r.frame) at_b;
        wants_first = ap (λ r. r.act) at_b;
      } in
      let (p, q) = deadlock_stays h a b x1 x2 w w' d reach in
      let begun : Reach h (starts_with e)
          (record { engine = e; runners = put b (at_frame (locking slot1)) idle }) =
        next_step here (updates b refl refl) in
      let second =
        Reach-trans begun (
          Alone-Reach h b idle (λ c ne. refl)
            (second_waits n log x2 cs2 m1 m2 w1 w2 acts2 other)) in
      (
        first_waits (starts_with e) a b (suc (suc n)) x1 x2 (k2 ∷ log) cs1 cs2 ne m1 w3 acts1
            second,
        p ∙ at_a,
        q ∙ at_b,
      )
