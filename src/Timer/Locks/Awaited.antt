-- ===== src/Timer/Locks/Awaited.antt =====
-- The ids that the threads have taken and are yet to insert.
use qing.Common.{
  ℕ, ◌≤◌, ◌<◌, ◌≡◌, refl, sym, ◌∙◌, ◌≢◌, ◌⊎◌, inl, inr, Option, none, some, arith, Bool-cases, leb,
  leb→le,
}
use qing.Common.OrdMap.{find, find_below}
use qing.Timer.Defs.{ETimer, Slot, TimerThread, table}
use qing.Timer.Valid.{IsValid}
use qing.Timer.Threads.{calling, numbered, opened, inserted, returned}
use qing.Timer.Deleted.{IsGone}
use qing.Timer.Locks.{Act, registering, before_second, before_first, Runner, System, put}
use qing.Timer.Locks.Moves.{inserting_of, awaited, IsNoneOr, FitsAct}
use qing.Timer.Locks.Runners.{put-all}
use qing.Timer.Locks.Safe.{IsSafe}

pub inserting_of-awaited : (a : Option Act) → (inserting_of a ≡ 0) ⊎ (inserting_of a ≡ awaited a)
inserting_of-awaited none = inl refl
inserting_of-awaited (some (registering (calling r))) = inl refl
inserting_of-awaited (some (registering (numbered r t))) = inl refl
inserting_of-awaited (some (registering (opened t))) = inr refl
inserting_of-awaited (some (registering (inserted t))) = inl refl
inserting_of-awaited (some (registering (returned t n))) = inl refl
inserting_of-awaited (some (before_second k)) = inl refl
inserting_of-awaited (some (before_first k)) = inl refl

-- An id that is awaited is in no map.
awaited-IsGone :
    (a : Option Act) (e : TimerThread) → FitsAct a e → 0 < awaited a → IsGone (awaited a) e
awaited-IsGone none e f low = absurd (omega arith)
awaited-IsGone (some (registering (calling r))) e f low = absurd (omega arith)
awaited-IsGone (some (registering (numbered r t))) e f low = (f.unused refl).1.gone
awaited-IsGone (some (registering (opened t))) e f low = (f.unused refl).1.gone
awaited-IsGone (some (registering (inserted t))) e f low = absurd (omega arith)
awaited-IsGone (some (registering (returned t n))) e f low = absurd (omega arith)
awaited-IsGone (some (before_second k)) e f low = absurd (omega arith)
awaited-IsGone (some (before_first k)) e f low = absurd (omega arith)

-- A key of a map is not 0.
pub key_positive :
    (s : Slot) (k : ℕ) (t : ETimer) (e : TimerThread)
    → IsValid e
    → find k (table s e) ≡ some t
    → 0 < k
key_positive s k t e v f = elim (Bool-cases (leb 1 k)) [
  | inl le ↦ leb→le 1 k le
  | inr gt ↦ cc (find_below 1 k (table s e) (v.sorted s) (ground arith))
]

-- A timer that is in a map is awaited by no thread.
pub found-unclaimed :
    (s : Slot) (k : ℕ) (t : ETimer) (w : System)
    → IsSafe w
    → find k (table s w.engine) ≡ some t
    → (a : ℕ) → awaited (w.runners a).act ≢ k
found-unclaimed s k t w v f a q =
    let low = key_positive s k t w.engine v.valid f in
    let gone = awaited-IsGone (w.runners a).act w.engine (v.fits a) (rw (← q) at low) in
    cc (gone s, q, f)

pub still_unclaimed :
    (k : ℕ) (a : ℕ) (r : Runner) (w : System)
    → 0 < k
    → k ≤ w.engine.cur_timer_id
    → IsNoneOr (awaited r.act) (awaited (w.runners a).act) w.engine
    → ((b : ℕ) → awaited (w.runners b).act ≢ k)
    → (b : ℕ) → awaited (put a r w.runners b).act ≢ k
still_unclaimed k a r w low old waits un =
    put-all (λ b x. awaited x.act ≢ k) a r w.runners
      (λ p. elim waits [
        | inl same ↦ un a (sym same ∙ p)
        | inr (inl zero_now) ↦ absurd (omega (arith, low, p, zero_now))
        | inr (inr taken) ↦ absurd (omega (arith, old, p, taken))
      ])
      (λ b ne. un b)
