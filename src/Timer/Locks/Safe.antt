-- ===== src/Timer/Locks/Safe.antt =====
-- What holds of the engine and of every thread, however their statements come between one another.
use qing.Common.{ℕ, ◌≤◌, ◌<◌, ◌≡◌, refl, sym, ◌∙◌, ◌≢◌, ◌⊎◌, inl, inr, Option, none, some, arith}
use qing.Timer.Defs.{Slot, slot1, TimerThread, Host}
use qing.Timer.Valid.{IsValid}
use qing.Timer.Deleted.{Settled}
use qing.Timer.Race.{Fits-others, waits-begun}
use qing.Timer.Threads.{calling, numbered, opened, inserted, returned}
use qing.Timer.Locks.{
  Act, registering, before_second, before_first, outside, locking, Runner, at_frame, start, held,
  lock_of, System, put, MayStep, Step, moves, calls, updates, Reach, here, next_step,
}
use qing.Timer.Locks.Deeds.{Deed-same}
use qing.Timer.Locks.Runners.{put-all}
use qing.Timer.Locks.Frames.{runner_step-Moved}
use qing.Timer.Locks.Moves.{
  stays, id_of, inserting_of, awaited, FitsAct, Stands, Stands-remains, Moved, start-awaited,
  start-id_of, start-FitsAct,
}

-- The maps are valid; every call is as it should be, with an id of its own; no mutex is held twice;
-- and every iterator stands at a node of its map.
pub record IsSafe (w : System) : Type 0 where
  pub valid : IsValid w.engine
  pub fits : (a : ℕ) → FitsAct (w.runners a).act w.engine
  pub apart :
      (a b : ℕ)
      → a ≢ b
      → 0 < id_of (w.runners a).act
      → id_of (w.runners a).act ≢ id_of (w.runners b).act
  pub alone :
      (a b : ℕ) (s : Slot)
      → a ≢ b
      → held (w.runners a).frame ≡ some s
      → held (w.runners b).frame ≢ some s
  pub stands : (a : ℕ) → Stands (w.runners a).frame w.engine

id_of-old : (a : Option Act) (e : TimerThread) → FitsAct a e → id_of a ≤ e.cur_timer_id
id_of-old none e f = omega arith
id_of-old (some (registering p)) e f = f.old
id_of-old (some (before_second k)) e f = omega arith
id_of-old (some (before_first k)) e f = omega arith

pub inserting_of-cases : (a : Option Act) → (inserting_of a ≡ 0) ⊎ (inserting_of a ≡ id_of a)
inserting_of-cases none = inl refl
inserting_of-cases (some (registering (calling r))) = inl refl
inserting_of-cases (some (registering (numbered r t))) = inl refl
inserting_of-cases (some (registering (opened t))) = inr refl
inserting_of-cases (some (registering (inserted t))) = inl refl
inserting_of-cases (some (registering (returned t n))) = inl refl
inserting_of-cases (some (before_second k)) = inl refl
inserting_of-cases (some (before_first k)) = inl refl

FitsAct-others :
    (a : Option Act) (e e' : TimerThread)
    → e.cur_timer_id ≤ e'.cur_timer_id
    → (0 < id_of a → (n : ℕ) → Settled (id_of a) n e → Settled (id_of a) n e')
    → FitsAct a e
    → FitsAct a e'
FitsAct-others none e e' le keep f = tt
FitsAct-others (some (registering p)) e e' le keep f =
    Fits-others p le (λ w n d. keep (f.taken (waits-begun p w)) n d) f
FitsAct-others (some (before_second k)) e e' le keep f = tt
FitsAct-others (some (before_first k)) e e' le keep f = tt

module _ (s : Slot) (a : ℕ) (r : Runner) (e' : TimerThread) (w : System)
    (m : Moved s (w.runners a) r w.engine e') (may : MayStep s a w) (v : IsSafe w) where
  -- The others' ids are not that of `a`.
  differs : (b : ℕ) → b ≢ a → 0 < id_of (w.runners b).act → id_of (w.runners b).act ≢ id_of r.act
  differs b ne low p = elim m.id [
    | inl kept ↦ v.apart b a ne low (p ∙ kept)
    | inr (inl zero_now) ↦ absurd (omega (arith, low, p, zero_now))
    | inr (inr taken) ↦
        let old = id_of-old (w.runners b).act w.engine (v.fits b) in
        absurd (omega (arith, old, p, taken))
  ]

  -- Nor is it the id that the statement inserts.
  stays_apart :
      (b : ℕ)
      → b ≢ a
      → 0 < id_of (w.runners b).act
      → id_of (w.runners b).act ≢ inserting_of (w.runners a).act
  stays_apart b ne low p = elim (inserting_of-cases (w.runners a).act) [
    | inl zero_now ↦ absurd (omega (arith, low, p, zero_now))
    | inr its ↦ v.apart b a ne low (p ∙ its)
  ]

  alone_now :
      (b : ℕ) (s' : Slot) → b ≢ a → held r.frame ≡ some s' → held (w.runners b).frame ≢ some s'
  alone_now b s' ne p = elim (m.holds s' p) [
    | inl before ↦ v.alone a b s' (λ q. ne (sym q)) before
    | inr takes ↦ may s' b takes ne
  ]

  pub put-IsSafe : IsSafe (record { engine = e'; runners = put a r w.runners })
  put-IsSafe = record {
    valid = m.deed.valid;
    fits =
        put-all (λ b x. FitsAct x.act e') a r w.runners m.fits
          (λ b ne.
            FitsAct-others (w.runners b).act w.engine e' m.deed.ids
              (λ low n d. m.deed.settled (id_of (w.runners b).act) n (stays_apart b ne low) d)
              (v.fits b));
    apart =
        put-all
          (λ b x. (c : ℕ) → b ≢ c → 0 < id_of x.act → id_of x.act ≢ id_of (put a r w.runners c).act)
          a r w.runners
          (put-all (λ c y. a ≢ c → 0 < id_of r.act → id_of r.act ≢ id_of y.act) a r w.runners
            (λ ne. absurd (ne refl)) (λ c ne _ low p. differs c ne (omega (arith, low, p)) (sym p)))
          (λ b ne.
            put-all
              (λ c y. b ≢ c → 0 < id_of (w.runners b).act → id_of (w.runners b).act ≢ id_of y.act) a
              r w.runners (λ _ low. differs b ne low) (λ c _ apart low. v.apart b c apart low));
    alone = λ b c.
        put-all
          (λ b x.
            (c : ℕ) (s' : Slot)
            → b ≢ c
            → held x.frame ≡ some s'
            → held (put a r w.runners c).frame ≢ some s')
          a r w.runners
          (put-all (λ c y. (s' : Slot) → a ≢ c → held r.frame ≡ some s' → held y.frame ≢ some s') a
            r w.runners (λ s' ne. absurd (ne refl)) (λ c ne s' _ p. alone_now c s' ne p))
          (λ b ne.
            put-all
              (λ c y.
                (s' : Slot) → b ≢ c → held (w.runners b).frame ≡ some s' → held y.frame ≢ some s')
              a r w.runners (λ s' _ p q. alone_now b s' ne q p) (λ c _ s' n. v.alone b c s' n))
          b c;
    stands =
        put-all (λ b x. Stands x.frame e') a r w.runners m.stands
          (λ b ne.
            Stands-remains (w.runners b).frame (held (w.runners a).frame)
              (inserting_of (w.runners a).act) w.engine e' m.deed (λ s' q. v.alone b a s' ne q)
              (v.stands b));
  }

-- A thread that is in nothing begins something: no mutex, no id.
begins-Moved :
    (a : ℕ) (r : Runner) (w : System)
    → w.runners a ≡ at_frame outside
    → id_of r.act ≡ 0
    → awaited r.act ≡ 0
    → FitsAct r.act w.engine
    → held r.frame ≡ none
    → Stands r.frame w.engine
    → IsSafe w
    → Moved slot1 (w.runners a) r w.engine w.engine
begins-Moved a r w idle no_id none_waits fits free st v = record {
  deed = Deed-same (held (w.runners a).frame) (inserting_of (w.runners a).act) w.engine v.valid;
  fits = fits;
  id = inr (inl no_id);
  waits = inr (inl none_waits);
  stands = st;
  holds = λ s' q. cc (q, free);
  once = λ s' k u found runs_once.
      stays u found runs_once refl
        (λ (cs, q). cc (q, idle), λ (cs, q). let p = rw q at free in cc p);
}

-- What a step does: a thread that may go on has gone on.
pub record Stepped (w w' : System) : Type 0 where
  pub slot : Slot
  pub who : ℕ
  pub runner : Runner
  pub moved : Moved slot (w.runners who) runner w.engine w'.engine
  pub may : MayStep slot who w
  pub is : w' ≡ record { engine = w'.engine; runners = put who runner w.runners }

begins-Stepped :
    (a : ℕ) (r : Runner) (w : System)
    → w.runners a ≡ at_frame outside
    → Moved slot1 (w.runners a) r w.engine w.engine
    → Stepped w (record w { runners = put a r w.runners })
begins-Stepped a r w idle m = record {
  slot = slot1;
  who = a;
  runner = r;
  moved = m;
  may = λ s' b takes. absurd (nothing_taken s' takes);
  is = refl;
}
  where
    nothing_taken : (s' : Slot) → lock_of slot1 (w.runners a) ≢ some s'
    nothing_taken s' = rw idle (λ q. cc)

module _ (h : Host) where
  pub Step-Stepped : {w w' : System} → Step h w w' → IsSafe w → Stepped w w'
  Step-Stepped {w} (moves a s r e' may p q) v = rw q (record {
    slot = s;
    who = a;
    runner = r;
    moved = runner_step-Moved h s w.engine v.valid (w.runners a) (v.fits a) (v.stands a) p;
    may = may;
    is = refl;
  })
  Step-Stepped {w} (calls a c idle q) v =
      let r : Runner = record { frame = outside; act = some (start c) } in
      rw q (
        begins-Stepped a r w idle (
          begins-Moved a r w idle (start-id_of c) (start-awaited c) (start-FitsAct c w.engine) refl
            tt v))
  Step-Stepped {w} (updates a idle q) v =
      let r : Runner = at_frame (locking slot1) in
      rw q (begins-Stepped a r w idle (begins-Moved a r w idle refl refl tt refl tt v))

  pub Step-IsSafe : {w w' : System} → Step h w w' → IsSafe w → IsSafe w'
  Step-IsSafe {w} {w'} st v =
      let x = Step-Stepped st v in
      rw x.is (put-IsSafe x.slot x.who x.runner w'.engine w x.moved x.may v)

  pub Reach-IsSafe : {w w' : System} → Reach h w w' → IsSafe w → IsSafe w'
  Reach-IsSafe here v = v
  Reach-IsSafe (next_step r st) v = Step-IsSafe st (Reach-IsSafe r v)

-- No thread is in anything yet.
abbrev pub starts_with : TimerThread → System
starts_with e = record { engine = e; runners = λ a. at_frame outside }

pub starts_with-IsSafe : (e : TimerThread) → IsValid e → IsSafe (starts_with e)
starts_with-IsSafe e v = record {
  valid = v;
  fits = λ a. tt;
  apart = λ a b ne low. absurd (omega arith);
  alone = λ a b s ne p. cc;
  stands = λ a. tt;
}
