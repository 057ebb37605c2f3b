-- ===== src/Timer/Race.antt =====
-- Registrations of several threads, interleaved statement by statement.
use qing.Common.{
  ℕ, ◌≤◌, ◌<◌, ◌≡◌, refl, sym, ap, ◌∙◌, ◌≢◌, ◌⊎◌, inl, inr, true, some, List, arith, ◌==◌, ==_iff,
  ne_of_==_false, Bool-cases,
}
use qing.Common.OrdMap.{find, update, find-update}
use qing.Timer.Defs.{ETimer, Slot, TimerThread, Host}
use qing.Timer.Valid.{IsValid}
use qing.Timer.Deleted.{Settled}
use qing.Timer.History.{Event, happen, happen-IsValid, happen-Settled, new_engine-IsValid}
use qing.Timer.Ids.{happen-ids}
use qing.Timer.Threads.{
  Phase, calling, numbered, opened, inserted, returned, advance, Threads, move, Step, moves,
  happens, Reach, here, next, Starts,
}
use qing.Timer.ThreadSteps.{own, begun, waits, Fits, Moves, advance-Moves}

-- Every thread's id is its own, and as it should be.
record IsSafe (w : Threads) : Type 0 where
  valid : IsValid w.engine
  fits : (a : ℕ) (p : Phase) → find a w.phases ≡ some p → Fits p w.engine
  apart :
      (a b : ℕ) (p q : Phase)
      → a ≢ b
      → find a w.phases ≡ some p
      → find b w.phases ≡ some q
      → 0 < own p
      → own p ≢ own q

pub waits-begun : (p : Phase) → waits p ≡ true → begun p ≡ true
waits-begun (calling r) w = cc
waits-begun (numbered r t) w = refl
waits-begun (opened t) w = refl
waits-begun (inserted t) w = refl
waits-begun (returned t n) w = refl

-- Another thread is as before.
pub Fits-others :
    {e e' : TimerThread} (p : Phase)
    → e.cur_timer_id ≤ e'.cur_timer_id
    → (waits p ≡ true → (n : ℕ) → Settled (own p) n e → Settled (own p) n e')
    → Fits p e
    → Fits p e'
Fits-others p le keep f = record {
  old = omega (arith, le, f.old);
  taken = f.taken;
  unused = λ q. let (n, d) = f.unused q in (n, keep q n d);
  result = λ t n q. ground (arith, f.result t n q);
}

happens-IsSafe :
    (h : Host) (w : Threads) (x : Event) (e' : TimerThread)
    → happen h x w.engine ≡ some e'
    → IsSafe w
    → IsSafe (record w { engine = e' })
happens-IsSafe h w x e' p v = record {
  valid = happen-IsValid h x w.engine e' v.valid p;
  fits = λ a q found.
      Fits-others q (happen-ids h x w.engine p)
        (λ _ n d. happen-Settled h (own q) n x w.engine e' d p) (v.fits a q found);
  apart = v.apart;
}

-- After a write of one thread's phase: it is the thread's, or of another and as before.
find-moved :
    (a b : ℕ) (p p' q : Phase) (phases : List (ℕ × Phase))
    → find a phases ≡ some p
    → find b (update a (λ _. p') phases) ≡ some q
    → ((b ≡ a) × (q ≡ p')) ⊎ ((b ≢ a) × (find b phases ≡ some q))
find-moved a b p p' q phases found found' =
    let look = find-update b a (λ _. p') phases in
    elim (Bool-cases (b == a)) [
      | inl same ↦ inl ((==_iff b a).0 same, ground (arith, look))
      | inr other ↦ inr (ne_of_==_false b a other, ground (arith, look))
    ]

move-IsSafe :
    (h : Host) (s : Slot) (a : ℕ) (p : Phase) (w : Threads)
    → find a w.phases ≡ some p
    → IsSafe w
    → IsSafe (move h s a p w)
unfolding move
move-IsSafe h s a p w found v =
    let (p', e') = advance h s p w.engine in
    let m : Moves p p' w.engine e' = advance-Moves h s w.engine v.valid p (v.fits a p found) in
    let differs =
      λ (b : ℕ) (q : Phase) (ne : b ≢ a) (f : find b w.phases ≡ some q) (low : 0 < own q).
        elim m.id as (λ _. own q ≢ own p') [
          | inl kept ↦ λ r. v.apart b a q p ne f found low (r ∙ kept)
          | inr taken ↦ λ r. let old = (v.fits b q f).old in omega (arith, old, r, taken)
        ] in
    record {
      valid = m.valid;
      fits = λ b q f. elim (find-moved a b p p' q w.phases found f) [
        | inl (_, r) ↦ rw r m.fits
        | inr (ne, f0) ↦
            Fits-others q m.ids
              (λ w n d.
                m.others (own q) n (differs b q ne f0 ((v.fits b q f0).taken (waits-begun q w))) d)
              (v.fits b q f0)
      ];
      apart = λ b c q r ne fb fc low. elim (find-moved a b p p' q w.phases found fb) [
        | inl (ba, qp) ↦ elim (find-moved a c p p' r w.phases found fc) [
          | inl (ca, rp) ↦ absurd (ne (ba ∙ sym ca))
          | inr (cne, fc0) ↦ λ x. differs c r cne fc0 (omega (arith, low, x)) (sym x ∙ ap own qp)
        ]
        | inr (bne, fb0) ↦ elim (find-moved a c p p' r w.phases found fc) [
          | inl (ca, rp) ↦ rw rp (differs b q bne fb0 low)
          | inr (cne, fc0) ↦ v.apart b c q r ne fb0 fc0 low
        ]
      ];
    }

Step-IsSafe : (h : Host) {w w' : Threads} → Step h w w' → IsSafe w → IsSafe w'
Step-IsSafe h {w} (moves s a p found q) v = rw q (move-IsSafe h s a p w found v)
Step-IsSafe h {w} (happens x e' p q) v = rw q (happens-IsSafe h w x e' p v)

Starts-IsSafe : (w : Threads) → Starts w → IsSafe w
Starts-IsSafe w (q, all) =
    let none_yet = λ (a : ℕ) (p : Phase) (f : find a w.phases ≡ some p). (all a p f).1 in
    record {
      valid = rw q new_engine-IsValid;
      fits = λ a p f.
          rw (none_yet a p f)
            (record { old = omega arith; taken = λ r. cc; unused = λ r. cc; result = λ t n r. cc });
      apart = λ a b p p' ne f f' low. absurd (ground (arith, none_yet a p f));
    }

Reach-IsSafe : (h : Host) {w w' : Threads} → Starts w → Reach h w w' → IsSafe w'
Reach-IsSafe h {w} st here = Starts-IsSafe w st
Reach-IsSafe h st (next r step) = Step-IsSafe h step (Reach-IsSafe h st r)

-- From a new engine, with any number of threads that register statement by statement, in any order,
-- between whole calls and passes: the two maps stay valid; of two threads that have returned, the
-- timers have different ids; and what a thread has returned is no less than its own timer's id, and
-- an id that was handed out.
pub registrations_safe :
    (h : Host) {w w' : Threads}
    → Starts w
    → Reach h w w'
    → IsValid w'.engine
      × ((a b : ℕ) (t u : ETimer) (n m : ℕ)
          → a ≢ b
          → find a w'.phases ≡ some (returned t n)
          → find b w'.phases ≡ some (returned u m)
          → t.timer_id ≢ u.timer_id)
      × ((a : ℕ) (t : ETimer) (n : ℕ)
          → find a w'.phases ≡ some (returned t n)
          → (t.timer_id ≤ n) × (n ≤ w'.engine.cur_timer_id))
registrations_safe h st r =
    let v = Reach-IsSafe h st r in
    (
      v.valid,
      λ a b t u n m ne f g.
          v.apart a b (returned t n) (returned u m) ne f g ((v.fits a (returned t n) f).taken refl),
      λ a t n f. (v.fits a (returned t n) f).result t n refl,
    )
