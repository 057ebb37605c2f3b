-- ===== src/Timer/Order.antt =====
-- In which order a pass of `Update` runs the timers, and how often.
use qing.Common.{
  ℕ, zero, suc, ◌≤◌, ◌<◌, ◌≡◌, refl, sym, ap, leb, leb→le, ◌∙◌, ◌⊎◌, inl, inr, Option, none, some,
  List, [], ◌∷◌, arith, along_some, Option-cases, Bool-cases, ◌==◌, ==_iff, ne_of_==_false, count,
}
use qing.Common.OrdMap.{find, erase, next, begin, next-lt}
use qing.Timer.Tables.{over_rest, Slot-cases}
use qing.Timer.Defs.{ETimer, Slot, slot1, slot2, TimerThread, table, Host, sweep, update_all}
use qing.Timer.Visit.{
  Visited, missing, deleted, waiting, fires, sweep-step, sweep-keeps, update_all-loops,
}
use qing.Timer.Valid.{IsValid}
use qing.Timer.Preserve.{Visited-IsValid}
use qing.Timer.Frame.{Carried-none}
use qing.Timer.Passes.{Visited-Passes, Visited-missing}
use qing.Timer.Deleted.{Passes-count}
use qing.Timer.Rising.{logged, Rises, Rises-mono, count-Rises, count-logged}

-- An iterator that stands at `lo` or behind it.
abbrev From : ℕ → Option ℕ → Type 0
From lo none = Unit {0}
From lo (some k) = lo ≤ k

From-next : (k : ℕ) {V : Type 0} (m : List (ℕ × V)) → From (suc k) (next k m)
From-next k m = elim (Option-cases (next k m)) [
  | inl p ↦ rw p tt
  | inr (j, p) ↦ rw p (next-lt k j m p)
]

From-zero : (position : Option ℕ) → From 0 position
From-zero none = tt
From-zero (some k) = omega arith

-- The id was handed out, and is not in the map `s`.
record IsAbsent (s : Slot) (k : ℕ) (e : TimerThread) : Type 0 where
  old : k ≤ e.cur_timer_id
  out : find k (table s e) ≡ none

module _ (h : Host) where
  sweep-logged :
      (s : Slot) (lo fuel : ℕ) (position : Option ℕ) (e : TimerThread) {e' : TimerThread}
      → From lo position
      → sweep h s fuel position e ≡ some e'
      → (ran : List ℕ) × (e'.fired ≡ logged ran e.fired) × Rises lo ran
  sweep-logged s lo zero position e from p = unfold sweep in cc p
  sweep-logged s lo (suc fuel) none e {e'} from p =
      unfold sweep in ([], along_some (λ x. x.fired ≡ e.fired) e e' p refl, tt)
  sweep-logged s lo (suc fuel) (some k) e from p =
      let (e1, vis, p') = sweep-step h s fuel k e p in
      let (ran, log, rises) =
        sweep-logged s (suc k) fuel (next k (table s e1)) e1 (From-next k (table s e1)) p' in
      elim (Visited-Passes h vis).log [
        | inl q ↦ (ran, log ∙ ap (logged ran) q, Rises-mono lo (suc k) ran (omega arith) rises)
        | inr q ↦ (k ∷ ran, log ∙ ap (logged ran) q, (from, rises))
      ]

  visit-IsAbsent :
      {s s' : Slot} {j k : ℕ} {e e' : TimerThread}
      → IsAbsent s k e
      → Visited h s' j e e'
      → IsAbsent s k e'
  visit-IsAbsent {s} {s'} {j} {k} {e} a vis =
      let p = Visited-Passes h vis in
      elim (Bool-cases (k == j)) [
        | inr other ↦ record {
          old = omega (arith, a.old, p.ids);
          out = Carried-none (rw a.out at (p.carries s k a.old (λ _. ne_of_==_false k j other)));
        }
        | inl same ↦ elim (Slot-cases s' s) [
          | inl q ↦ rw (Visited-missing h vis (rw (q, ← (==_iff k j).0 same) a.out)) a
          | inr q ↦ record {
            old = omega (arith, a.old, p.ids);
            out = Carried-none (rw a.out at (p.carries s k a.old (λ r. absurd (q (sym r)))));
          }
        ]
      ]

  -- A visit that logs a run of its timer finds it in its map.
  visit-found :
      {s : Slot} {k : ℕ} {e e' : TimerThread}
      → IsValid e
      → Visited h s k e e'
      → (e'.fired ≡ e.fired)
        ⊎ ((k ≤ e.cur_timer_id) × ((t : ETimer) × (find k (table s e) ≡ some t)))
  visit-found v (missing f q) = inl (ap (λ x. x.fired) q)
  visit-found {s} {k} {e} v (deleted t f m q) =
      inl (ap (λ x. x.fired) q ∙ (over_rest s (erase k) e).2)
  visit-found v (waiting t f m w q) = inl (ap (λ x. x.fired) q)
  visit-found {s} {k} {e} v (fires t e1 f m w p q) = elim (Bool-cases (leb k e.cur_timer_id)) [
    | inl old ↦ inr (leb→le k e.cur_timer_id old, (t, f))
    | inr new ↦ cc (v.fresh s k (ground arith))
  ]

-- What the loop over the first map keeps: the id has run as often as at first, or is not in the
-- second map.
abbrev RunsFirst : ℕ → ℕ → TimerThread → Type 0
RunsFirst k n e = IsValid e × ((count k e.fired ≡ n) ⊎ IsAbsent slot2 k e)

module _ (h : Host) (k : ℕ) where
  visit-RunsFirst :
      (n j : ℕ) (e e' : TimerThread) → RunsFirst k n e → Visited h slot1 j e e' → RunsFirst k n e'
  visit-RunsFirst n j e e' (v, inr a) vis = (Visited-IsValid h vis v, inr (visit-IsAbsent h a vis))
  visit-RunsFirst n j e e' (v, inl c) vis = (
    Visited-IsValid h vis v,
    elim (Bool-cases (k == j)) [
      | inr other ↦ inl (Passes-count h (Visited-Passes h vis) (ne_of_==_false k j other) ∙ c)
      | inl same ↦ elim (visit-found h v vis) [
        | inl q ↦ inl (ap (count k) q ∙ c)
        | inr (old, (t, f)) ↦
            let a : IsAbsent slot2 j e = record {
              old = old;
              out = v.apart slot1 slot2 j t (λ q. cc) f;
            } in
            inr (visit-IsAbsent h (rw (← (==_iff k j).0 same) at a) vis)
      ]
    ],
  )

  visit-absent_count :
      (s : Slot) (j : ℕ) (e e' : TimerThread)
      → IsAbsent s k e
      → Visited h s j e e'
      → count k e'.fired ≡ count k e.fired
  visit-absent_count s j e e' a vis = elim (Bool-cases (k == j)) [
    | inr other ↦ Passes-count h (Visited-Passes h vis) (ne_of_==_false k j other)
    | inl same ↦
        ap (λ x. count k x.fired) (Visited-missing h vis (rw ((==_iff k j).0 same) at a.out))
  ]

  -- A loop over a map that the id is not in does not run it.
  sweep-IsAbsent :
      (s : Slot) (fuel : ℕ) (position : Option ℕ) (e : TimerThread) {e' : TimerThread}
      → IsAbsent s k e
      → sweep h s fuel position e ≡ some e'
      → count k e'.fired ≡ count k e.fired
  sweep-IsAbsent s fuel position e a p =
      (sweep-keeps h s (λ x. IsAbsent s k x × (count k x.fired ≡ count k e.fired))
        (λ j x x' (b, c) vis. (visit-IsAbsent h b vis, visit-absent_count s j x x' b vis ∙ c)) fuel
        position e (a, refl) p).1

-- Where an id that ran comes from: the map held it at first, or it was handed out since.
abbrev pub ComesFrom : Slot → ℕ → TimerThread → List ℕ → Type 0
ComesFrom s k e ran =
    (count k ran ≡ 0) ⊎ ((e.cur_timer_id < k) ⊎ ((t : ETimer) × (find k (table s e) ≡ some t)))

ComesFrom-cases :
    (s : Slot) (k : ℕ) (e : TimerThread) (ran : List ℕ)
    → (IsAbsent s k e → count k ran ≡ 0)
    → ComesFrom s k e ran
ComesFrom-cases s k e ran none_ran = elim (Bool-cases (leb k e.cur_timer_id)) [
  | inr new ↦ inr (inl (ground arith))
  | inl old ↦ elim (Option-cases (find k (table s e))) [
    | inl out ↦ inl (none_ran (record { old = leb→le k e.cur_timer_id old; out = out }))
    | inr there ↦ inr (inr there)
  ]
]

module _ (h : Host) where
  -- In a valid engine, whatever calls of `Register`, `RegisterByMilSec` and `UnRegister` the
  -- callbacks make, if none calls `Update`: a pass of `Update` that ends has run timers in
  -- the order of their ids, and then timers in the order of theirs again, and no id more than once.
  -- The first of them were in the first map when the pass began, the others in the second, or they
  -- were handed out since.
  pub update_all-logged :
      (fuel : ℕ) (e : TimerThread) {e' : TimerThread}
      → IsValid e
      → update_all h fuel e ≡ some e'
      → (ran1 ran2 : List ℕ) × (e'.fired ≡ logged ran2 (logged ran1 e.fired))
        × Rises 0 ran1
        × Rises 0 ran2
        × ((k : ℕ)
            → (count k e'.fired ≤ suc (count k e.fired))
              × ComesFrom slot1 k e ran1
              × ComesFrom slot2 k e ran2)
  update_all-logged fuel e {e'} v p =
      let (e1, p1, p2) = update_all-loops h fuel e p in
      let (ran1, log1, rises1) =
        sweep-logged h slot1 0 fuel (begin (table slot1 e)) e (From-zero _) p1 in
      let (ran2, log2, rises2) =
        sweep-logged h slot2 0 fuel (begin (table slot2 e1)) e1 (From-zero _) p2 in
      (
        ran1,
        ran2,
        log2 ∙ ap (logged ran2) log1,
        rises1,
        rises2,
        λ k.
            let counts1 = ap (count k) log1 ∙ count-logged k ran1 e.fired in
            let counts2 = ap (count k) log2 ∙ count-logged k ran2 e1.fired in
            let once1 = count-Rises k 0 ran1 rises1 in
            let once2 = count-Rises k 0 ran2 rises2 in
            let first =
              sweep-keeps h slot1 (RunsFirst k (count k e.fired))
                (visit-RunsFirst h k (count k e.fired)) fuel (begin (table slot1 e)) e (v, inl refl)
                p1 in
            let absent = λ (a : IsAbsent slot2 k e1).
              sweep-IsAbsent h k slot2 fuel (begin (table slot2 e1)) e1 a p2 in
            (
              elim first.1 [
                | inl c ↦ omega (arith, counts2, once2, c)
                | inr a ↦ omega (arith, counts1, once1, absent a)
              ],
              ComesFrom-cases slot1 k e ran1 (λ a.
                  omega
                    (arith, counts1, sweep-IsAbsent h k slot1 fuel (begin (table slot1 e)) e a p1)),
              ComesFrom-cases slot2 k e ran2 (λ a. omega (
                arith,
                counts2,
                absent (
                    sweep-keeps h slot1 (IsAbsent slot2 k) (λ j x x' b vis. visit-IsAbsent h b vis)
                      fuel (begin (table slot1 e)) e a p1),
              )),
            ),
      )
