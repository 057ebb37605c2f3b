-- ===== src/Timer/Reference.antt =====
-- `Update` against a walk over the two maps, for callbacks that call nothing of the engine.
use mathlib.Core.List.{append_assoc}
use qing.Common.{
  ℕ, zero, suc, ◌<◌, ◌≡◌, refl, sym, ap, ◌∙◌, inl, inr, true, false, some, List, [], ◌∷◌, ◌++◌,
  arith, Bool-cases, length,
}
use qing.Common.OrdMap.{
  begin, IsSorted, Below, Below-mono, Below-append, find-append, erase-append, update-append,
  next-append,
}
use qing.Timer.Defs.{
  ETimer, Slot, slot1, slot2, TimerThread, table, over, restarted, Host, get_clock, apply_calls,
  rearm, fire, visit_node, visit, sweep, update_all,
}
use qing.Timer.Walk.{
  Walked, keeping, with_table, due_at, walk, walk_marked, walk_waiting, walk_once, walk_again,
}

module _ (h : Host) (quiet : (fp n : ℕ) → h.actions fp n ≡ []) where
  -- One visit, by the state of the node.
  module _ (k n : ℕ) (t : ETimer) (m m' : List (ℕ × ETimer)) (log : List ℕ) (e : TimerThread)
      (b : Below k m) where
    visit_marked :
        (s : Slot)
        → t.need_delete ≡ true
        → visit h s k (with_table s (m ++ (k, t) ∷ m') n log e)
          ≡ some (with_table s (m ++ m') n log e)
    unfolding visit visit_node table over
    visit_marked slot1 d =
        let f = find-append k t m m' b in let q = erase-append k t m m' b in ground arith
    visit_marked slot2 d =
        let f = find-append k t m m' b in let q = erase-append k t m m' b in ground arith

    visit_waiting :
        (s : Slot)
        → t.need_delete ≡ false
        → due_at h n t ≡ false
        → visit h s k (with_table s (m ++ (k, t) ∷ m') n log e)
          ≡ some (with_table s (m ++ (k, t) ∷ m') (suc n) log e)
    unfolding visit visit_node table get_clock
    visit_waiting slot1 d w = let f = find-append k t m m' b in ground arith
    visit_waiting slot2 d w = let f = find-append k t m m' b in ground arith

    visit_once :
        (s : Slot)
        → t.need_delete ≡ false
        → due_at h n t ≡ true
        → t.run_once ≡ true
        → visit h s k (with_table s (m ++ (k, t) ∷ m') n log e)
          ≡ some (with_table s (m ++ m') (suc (suc n)) (k ∷ log) e)
    unfolding visit visit_node table over get_clock fire rearm apply_calls
    visit_once slot1 d w once =
        let f = find-append k t m m' b in
        let u = update-append k (restarted (h.clock (suc n))) t m m' b in
        let q = erase-append k (restarted (h.clock (suc n)) t) m m' b in
        let none_called = quiet t.fp (suc n) in ground arith
    visit_once slot2 d w once =
        let f = find-append k t m m' b in
        let u = update-append k (restarted (h.clock (suc n))) t m m' b in
        let q = erase-append k (restarted (h.clock (suc n)) t) m m' b in
        let none_called = quiet t.fp (suc n) in ground arith

    visit_again :
        (s : Slot)
        → t.need_delete ≡ false
        → due_at h n t ≡ true
        → t.run_once ≡ false
        → visit h s k (with_table s (m ++ (k, t) ∷ m') n log e)
          ≡ some (
              with_table s (m ++ (k, restarted (h.clock (suc n)) t) ∷ m') (suc (suc n)) (k ∷ log) e)
    unfolding visit visit_node table over get_clock fire rearm apply_calls
    visit_again slot1 d w again =
        let f = find-append k t m m' b in
        let u = update-append k (restarted (h.clock (suc n))) t m m' b in
        let none_called = quiet t.fp (suc n) in ground arith
    visit_again slot2 d w again =
        let f = find-append k t m m' b in
        let u = update-append k (restarted (h.clock (suc n))) t m m' b in
        let none_called = quiet t.fp (suc n) in ground arith

  table-with_table :
      (s : Slot) (m : List (ℕ × ETimer)) (n : ℕ) (log : List ℕ) (e : TimerThread)
      → table s (with_table s m n log e) ≡ m
  unfolding table
  table-with_table slot1 m n log e = refl
  table-with_table slot2 m n log e = refl

  -- The iterator goes on to the first of the nodes that it has not seen.
  sweep_on :
      (s : Slot) (fuel k n : ℕ) (d m : List (ℕ × ETimer)) (log : List ℕ) (e e' : TimerThread)
      → Below (suc k) d
      → IsSorted (suc k) m
      → visit h s k e' ≡ some (with_table s (d ++ m) n log e)
      → sweep h s (suc fuel) (some k) e' ≡ sweep h s fuel (begin m) (with_table s (d ++ m) n log e)
  unfolding sweep
  sweep_on s fuel k n d m log e e' b sorted p =
      rw (p, table-with_table s (d ++ m) n log e, next-append k d m b sorted)

  -- A node that stays is one of those behind the iterator from then on.
  sweep_past :
      (s : Slot) (fuel k n : ℕ) (t : ETimer) (d m : List (ℕ × ETimer)) (log : List ℕ)
      (e e' : TimerThread)
      → Below k d
      → IsSorted (suc k) m
      → visit h s k e' ≡ some (with_table s (d ++ (k, t) ∷ m) n log e)
      → sweep h s (suc fuel) (some k) e'
        ≡ sweep h s fuel (begin m) (with_table s ((d ++ (k, t) ∷ []) ++ m) n log e)
  sweep_past s fuel k n t d m log e e' b sorted p =
      sweep_on s fuel k n (d ++ (k, t) ∷ []) m log e e'
        (Below-append (suc k) d ((k, t) ∷ []) (Below-mono k (suc k) d (omega arith) b)
          (omega arith, tt))
        sorted (rw (append_assoc d ((k, t) ∷ []) m) p)

  after : Slot → List (ℕ × ETimer) → Walked → TimerThread → TimerThread
  after s d w e = with_table s (d ++ w.nodes) w.reads w.log e

  -- A node that stays is the next of those behind the iterator.
  after-keeping :
      (s : Slot) (k : ℕ) (t : ETimer) (d : List (ℕ × ETimer)) (w : Walked) (e : TimerThread)
      → after s (d ++ (k, t) ∷ []) w e ≡ after s d (keeping k t w) e
  unfolding after
  after-keeping s k t d w e =
      ap (λ m. with_table s m w.reads w.log e) (append_assoc d ((k, t) ∷ []) w.nodes)

  sweep-walk :
      (s : Slot) (fuel lo n : ℕ) (d m : List (ℕ × ETimer)) (log : List ℕ) (e : TimerThread)
      → Below lo d
      → IsSorted lo m
      → length m < fuel
      → sweep h s fuel (begin m) (with_table s (d ++ m) n log e)
        ≡ some (after s d (walk h m n log) e)
  unfolding begin
  sweep-walk s zero lo n d m log e b sorted lt = absurd (omega arith)
  sweep-walk s (suc fuel) lo n d [] log e b sorted lt = unfold sweep walk after in refl
  sweep-walk s (suc fuel) lo n d ((k, t) ∷ m) log e b sorted lt =
      let c = Below-mono lo k d sorted.0 b in
      let c' = Below-mono k (suc k) d (omega arith) c in
      let c1 = λ (t : ETimer). Below-append (suc k) d ((k, t) ∷ []) c' (omega arith, tt) in
      let t' : ETimer = restarted (h.clock (suc n)) t in
      let e' = with_table s (d ++ (k, t) ∷ m) n log e in
      let to = λ (w : Walked). some (after s d w e) in
      elim (Bool-cases t.need_delete) [
        | inl mark ↦
            sweep_on s fuel k n d m log e e' c' sorted.1 (visit_marked k n t d m log e c s mark)
            ∙ sweep-walk s fuel (suc k) n d m log e c' sorted.1 (omega arith)
            ∙ ap to (sym (walk_marked h k n t m log mark))
        | inr live ↦ elim (Bool-cases (due_at h n t)) [
          | inr wait ↦
              sweep_past s fuel k (suc n) t d m log e e' c sorted.1
                (visit_waiting k n t d m log e c s live wait)
              ∙ sweep-walk s fuel (suc k) (suc n) (d ++ (k, t) ∷ []) m log e (c1 t) sorted.1
                  (omega arith)
              ∙ ap some (after-keeping s k t d (walk h m (suc n) log) e)
              ∙ ap to (sym (walk_waiting h k n t m log live wait))
          | inl due ↦ elim (Bool-cases t.run_once) [
            | inl once ↦
                sweep_on s fuel k (suc (suc n)) d m (k ∷ log) e e' c' sorted.1
                  (visit_once k n t d m log e c s live due once)
                ∙ sweep-walk s fuel (suc k) (suc (suc n)) d m (k ∷ log) e c' sorted.1 (omega arith)
                ∙ ap to (sym (walk_once h k n t m log live due once))
            | inr again ↦
                sweep_past s fuel k (suc (suc n)) t' d m (k ∷ log) e e' c sorted.1
                  (visit_again k n t d m log e c s live due again)
                ∙ sweep-walk s fuel (suc k) (suc (suc n)) (d ++ (k, t') ∷ []) m (k ∷ log) e (c1 t')
                    sorted.1 (omega arith)
                ∙ ap some (after-keeping s k t' d (walk h m (suc (suc n)) (k ∷ log)) e)
                ∙ ap to (sym (walk_again h k n t m log live due again))
          ]
        ]
      ]

  -- `Update`, with enough fuel for the nodes of each map, whose keys rise, is a walk over the first
  -- map and then one over the second, if the callbacks call nothing of the engine.
  pub update_all-walk :
      (fuel : ℕ) (e : TimerThread)
      → IsSorted 1 e.timers1
      → IsSorted 1 e.timers2
      → length e.timers1 < fuel
      → length e.timers2 < fuel
      → let w1 = walk h e.timers1 e.reads e.fired in
        let w2 = walk h e.timers2 w1.reads w1.log in
        update_all h fuel e
        ≡ some
            (record e { timers1 = w1.nodes; timers2 = w2.nodes; reads = w2.reads; fired = w2.log })
  unfolding update_all table after
  update_all-walk fuel e s1 s2 l1 l2 =
      let w1 = walk h e.timers1 e.reads e.fired in
      let e1 = with_table slot1 w1.nodes w1.reads w1.log e in
      let first = sweep-walk slot1 fuel 1 e.reads [] e.timers1 e.fired e tt s1 l1 in
      let second = sweep-walk slot2 fuel 1 w1.reads [] e.timers2 w1.log e1 tt s2 l2 in
      rw first second
