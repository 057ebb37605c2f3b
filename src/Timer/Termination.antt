-- ===== src/Timer/Termination.antt =====
-- When a loop of `Update` ends.
use qing.Common.{
  ℕ, zero, suc, ◌≤◌, ◌<◌, ◌≡◌, refl, inl, inr, Option, none, some, List, [], ◌∷◌, arith, along_some,
  Option-cases, Bool-cases, length,
}
use qing.Common.OrdMap.{find, erase, update, begin, next, ahead, ahead-next, ahead-begin}
use qing.Timer.Defs.{
  ETimer, Slot, slot1, slot2, TimerThread, table, over, Call, register, register_by_mil_sec,
  unregister, Host, unregister_timer, restarted, apply_call, apply_calls, rearm, fire, visit_node,
  visit, get_clock, sweep, update_all,
}
use qing.Timer.Tables.{table_eq}
use qing.Timer.Register.{
  enrolled, timer_of, register_sec-landed, register_milsec-landed, sec_interval, milsec_interval,
}
use qing.Timer.Visit.{is_due, read_once}
use qing.Timer.Growth.{
  Spares, AllSpare, Shrinks, Shrinks-same, Shrinks-trans, Shrinks-update, Shrinks-erase,
  enrolled-Shrinks, unregister_timer-Shrinks,
}

-- A computation that returns an engine in which the map `s` has not grown.
abbrev pub Returns : Slot → TimerThread → Option TimerThread → Type 0
Returns s e r = (e' : TimerThread) × (r ≡ some e') × Shrinks s e e'

module _ (h : Host) (s : Slot) where
  apply_call-Returns : (c : Call) (e : TimerThread) → Spares s c → Returns s e (apply_call h c e)
  unfolding apply_call
  apply_call-Returns (register rounds once i fp) e (s', p, ne) =
      let t = timer_of h once (sec_interval i) fp e in
      (
        enrolled s' t e,
        rw (register_sec-landed h rounds once i fp e s' p),
        enrolled-Shrinks s s' t e ne,
      )
  apply_call-Returns (register_by_mil_sec rounds once i fp) e (s', p, ne) =
      let t = timer_of h once (milsec_interval i) fp e in
      (
        enrolled s' t e,
        rw (register_milsec-landed h rounds once i fp e s' p),
        enrolled-Shrinks s s' t e ne,
      )
  apply_call-Returns (unregister k) e x =
      (unregister_timer k e, refl, unregister_timer-Shrinks s k e)

  apply_calls-Returns :
      (cs : List Call) (e : TimerThread) → AllSpare s cs → Returns s e (apply_calls h cs e)
  unfolding apply_calls
  apply_calls-Returns [] e x = (e, refl, Shrinks-same s e e refl)
  apply_calls-Returns (c ∷ cs) e (x, xs) =
      let (e1, p1, s1) = apply_call-Returns c e x in
      let (e2, p2, s2) = apply_calls-Returns cs e1 xs in (e2, rw (p1, p2), Shrinks-trans s1 s2)

  rearm-Shrinks :
      (s' : Slot) (k : ℕ) (t : ETimer) (e : TimerThread) → Shrinks s e (rearm h s' k t e)
  unfolding rearm
  rearm-Shrinks s' k t e =
      let e1 : TimerThread = record e { reads = suc e.reads } in
      let f = restarted (h.clock e.reads) in
      let x =
        Shrinks-trans (Shrinks-same s e e1 (table_eq s e e1 refl refl))
          (Shrinks-update s s' k f e1) in
      elim (Bool-cases t.run_once) [
        | inl once ↦ rw once (Shrinks-trans x (Shrinks-erase s s' k (over s' (update k f) e1)))
        | inr again ↦ rw again x
      ]

  module _ (spared : (fp n : ℕ) → AllSpare s (h.actions fp n)) where
    fire-Returns :
        (s' : Slot) (k : ℕ) (t : ETimer) (e : TimerThread) → Returns s e (fire h s' k t e)
    unfolding fire
    fire-Returns s' k t e =
        let c : TimerThread = record e { fired = k ∷ e.fired } in
        let (e1, p, x) = apply_calls-Returns (h.actions t.fp e.reads) c (spared t.fp e.reads) in
        (
          rearm h s' k t e1,
          rw p,
          Shrinks-trans (Shrinks-same s e c (table_eq s e c refl refl))
              (Shrinks-trans x (rearm-Shrinks s' k t e1)),
        )

    visit-Returns : (s' : Slot) (k : ℕ) (e : TimerThread) → Returns s e (visit h s' k e)
    unfolding visit visit_node get_clock
    visit-Returns s' k e =
        let e1 : TimerThread = read_once e in
        let same = Shrinks-same s e e1 (table_eq s e e1 refl refl) in
        elim (Option-cases (find k (table s' e))) [
          | inl f ↦ (e, rw (visit, f), Shrinks-same s e e refl)
          | inr (t, f) ↦ elim (Bool-cases t.need_delete) [
            | inl d ↦ (over s' (erase k) e, rw (visit, f, d), Shrinks-erase s s' k e)
            | inr d ↦ elim (Bool-cases (is_due h t e)) [
              | inr w ↦ (e1, rw (visit, f, d, w), same)
              | inl w ↦
                  let (e2, p, x) = fire-Returns s' k t e1 in
                  (e2, ground arith, Shrinks-trans same x)
            ]
          ]
        ]

-- The fuel that a loop needs from the iterator's position on.
abbrev Enough : Option ℕ → List (ℕ × ETimer) → ℕ → Type 0
Enough none m fuel = 0 < fuel
Enough (some k) m fuel = suc (ahead k m) < fuel

Enough-next : (k fuel : ℕ) (m : List (ℕ × ETimer)) → ahead k m < fuel → Enough (next k m) m fuel
Enough-next k fuel m h = elim (Option-cases (next k m)) [
  | inl p ↦ rw p (omega arith)
  | inr (j, p) ↦ rw p (omega (arith, ahead-next k j m p))
]

Enough-begin : (fuel : ℕ) (m : List (ℕ × ETimer)) → length m < fuel → Enough (begin m) m fuel
Enough-begin fuel m h = elim (Option-cases (begin m)) [
  | inl p ↦ rw p (omega arith)
  | inr (k, p) ↦ rw p (omega (arith, ahead-begin k m p))
]

module _ (h : Host) where
  sweep-Returns :
      (s : Slot) (fuel : ℕ) (position : Option ℕ) (e : TimerThread)
      → ((fp n : ℕ) → AllSpare s (h.actions fp n))
      → Enough position (table s e) fuel
      → Returns s e (sweep h s fuel position e)
  unfolding sweep
  sweep-Returns s zero none e spared x = absurd (omega arith)
  sweep-Returns s zero (some k) e spared x = absurd (omega arith)
  sweep-Returns s (suc fuel) none e spared x = (e, refl, Shrinks-same s e e refl)
  sweep-Returns s (suc fuel) (some k) e spared x =
      let (e1, p1, s1) = visit-Returns h s spared s k e in
      let (e2, p2, s2) =
        sweep-Returns s fuel (next k (table s e1)) e1 spared
          (Enough-next k fuel (table s e1) (omega (arith, s1.in_front k))) in
      (e2, rw (p1, p2), Shrinks-trans s1 s2)

  -- A loop over one map leaves the other no longer than it was, if the callbacks spare that one.
  sweep-Shrinks :
      (s s' : Slot) (fuel : ℕ) (position : Option ℕ) (e : TimerThread) {e' : TimerThread}
      → ((fp n : ℕ) → AllSpare s (h.actions fp n))
      → sweep h s' fuel position e ≡ some e'
      → Shrinks s e e'
  unfolding sweep
  sweep-Shrinks s s' zero position e spared p = cc
  sweep-Shrinks s s' (suc fuel) none e {e'} spared p =
      along_some (Shrinks s e) e e' p (Shrinks-same s e e refl)
  sweep-Shrinks s s' (suc fuel) (some k) e {e'} spared p =
      let (e1, p1, s1) = visit-Returns h s spared s' k e in
      Shrinks-trans s1 (sweep-Shrinks s s' fuel (next k (table s' e1)) e1 spared (rw p1 at p))

  -- A loop of `Update` ends, with as many rounds as the map has nodes and one more, and leaves the
  -- map no longer than it was, if no callback calls `Update`, and every call of every callback comes
  -- back and puts no timer into the map that the loop goes over.
  pub sweep_terminates :
      (s : Slot) (fuel : ℕ) (e : TimerThread)
      → ((fp n : ℕ) → AllSpare s (h.actions fp n))
      → length (table s e) < fuel
      → (e' : TimerThread) × (sweep h s fuel (begin (table s e)) e ≡ some e')
        × (length (table s e') ≤ length (table s e))
  sweep_terminates s fuel e spared x =
      let (e', p, shrinks) =
        sweep-Returns s fuel (begin (table s e)) e spared (Enough-begin fuel (table s e) x) in
      (e', p, shrinks.in_all)

  -- A pass of `Update` ends, in as many rounds of each loop as its map has nodes and one more, if
  -- the callbacks put timers into neither map.
  pub update_all_terminates :
      (fuel : ℕ) (e : TimerThread)
      → ((s : Slot) (fp n : ℕ) → AllSpare s (h.actions fp n))
      → ((s : Slot) → length (table s e) < fuel)
      → (e' : TimerThread) × (update_all h fuel e ≡ some e')
  unfolding update_all
  update_all_terminates fuel e spared x =
      let (e1, p1, _) = sweep_terminates slot1 fuel e (spared slot1) (x slot1) in
      let shrinks = sweep-Shrinks slot2 slot1 fuel (begin (table slot1 e)) e (spared slot2) p1 in
      let (e2, p2, _) =
        sweep_terminates slot2 fuel e1 (spared slot2) (omega (arith, x slot2, shrinks.in_all)) in
      (e2, rw (p1, p2))
