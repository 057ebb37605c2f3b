-- ===== src/Timer/Valid.antt =====
-- The invariant of the engine's two maps, and that every operation keeps it.
use qing.Common.{
  ℕ, suc, ◌≤◌, ◌<◌, ◌≡◌, refl, sym, ◌∙◌, ◌≢◌, inl, inr, true, none, some, List, arith, ◌==◌,
  Option-cases, if◌then◌else◌,
}
use qing.Common.OrdMap.{
  find, insert, erase, update, IsSorted, insert-IsSorted, erase-IsSorted, update-IsSorted,
  find-erase, find-update, find-insert,
}
use qing.Timer.Defs.{ETimer, Slot, slot1, slot2, TimerThread, table, over, unregister_timer}
use qing.Timer.Tables.{table-over_self, table-over_ne, over_rest, table_eq, Slot-cases}

-- The keys of each map rise, are the ids of their timers and have been handed out, and no id
-- stands in both maps.
pub record IsValid (e : TimerThread) : Type 0 where
  pub sorted : (s : Slot) → IsSorted 1 (table s e)
  pub fresh : (s : Slot) (k : ℕ) → e.cur_timer_id < k → find k (table s e) ≡ none
  pub apart :
      (s s' : Slot) (k : ℕ) (t : ETimer)
      → s ≢ s'
      → find k (table s e) ≡ some t
      → find k (table s' e) ≡ none
  pub named : (s : Slot) (k : ℕ) (t : ETimer) → find k (table s e) ≡ some t → t.timer_id ≡ k

-- A write to one map that brings in no new key.
module _ (e : TimerThread) (s : Slot) (f : List (ℕ × ETimer) → List (ℕ × ETimer)) (v : IsValid e)
    (sorted' : IsSorted 1 (f (table s e)))
    (absent : (k : ℕ) → find k (table s e) ≡ none → find k (f (table s e)) ≡ none)
    (named' : (k : ℕ) (t : ETimer) → find k (f (table s e)) ≡ some t → t.timer_id ≡ k) where
  over_absent :
      (s' : Slot) (k : ℕ) → find k (table s' e) ≡ none → find k (table s' (over s f e)) ≡ none
  over_absent s' k h = elim (Slot-cases s' s) [
    | inl p ↦ rw (p, table-over_self s f e) (absent k (rw p at h))
    | inr p ↦ rw (table-over_ne s' s f e p) h
  ]

  over-IsValid : IsValid (over s f e)
  over-IsValid = record {
    sorted = λ s'. elim (Slot-cases s' s) [
      | inl p ↦ rw (p, table-over_self s f e) sorted'
      | inr p ↦ rw (table-over_ne s' s f e p) (v.sorted s')
    ];
    fresh = λ s' k h. over_absent s' k (v.fresh s' k (rw ((over_rest s f e).0) at h));
    apart = λ s' s'' k t ne found. elim (Option-cases (find k (table s' e))) [
      | inl none_there ↦ cc (over_absent s' k none_there)
      | inr (t', there) ↦ over_absent s'' k (v.apart s' s'' k t' ne there)
    ];
    named = λ s' k t found. elim (Slot-cases s' s) [
      | inl p ↦ named' k t (rw (p, table-over_self s f e) at found)
      | inr p ↦ v.named s' k t (rw (table-over_ne s' s f e p) at found)
    ];
  }

-- Taking a node out.
pub erase-IsValid : (e : TimerThread) (s : Slot) (k : ℕ) → IsValid e → IsValid (over s (erase k) e)
erase-IsValid e s k v =
    over-IsValid e s (erase k) v (erase-IsSorted 1 k (table s e) (v.sorted s))
      (λ j h. ground (arith, find-erase 1 j k (table s e) (v.sorted s)))
      (λ j t h. ground (arith, find-erase 1 j k (table s e) (v.sorted s), v.named s j t))

-- Writing a node, its id left alone.
pub update-IsValid :
    (e : TimerThread) (s : Slot) (k : ℕ) (f : ETimer → ETimer)
    → ((t : ETimer) → (f t).timer_id ≡ t.timer_id)
    → IsValid e
    → IsValid (over s (update k f) e)
update-IsValid e s k f keep v =
    over-IsValid e s (update k f) v (update-IsSorted 1 k f (table s e) (v.sorted s))
      (λ j h. ground (arith, find-update j k f (table s e)))
      (λ j t h. elim (Option-cases (find k (table s e))) [
        | inl e' ↦ ground (arith, find-update j k f (table s e), v.named s j t)
        | inr (t', e') ↦
            ground (arith, find-update j k f (table s e), v.named s j t, v.named s k t' e', keep t')
      ])

-- A timer under an id that was handed out and is in no map.
pub insert_unused-IsValid :
    (e : TimerThread) (s : Slot) (t : ETimer)
    → IsValid e
    → 0 < t.timer_id
    → t.timer_id ≤ e.cur_timer_id
    → ((s' : Slot) → find t.timer_id (table s' e) ≡ none)
    → IsValid (over s (insert t.timer_id t) e)
insert_unused-IsValid e s t v low old unused = record {
  sorted = λ s'. elim (Slot-cases s' s) [
    | inl p ↦
        rw (p, table-over_self s (insert t.timer_id t) e)
          (insert-IsSorted 1 t.timer_id t (table s e) (omega arith) (v.sorted s))
    | inr p ↦ rw (table-over_ne s' s (insert t.timer_id t) e p) (v.sorted s')
  ];
  fresh = λ s' k h.
      let late : e.cur_timer_id < k = rw ((over_rest s (insert t.timer_id t) e).0) at h in
      elim (Slot-cases s' s) [
        | inl p ↦ rw p (ground (arith, look_same k, v.fresh s k))
        | inr p ↦ rw (look_other s' k p) (v.fresh s' k late)
      ];
  apart = λ s' s'' k a ne found. elim (Slot-cases s' s) [
    | inl p ↦
        rw (look_other s'' k (λ q. ne (p ∙ sym q)))
          (ground (arith, look_same k, unused s'', v.apart s s'' k a, rw p at found, rw p at ne))
    | inr p ↦
        let there = rw (look_other s' k p) at found in
        elim (Slot-cases s'' s) [
          | inl q ↦
              rw q (ground (arith, look_same k, unused s', v.apart s' s k a (rw q at ne) there))
          | inr q ↦ rw (look_other s'' k q) (v.apart s' s'' k a ne there)
        ]
  ];
  named = λ s' k a found. elim (Slot-cases s' s) [
    | inl p ↦ ground (arith, look_same k, v.named s k a, rw p at found)
    | inr p ↦ v.named s' k a (rw (look_other s' k p) at found)
  ];
}
  where
    look_same :
        (k : ℕ)
        → find k (table s (over s (insert t.timer_id t) e))
          ≡ (if k == t.timer_id then some t else find k (table s e))
    look_same k =
        rw (table-over_self s (insert t.timer_id t) e)
          (find-insert 1 k t.timer_id t (table s e) (v.sorted s) (unused s))

    look_other :
        (s' : Slot) (k : ℕ)
        → s' ≢ s
        → find k (table s' (over s (insert t.timer_id t) e)) ≡ find k (table s' e)
    look_other s' k p = rw (table-over_ne s' s (insert t.timer_id t) e p) refl

-- The same maps after ids were handed out.
pub later-IsValid :
    (e e' : TimerThread)
    → e'.timers1 ≡ e.timers1
    → e'.timers2 ≡ e.timers2
    → e.cur_timer_id ≤ e'.cur_timer_id
    → IsValid e
    → IsValid e'
later-IsValid e e' h1 h2 hc v =
    let same = λ (s : Slot). table_eq s e e' h1 h2 in
    record {
      sorted = λ s. rw (same s) (v.sorted s);
      fresh = λ s k late. rw (same s) (v.fresh s k (omega arith));
      apart = λ s s' k t ne found. rw (same s') (v.apart s s' k t ne (rw (same s) at found));
      named = λ s k t found. v.named s k t (rw (same s) at found);
    }

-- A timer under the next id.
pub insert-IsValid :
    (e e' : TimerThread) (s : Slot) (t : ETimer)
    → IsValid e
    → e'.timers1 ≡ e.timers1
    → e'.timers2 ≡ e.timers2
    → e'.cur_timer_id ≡ suc e.cur_timer_id
    → t.timer_id ≡ suc e.cur_timer_id
    → IsValid (over s (insert t.timer_id t) e')
insert-IsValid e e' s t v h1 h2 hc ht =
    insert_unused-IsValid e' s t (later-IsValid e e' h1 h2 (omega arith) v) (omega arith)
      (omega arith) (λ s'. rw (table_eq s' e e' h1 h2) (v.fresh s' t.timer_id (omega arith)))

pub unregister_timer-IsValid :
    (k : ℕ) (e : TimerThread) → IsValid e → IsValid (unregister_timer k e)
unfolding unregister_timer
unregister_timer-IsValid k e v = ground (
  arith,
  update-IsValid e slot2 k (λ t. record t { need_delete = true }) (λ t. refl) v,
  update-IsValid e slot1 k (λ t. record t { need_delete = true }) (λ t. refl) v,
)
