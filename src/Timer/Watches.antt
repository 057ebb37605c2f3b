-- ===== src/Timer/Watches.antt =====
-- What the stop watches measure.
use qing.Common.{
  ℕ, ◌+◌, ◌-◌, ◌^◌, ◌≤◌, ◌<◌, ◌≡◌, sym, ap, ◌∙◌, ◌≢◌, some, List, arith, Option-cases, inl, inr,
}
use qing.Common.OrdMap.{
  find, insert, IsSorted, insert-IsSorted, update-IsSorted, find-insert_ne, find-insert_self,
  find-update_self, find-update_ne, insert_present,
}
use qing.Timer.FunTime.{
  SFunTime, new_fun_time, begun, ended, fun_time_test_begin, fun_time_test_end, entry, or_new,
  measured,
}

find-insert-entry :
    (name : ℕ) (m : List (ℕ × SFunTime))
    → IsSorted 0 m
    → find name (insert name new_fun_time m) ≡ some (entry name m)
find-insert-entry name m s = elim (Option-cases (find name m)) [
  | inl e ↦ find-insert_self 0 name new_fun_time m s e ∙ ap (λ o. some (or_new o)) (sym e)
  | inr (w, e) ↦
      rw (insert_present 0 name new_fun_time w m s e) (e ∙ ap (λ o. some (or_new o)) (sym e))
]

begin-IsSorted :
    (clock name : ℕ) (m : List (ℕ × SFunTime))
    → IsSorted 0 m
    → IsSorted 0 (fun_time_test_begin clock name m)
unfolding fun_time_test_begin
begin-IsSorted clock name m s =
    update-IsSorted 0 name (begun clock) (insert name new_fun_time m)
      (insert-IsSorted 0 name new_fun_time m (omega arith) s)

find-begin :
    (clock name : ℕ) (m : List (ℕ × SFunTime))
    → IsSorted 0 m
    → find name (fun_time_test_begin clock name m) ≡ some (begun clock (entry name m))
unfolding fun_time_test_begin
find-begin clock name m s = ground (
  arith,
  find-update_self name (begun clock) (insert name new_fun_time m),
  find-insert-entry name m s,
)

find-end :
    (clock name : ℕ) (m : List (ℕ × SFunTime))
    → IsSorted 0 m
    → find name (fun_time_test_end clock name m) ≡ some (ended clock (entry name m))
unfolding fun_time_test_end
find-end clock name m s = ground (
  arith,
  find-update_self name (ended clock) (insert name new_fun_time m),
  find-insert-entry name m s,
)

find-begin_ne :
    (clock name other : ℕ) (m : List (ℕ × SFunTime))
    → other ≢ name
    → find other (fun_time_test_begin clock name m) ≡ find other m
unfolding fun_time_test_begin
find-begin_ne clock name other m ne =
    find-update_ne other name (begun clock) (insert name new_fun_time m) ne
    ∙ find-insert_ne other name new_fun_time m ne

find-end_ne :
    (clock name other : ℕ) (m : List (ℕ × SFunTime))
    → other ≢ name
    → find other (fun_time_test_end clock name m) ≡ find other m
unfolding fun_time_test_end
find-end_ne clock name other m ne =
    find-update_ne other name (ended clock) (insert name new_fun_time m) ne
    ∙ find-insert_ne other name new_fun_time m ne

-- A watch that is begun and ended has measured the ticks between in addition to what it had, and
-- the others are as they were, if the map's keys are in order, the sum stays below 2 ^ 64, and the
-- clock's readings do too and do not go back.
watch_adds :
    (start stop name : ℕ) (m : List (ℕ × SFunTime))
    → IsSorted 0 m
    → start ≤ stop
    → stop < 2 ^ 64
    → measured name m + (stop - start) < 2 ^ 64
    → let m' = fun_time_test_end stop name (fun_time_test_begin start name m) in
      (measured name m' ≡ measured name m + (stop - start))
      × ((other : ℕ) → other ≢ name → find other m' ≡ find other m)
watch_adds start stop name m s le lt fits =
    let m1 = fun_time_test_begin start name m in
    let begun_at = find-begin start name m s in
    let same : entry name m1 ≡ begun start (entry name m) = ap or_new begun_at in
    let done = rw same at (find-end stop name m1 (begin-IsSorted start name m s)) in
    (
      ap (λ o. (or_new o).sum) done ∙ omega arith,
      λ other ne. find-end_ne stop name other m1 ne ∙ find-begin_ne start name other m ne,
    )
