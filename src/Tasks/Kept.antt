-- ===== src/Tasks/Kept.antt =====
-- What becomes of the tasks.
use qing.Common.{
  ℕ, ◌+◌, ◌≤◌, ◌≡◌, refl, sym, ap, ◌∙◌, inl, inr, Bool, true, false, not, none, some, List, [], ◌∷◌,
  ◌++◌, leb, leb→le, if◌then◌else◌, arith, count, length, Bool-cases, >>=-eq-some, along_some,
}
use qing.Tasks.{
  Sleeper, Tasks, caller_sleeps, create_task, pick, wake, Event, creates, wakes, passes, happen,
  history,
}
use qing.Tasks.Sleepers.{
  tasks, callers, sleepers, caller_sleeps-callers, Picked, pick-Picked, Picked-count,
  Picked-callers,
}

-- The tasks of the calls of a history, and those of the calls that are not `async`, newest first.
abbrev pub created : List Event → List ℕ
created [] = []
created (creates after is_async task ∷ xs) = task ∷ created xs
created (wakes i ∷ xs) = created xs
created (passes n ∷ xs) = created xs

abbrev pub called : List Event → List ℕ → List ℕ
called [] before = before
called (creates after is_async task ∷ xs) before =
    called xs (if is_async then before else task ∷ before)
called (wakes i ∷ xs) before = called xs before
called (passes n ∷ xs) before = called xs before

-- No task ran before its time.
abbrev pub InTime : List (ℕ × Sleeper) → Type 0
InTime [] = Unit {0}
InTime ((time, s) ∷ rest) = (s.called_at + s.after ≤ time) × InTime rest

-- What a history has kept, from what was there before.
record Keeps (xs : List Event) (w w' : Tasks) : Type 0 where
  counts :
      (k : ℕ)
      → count k (tasks (sleepers w'.ran)) + count k (tasks w'.sleeping)
        ≡ count k (created xs) + (count k (tasks (sleepers w.ran)) + count k (tasks w.sleeping))
  in_time : InTime w.ran → InTime w'.ran
  one_caller : length (callers w'.sleeping) ≤ 1
  in_order :
      callers w'.sleeping ++ callers (sleepers w'.ran)
      ≡ called xs (callers w.sleeping ++ callers (sleepers w.ran))

creates-Keeps :
    (after : ℕ) (is_async : Bool) (task : ℕ) (w : Tasks) {w' : Tasks}
    → length (callers w.sleeping) ≤ 1
    → create_task after is_async task w ≡ some w'
    → Keeps (creates after is_async task ∷ []) w w'
unfolding create_task
creates-Keeps after is_async task w {w'} short p = elim (Bool-cases (caller_sleeps w.sleeping)) [
  | inl busy ↦ let q = rw busy at p in cc q
  | inr free ↦
      let none_there = caller_sleeps-callers w.sleeping free in
      along_some (Keeps (creates after is_async task ∷ []) w) _ w' (rw free at p) (record {
        counts = λ k. ground arith;
        in_time = λ t. t;
        one_caller =
            elim is_async
              as (λ b.
                length (if not b then task ∷ callers w.sleeping else callers w.sleeping) ≤ 1) [
                  | true ↦ short
                  | false ↦ rw none_there (omega arith)
                ];
        in_order =
            elim is_async
              as (λ b.
                (if not b then task ∷ callers w.sleeping else callers w.sleeping)
                  ++ callers (sleepers w.ran)
                ≡ called (creates after b task ∷ [])
                    (callers w.sleeping ++ callers (sleepers w.ran))) [
                      | true ↦ refl
                      | false ↦ refl
                    ];
      })
]

woken-Keeps :
    (i : ℕ) (s : Sleeper) (others : List Sleeper) (w : Tasks)
    → length (callers w.sleeping) ≤ 1
    → Picked s w.sleeping others
    → s.called_at + s.after ≤ w.now
    → Keeps (wakes i ∷ []) w (record w { sleeping = others; ran = (w.now, s) ∷ w.ran })
woken-Keeps i s others w short picked come =
    let (is, alone) = Picked-callers picked short in
    elim (Bool-cases s.is_caller) [
      | inl c ↦
          let none_left = alone c in
          let its : callers w.sleeping ≡ s.task ∷ [] = rw c at is in
          record {
            counts = λ k. let same = Picked-count k picked in ground arith;
            in_time = λ t. (come, t);
            one_caller = rw none_left (omega arith);
            in_order = rw (none_left, its, c) refl;
          }
      | inr c ↦
          let same : callers w.sleeping ≡ callers others = rw c at is in
          record {
            counts = λ k. let same = Picked-count k picked in ground arith;
            in_time = λ t. (come, t);
            one_caller = rw same at short;
            in_order = rw (same, c) refl;
          }
    ]

wakes-Keeps :
    (i : ℕ) (w : Tasks) {w' : Tasks}
    → length (callers w.sleeping) ≤ 1
    → wake i w ≡ some w'
    → Keeps (wakes i ∷ []) w w'
unfolding wake
wakes-Keeps i w {w'} short p =
    let ((s, others), p1, p2) =
      >>=-eq-some (pick i w.sleeping)
        (λ (r : Sleeper × List Sleeper).
          if leb (r.0.called_at + r.0.after) w.now
          then some (record w { sleeping = r.1; ran = (w.now, r.0) ∷ w.ran })
          else none)
        p in
    elim (Bool-cases (leb (s.called_at + s.after) w.now)) [
      | inr early ↦ let q = rw early at p2 in cc q
      | inl come ↦ along_some (Keeps (wakes i ∷ []) w) _ w' (rw come at p2) (
          woken-Keeps i s others w short (pick-Picked i w.sleeping p1)
            (leb→le (s.called_at + s.after) w.now come))
    ]

happen-Keeps :
    (x : Event) (w : Tasks) {w' : Tasks}
    → length (callers w.sleeping) ≤ 1
    → happen x w ≡ some w'
    → Keeps (x ∷ []) w w'
unfolding happen
happen-Keeps (creates after is_async task) w short p = creates-Keeps after is_async task w short p
happen-Keeps (wakes i) w short p = wakes-Keeps i w short p
happen-Keeps (passes n) w {w'} short p =
    along_some (Keeps (passes n ∷ []) w) _ w' p
      (record { counts = λ k. omega arith; in_time = λ t. t; one_caller = short; in_order = refl })

count-created :
    (k : ℕ) (x : Event) (xs : List Event)
    → count k (created (x ∷ xs)) ≡ count k (created (x ∷ [])) + count k (created xs)
count-created k (creates after is_async task) xs = ground arith
count-created k (wakes i) xs = omega arith
count-created k (passes n) xs = omega arith

called-∷ :
    (x : Event) (xs : List Event) (before : List ℕ)
    → called (x ∷ xs) before ≡ called xs (called (x ∷ []) before)
called-∷ (creates after is_async task) xs before = refl
called-∷ (wakes i) xs before = refl
called-∷ (passes n) xs before = refl

Keeps-∷ :
    (x : Event) (xs : List Event) (w w1 w' : Tasks)
    → Keeps (x ∷ []) w w1
    → Keeps xs w1 w'
    → Keeps (x ∷ xs) w w'
Keeps-∷ x xs w w1 w' a b = record {
  counts = λ k. omega (arith, a.counts k, b.counts k, count-created k x xs);
  in_time = λ t. b.in_time (a.in_time t);
  one_caller = b.one_caller;
  in_order =
      b.in_order
      ∙ ap (called xs) a.in_order
      ∙ sym (called-∷ x xs (callers w.sleeping ++ callers (sleepers w.ran)));
}

history-Keeps :
    (xs : List Event) (w : Tasks) {w' : Tasks}
    → length (callers w.sleeping) ≤ 1
    → history xs w ≡ some w'
    → Keeps xs w w'
unfolding history
history-Keeps [] w {w'} short p =
    along_some (Keeps [] w) w w' p
      (record { counts = λ k. omega arith; in_time = λ t. t; one_caller = short; in_order = refl })
history-Keeps (x ∷ xs) w {w'} short p =
    let (w1, p1, p2) = >>=-eq-some (happen x w) (history xs) p in
    let first = happen-Keeps x w short p1 in
    Keeps-∷ x xs w w1 w' first (history-Keeps xs w1 first.one_caller p2)

-- From a time at which nothing sleeps and nothing has run, after any calls, wake-ups and passing of
-- time: each task of a call has run or sleeps, and as often in all as it was called for; none ran
-- before its delay was over; and the tasks of the calls that are not `async` ran in the order of the
-- calls, but for the last, which may still sleep.
pub create_task_lem :
    (xs : List Event) (now k : ℕ) (w : Tasks)
    → history xs (record { now = now; sleeping = []; ran = [] }) ≡ some w
    → (count k (tasks (sleepers w.ran)) + count k (tasks w.sleeping) ≡ count k (created xs))
      × InTime w.ran
      × (callers w.sleeping ++ callers (sleepers w.ran) ≡ called xs [])
      × (length (callers w.sleeping) ≤ 1)
create_task_lem xs now k w p =
    let start : Tasks = record { now = now; sleeping = []; ran = [] } in
    let kept = history-Keeps xs start (omega arith) p in
    (omega (arith, kept.counts k), kept.in_time tt, kept.in_order, kept.one_caller)
