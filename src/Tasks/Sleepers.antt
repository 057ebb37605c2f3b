-- ===== src/Tasks/Sleepers.antt =====
-- The threads that sleep, and which of them is the caller.
use qing.Common.{
  ℕ, zero, suc, ◌≤◌, ◌≡◌, refl, ap, inl, inr, true, false, some, List, [], ◌∷◌, if◌then◌else◌,
  arith, count, length, Bool-cases, >>=-eq-some, along_some, map,
}
use qing.Tasks.{Sleeper, caller_sleeps, pick}

abbrev pub tasks : List Sleeper → List ℕ
tasks = map (λ s. s.task)

-- The tasks of calls that are not `async`.
abbrev pub callers : List Sleeper → List ℕ
callers [] = []
callers (s ∷ rest) = let below = callers rest in if s.is_caller then s.task ∷ below else below

abbrev pub sleepers : List (ℕ × Sleeper) → List Sleeper
sleepers = map (λ p. p.1)

pub caller_sleeps-callers : (l : List Sleeper) → caller_sleeps l ≡ false → callers l ≡ []
unfolding caller_sleeps
caller_sleeps-callers [] q = refl
caller_sleeps-callers (s ∷ rest) q = ground (arith, caller_sleeps-callers rest)

-- A list, one of its threads, and the others.
pub data Picked (s : Sleeper) : List Sleeper → List Sleeper → Type 0 where
  top : {rest : List Sleeper} → Picked s (s ∷ rest) rest
  below :
      {x : Sleeper} {rest others : List Sleeper}
      → Picked s rest others
      → Picked s (x ∷ rest) (x ∷ others)

pub pick-Picked :
    (i : ℕ) (l : List Sleeper) {s : Sleeper} {others : List Sleeper}
    → pick i l ≡ some (s, others)
    → Picked s l others
unfolding pick
pick-Picked i [] q = cc
pick-Picked zero (x ∷ rest) {s} {others} q =
    along_some (λ (r : Sleeper × List Sleeper). Picked r.0 (x ∷ rest) r.1) (x, rest) (s, others) q
      top
pick-Picked (suc i) (x ∷ rest) {s} {others} q =
    let ((s', others'), p1, p2) =
      >>=-eq-some (pick i rest) (λ (r : Sleeper × List Sleeper). some (r.0, x ∷ r.1)) q in
    along_some (λ (r : Sleeper × List Sleeper). Picked r.0 (x ∷ rest) r.1) (s', x ∷ others')
      (s, others) p2 (below (pick-Picked i rest p1))

pub Picked-count :
    {s : Sleeper} {l others : List Sleeper} (k : ℕ)
    → Picked s l others
    → count k (tasks l) ≡ count k (s.task ∷ tasks others)
Picked-count k top = refl
Picked-count k (below p) = let rest = Picked-count k p in ground arith

length_zero : (l : List ℕ) → length l ≤ 0 → l ≡ []
length_zero [] le = refl
length_zero (x ∷ l) le = absurd (omega arith)

-- At most one thread of a list is the caller.
pub Picked-callers :
    {s : Sleeper} {l others : List Sleeper}
    → Picked s l others
    → length (callers l) ≤ 1
    → (callers l ≡ (if s.is_caller then s.task ∷ [] else callers others))
      × (s.is_caller ≡ true → callers others ≡ [])
Picked-callers {s} (top {rest}) short = elim (Bool-cases s.is_caller) [
  | inl q ↦
      let none_else = length_zero (callers rest) (omega (arith, rw q at short)) in
      (rw (q, none_else) refl, λ _. none_else)
  | inr q ↦ (rw q refl, λ p. cc)
]
Picked-callers {s} (below {x = x} {rest = rest} {others = others} p) short =
    elim (Bool-cases x.is_caller) [
      | inr q ↦ let (is, alone) = Picked-callers p (rw q at short) in rw q (is, alone)
      | inl q ↦
          let none_else = length_zero (callers rest) (omega (arith, rw q at short)) in
          let (is, alone) = Picked-callers p (rw none_else (omega arith)) in
          elim (Bool-cases s.is_caller) [
            | inl c ↦ let same = rw c at is in cc (none_else, same)
            | inr c ↦
                let same = rw c at is in rw (q, c) (ap (λ (l : List ℕ). x.task ∷ l) same, λ r. cc)
          ]
    ]
