-- ===== src/Timer/Rising.antt =====
-- Logs whose ids rise.
use qing.Common.{ℕ, suc, ◌+◌, ◌≤◌, ◌<◌, ◌≡◌, refl, List, [], ◌∷◌, arith, count}

-- The log after some runs, the oldest first.
abbrev pub logged : List ℕ → List ℕ → List ℕ
logged [] log = log
logged (k ∷ ran) log = logged ran (k ∷ log)

-- The ids rise, from `lo` on.
abbrev pub Rises : ℕ → List ℕ → Type 0
Rises lo [] = Unit {0}
Rises lo (k ∷ ran) = (lo ≤ k) × Rises (suc k) ran

pub Rises-mono : (lo hi : ℕ) (ran : List ℕ) → lo ≤ hi → Rises hi ran → Rises lo ran
Rises-mono lo hi [] h r = tt
Rises-mono lo hi (k ∷ ran) h r = (omega arith, r.1)

count_below : (k lo : ℕ) (ran : List ℕ) → Rises lo ran → k < lo → count k ran ≡ 0
count_below k lo [] r h = refl
count_below k lo (j ∷ ran) r h = ground (arith, count_below k (suc j) ran r.1)

pub count-Rises : (k lo : ℕ) (ran : List ℕ) → Rises lo ran → count k ran ≤ 1
count-Rises k lo [] r = omega arith
count-Rises k lo (j ∷ ran) r =
    ground (arith, count_below k (suc j) ran r.1, count-Rises k (suc j) ran r.1)

pub count-logged : (k : ℕ) (ran log : List ℕ) → count k (logged ran log) ≡ count k ran + count k log
count-logged k [] log = omega arith
count-logged k (j ∷ ran) log = ground (arith, count-logged k ran (j ∷ log))
