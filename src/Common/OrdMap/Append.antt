-- ===== src/Common/OrdMap/Append.antt =====
-- A map at the place where an iterator stands: the nodes behind it, and those from it on.
use Prim.Native.Nat.{ℕ, suc, ◌≤◌, ◌<◌}
use mathlib.Core.Path.{◌≡◌, refl}
use mathlib.Core.List.{List, [], ◌∷◌, ◌++◌}
use mathlib.Core.Option.{some}
use native.Mathlib.Omega.{arith}
use qing.Common.OrdMap.Defs.{find, erase, update, begin, next, IsSorted}

module _ {ℓ} {V : Type ℓ} where
  -- The keys are below `k`.
  abbrev pub Below : ℕ → List (ℕ × V) → Type 0
  Below k [] = Unit {0}
  Below k ((j, w) ∷ m) = (j < k) × Below k m

  pub Below-mono : (j k : ℕ) (m : List (ℕ × V)) → j ≤ k → Below j m → Below k m
  Below-mono j k [] h b = tt
  Below-mono j k ((i, w) ∷ m) h b = (omega arith, Below-mono j k m h b.1)

  pub Below-append : (k : ℕ) (m n : List (ℕ × V)) → Below k m → Below k n → Below k (m ++ n)
  Below-append k [] n b c = c
  Below-append k ((i, w) ∷ m) n b c = (b.0, Below-append k m n b.1 c)

  pub find-append :
      (k : ℕ) (v : V) (m n : List (ℕ × V)) → Below k m → find k (m ++ (k, v) ∷ n) ≡ some v
  unfolding find
  find-append k v [] n b = ground arith
  find-append k v ((i, w) ∷ m) n b = ground (arith, find-append k v m n)

  pub erase-append :
      (k : ℕ) (v : V) (m n : List (ℕ × V)) → Below k m → erase k (m ++ (k, v) ∷ n) ≡ m ++ n
  unfolding erase
  erase-append k v [] n b = ground arith
  erase-append k v ((i, w) ∷ m) n b = ground (arith, erase-append k v m n)

  pub update-append :
      (k : ℕ) (f : V → V) (v : V) (m n : List (ℕ × V))
      → Below k m
      → update k f (m ++ (k, v) ∷ n) ≡ m ++ (k, f v) ∷ n
  unfolding update
  update-append k f v [] n b = ground arith
  update-append k f v ((i, w) ∷ m) n b = ground (arith, update-append k f v m n)

  pub next-append :
      (k : ℕ) (m n : List (ℕ × V))
      → Below (suc k) m
      → IsSorted (suc k) n
      → next k (m ++ n) ≡ begin n
  unfolding next begin
  next-append k [] [] b s = refl
  next-append k [] ((i, w) ∷ n) b s = ground arith
  next-append k ((i, w) ∷ m) n b s = ground (arith, next-append k m n)
