-- ===== src/Common/OrdMap/Defs.antt =====
-- The operations of `std::map` that the engine calls. Keys are positive, so they stand in ℕ.
use Prim.Native.Nat.{ℕ, suc, ◌≤◌, compare, Ordering}
use mathlib.Core.List.{List, [], ◌∷◌}
use mathlib.Core.Option.{Option, none, some}
use qing.Common.Tests.{ltb, ◌==◌, if◌then◌else◌}

module _ {ℓ} {V : Type ℓ} where
  unfoldable pub find : ℕ → List (ℕ × V) → Option V
  find j [] = none
  find j ((k, v) ∷ m) = if k == j then some v else find j m

  -- `insert` does not overwrite a key that is there.
  unfoldable pub insert : ℕ → V → List (ℕ × V) → List (ℕ × V)
  insert k v [] = (k, v) ∷ []
  insert k v ((j, w) ∷ m) =
      let rest = (j, w) ∷ insert k v m in
      elim (compare k j) [
        | Ordering.lt ↦ (k, v) ∷ (j, w) ∷ m
        | Ordering.eq ↦ (j, w) ∷ m
        | Ordering.gt ↦ rest
      ]

  unfoldable pub erase : ℕ → List (ℕ × V) → List (ℕ × V)
  erase k [] = []
  erase k ((j, w) ∷ m) = let rest = (j, w) ∷ erase k m in if j == k then m else rest

  -- A write through an iterator or a reference to a node.
  unfoldable pub update : ℕ → (V → V) → List (ℕ × V) → List (ℕ × V)
  update k f [] = []
  update k f ((j, w) ∷ m) =
      let rest = (j, w) ∷ update k f m in if j == k then (j, f w) ∷ m else rest

  -- The key at `begin()`, and the key after `it++` at the node of `k`.
  unfoldable pub begin : List (ℕ × V) → Option ℕ
  begin [] = none
  begin ((k, v) ∷ m) = some k

  unfoldable pub next : ℕ → List (ℕ × V) → Option ℕ
  next k [] = none
  next k ((j, w) ∷ m) = if ltb k j then some j else next k m

  -- The keys rise, from `lo` on.
  abbrev pub IsSorted : ℕ → List (ℕ × V) → Type 0
  IsSorted lo [] = Unit {0}
  IsSorted lo ((k, v) ∷ m) = (lo ≤ k) × IsSorted (suc k) m
