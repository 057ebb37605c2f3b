-- ===== src/Common/OrdMap/Ahead.antt =====
-- How many nodes of a map an iterator still has before it.
use Prim.Native.Nat.{ℕ, suc, ◌≤◌, ◌<◌}
use mathlib.Core.Path.{◌≡◌, refl}
use mathlib.Core.List.{List, [], ◌∷◌}
use mathlib.Core.Option.{some}
use native.Mathlib.Omega.{arith}
use qing.Common.Tests.{ltb, if◌then◌else◌}
use qing.Common.Lists.{length}
use qing.Common.OrdMap.Defs.{erase, update, begin, next}
use qing.Common.OrdMap.Laws.{next-lt}

module _ {ℓ} {V : Type ℓ} where
  -- The number of the keys after `k`.
  abbrev pub ahead : ℕ → List (ℕ × V) → ℕ
  ahead k [] = 0
  ahead k ((j, w) ∷ m) = if ltb k j then suc (ahead k m) else ahead k m

  pub ahead-update : (k j : ℕ) (f : V → V) (m : List (ℕ × V)) → ahead k (update j f m) ≡ ahead k m
  unfolding update
  ahead-update k j f [] = refl
  ahead-update k j f ((i, w) ∷ m) = ground (arith, ahead-update k j f m)

  pub length-update : (j : ℕ) (f : V → V) (m : List (ℕ × V)) → length (update j f m) ≡ length m
  unfolding update
  length-update j f [] = refl
  length-update j f ((i, w) ∷ m) = ground (arith, length-update j f m)

  pub ahead-erase : (k j : ℕ) (m : List (ℕ × V)) → ahead k (erase j m) ≤ ahead k m
  unfolding erase
  ahead-erase k j [] = omega arith
  ahead-erase k j ((i, w) ∷ m) = ground (arith, ahead-erase k j m)

  pub length-erase : (j : ℕ) (m : List (ℕ × V)) → length (erase j m) ≤ length m
  unfolding erase
  length-erase j [] = omega arith
  length-erase j ((i, w) ∷ m) = ground (arith, length-erase j m)

  ahead_mono : (k j : ℕ) (m : List (ℕ × V)) → k ≤ j → ahead j m ≤ ahead k m
  ahead_mono k j [] h = omega arith
  ahead_mono k j ((i, w) ∷ m) h = ground (arith, ahead_mono k j m h)

  pub ahead-next : (k j : ℕ) (m : List (ℕ × V)) → next k m ≡ some j → ahead j m < ahead k m
  unfolding next
  ahead-next k j [] p = cc
  ahead-next k j ((i, w) ∷ m) p =
      let lt = next-lt k j ((i, w) ∷ m) p in
      let fewer = ahead_mono k j m (omega arith) in ground (arith, ahead-next k j m)

  ahead-length : (k : ℕ) (m : List (ℕ × V)) → ahead k m ≤ length m
  ahead-length k [] = omega arith
  ahead-length k ((i, w) ∷ m) = ground (arith, ahead-length k m)

  pub ahead-begin : (k : ℕ) (m : List (ℕ × V)) → begin m ≡ some k → ahead k m < length m
  unfolding begin
  ahead-begin k [] p = cc
  ahead-begin k ((i, w) ∷ m) p = ground (arith, ahead-length k m)
