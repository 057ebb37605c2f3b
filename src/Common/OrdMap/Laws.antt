-- ===== src/Common/OrdMap/Laws.antt =====
-- The laws of the map operations.
use Prim.Native.Nat.{ℕ, suc, ◌≤◌, ◌<◌}
use mathlib.Core.Path.{◌≡◌, refl}
use mathlib.Core.Logic.{◌≢◌, inl, inr}
use mathlib.Core.List.{List, [], ◌∷◌}
use mathlib.Core.Option
use mathlib.Core.Option.{Option, none, some, get_or}
use native.Mathlib.Omega.{arith}
use qing.Common.Tests.{
  ◌==◌, if◌then◌else◌, ==_iff, ne_of_==_false, Bool-cases, Option-cases, leb, leb→le,
}
use qing.Common.OrdMap.Defs.{find, insert, erase, update, begin, next, IsSorted}

module _ {ℓ} {V : Type ℓ} where
  pub find_below : (lo j : ℕ) (m : List (ℕ × V)) → IsSorted lo m → j < lo → find j m ≡ none
  unfolding find
  find_below lo j [] s h = refl
  find_below lo j ((k, v) ∷ m) s h = ground (arith, find_below (suc k) j m s.1)

  pub IsSorted-mono : (lo hi : ℕ) (m : List (ℕ × V)) → lo ≤ hi → IsSorted hi m → IsSorted lo m
  IsSorted-mono lo hi [] h s = tt
  IsSorted-mono lo hi ((k, v) ∷ m) h s = (omega arith, s.1)

  pub insert-IsSorted :
      (lo k : ℕ) (v : V) (m : List (ℕ × V)) → lo ≤ k → IsSorted lo m → IsSorted lo (insert k v m)
  unfolding insert
  insert-IsSorted lo k v [] h s = (h, tt)
  insert-IsSorted lo k v ((j, w) ∷ m) h s = ground (arith, insert-IsSorted (suc j) k v m)

  pub erase-IsSorted : (lo k : ℕ) (m : List (ℕ × V)) → IsSorted lo m → IsSorted lo (erase k m)
  unfolding erase
  erase-IsSorted lo k [] s = tt
  erase-IsSorted lo k ((j, w) ∷ m) s =
      ground (arith, erase-IsSorted (suc j) k m s.1, IsSorted-mono lo (suc j) m)

  pub update-IsSorted :
      (lo k : ℕ) (f : V → V) (m : List (ℕ × V)) → IsSorted lo m → IsSorted lo (update k f m)
  unfolding update
  update-IsSorted lo k f [] s = tt
  update-IsSorted lo k f ((j, w) ∷ m) s = ground (arith, update-IsSorted (suc j) k f m s.1)

  pub find-insert_ne :
      (j k : ℕ) (v : V) (m : List (ℕ × V)) → j ≢ k → find j (insert k v m) ≡ find j m
  unfolding find insert
  find-insert_ne j k v [] h = ground arith
  find-insert_ne j k v ((i, w) ∷ m) h = ground (arith, find-insert_ne j k v m h)

  pub find-insert_self :
      (lo k : ℕ) (v : V) (m : List (ℕ × V))
      → IsSorted lo m
      → find k m ≡ none
      → find k (insert k v m) ≡ some v
  unfolding find insert
  find-insert_self lo k v [] s h = ground arith
  find-insert_self lo k v ((i, w) ∷ m) s h = ground (arith, find-insert_self (suc i) k v m s.1)

  -- A key that is there is not written.
  pub insert_present :
      (lo k : ℕ) (v w : V) (m : List (ℕ × V)) → IsSorted lo m → find k m ≡ some w → insert k v m ≡ m
  unfolding find insert
  insert_present lo k v w [] s f = cc
  insert_present lo k v w ((j, x) ∷ m) s f =
      ground (arith, insert_present (suc j) k v w m s.1, find_below (suc j) k m s.1)

  pub find-erase_ne : (j k : ℕ) (m : List (ℕ × V)) → j ≢ k → find j (erase k m) ≡ find j m
  unfolding find erase
  find-erase_ne j k [] h = refl
  find-erase_ne j k ((i, w) ∷ m) h = ground (arith, find-erase_ne j k m h)

  pub find-erase_self : (lo k : ℕ) (m : List (ℕ × V)) → IsSorted lo m → find k (erase k m) ≡ none
  unfolding find erase
  find-erase_self lo k [] s = refl
  find-erase_self lo k ((i, w) ∷ m) s =
      ground (arith, find_below (suc i) k m s.1, find-erase_self (suc i) k m s.1)

  pub find-update_ne :
      (j k : ℕ) (f : V → V) (m : List (ℕ × V)) → j ≢ k → find j (update k f m) ≡ find j m
  unfolding find update
  find-update_ne j k f [] h = refl
  find-update_ne j k f ((i, w) ∷ m) h = ground (arith, find-update_ne j k f m h)

  pub find-update_self :
      (k : ℕ) (f : V → V) (m : List (ℕ × V)) → find k (update k f m) ≡ Option.map f (find k m)
  unfolding find update
  find-update_self k f [] = refl
  find-update_self k f ((i, w) ∷ m) = ground (arith, find-update_self k f m)

  -- A write of what is there already.
  pub update-fixed :
      (k : ℕ) (f : V → V) (v : V) (m : List (ℕ × V))
      → find k m ≡ some v
      → f v ≡ v
      → update k f m ≡ m
  unfolding find update
  update-fixed k f v [] p q = refl
  update-fixed k f v ((i, w) ∷ m) p q = ground (arith, update-fixed k f v m)

  -- Iteration: no key between a node and the next one is in the map.
  pub next-find-none :
      (lo k i : ℕ) (m : List (ℕ × V)) → IsSorted lo m → next k m ≡ none → k < i → find i m ≡ none
  unfolding find next
  next-find-none lo k i [] s e h = refl
  next-find-none lo k i ((j, w) ∷ m) s e h = ground (arith, next-find-none (suc j) k i m s.1)

  pub next-find_between :
      (lo k j i : ℕ) (m : List (ℕ × V))
      → IsSorted lo m
      → next k m ≡ some j
      → k < i
      → i < j
      → find i m ≡ none
  unfolding find next
  next-find_between lo k j i [] s e h h' = refl
  next-find_between lo k j i ((a, w) ∷ m) s e h h' =
      ground (arith, next-find_between (suc a) k j i m s.1, find_below (suc a) i m s.1)

  pub next-lt : (k j : ℕ) (m : List (ℕ × V)) → next k m ≡ some j → k < j
  unfolding next
  next-lt k j [] e = cc
  next-lt k j ((a, w) ∷ m) e = ground (arith, next-lt k j m)

  -- An iterator that is not at the end stands at a node.
  pub next-find : (k j : ℕ) (m : List (ℕ × V)) → next k m ≡ some j → (v : V) × (find j m ≡ some v)
  unfolding next find
  next-find k j [] e = cc
  next-find k j ((a, w) ∷ m) e = elim (Bool-cases (a == j)) [
    | inl same ↦ (w, ground arith)
    | inr other ↦ let (v, p) = next-find k j m (ground arith) in (v, ground arith)
  ]

  pub begin-find : (j : ℕ) (m : List (ℕ × V)) → begin m ≡ some j → (v : V) × (find j m ≡ some v)
  unfolding begin find
  begin-find j [] e = cc
  begin-find j ((a, w) ∷ m) e = (w, ground arith)

  pub begin-find-none : (i : ℕ) (m : List (ℕ × V)) → begin m ≡ none → find i m ≡ none
  unfolding begin find
  begin-find-none i [] e = refl
  begin-find-none i ((a, w) ∷ m) e = cc

  pub begin-find_before :
      (lo j i : ℕ) (m : List (ℕ × V)) → IsSorted lo m → begin m ≡ some j → i < j → find i m ≡ none
  unfolding begin find
  begin-find_before lo j i [] s e h = refl
  begin-find_before lo j i ((a, w) ∷ m) s e h = ground (arith, find_below (suc a) i m s.1)

  -- The same laws in one equation each.
  pub find-erase :
      (lo j k : ℕ) (m : List (ℕ × V))
      → IsSorted lo m
      → find j (erase k m) ≡ (if j == k then none else find j m)
  find-erase lo j k m s = elim (Bool-cases (j == k)) [
    | inl same ↦ rw (same, (==_iff j k).0 same) (find-erase_self lo k m s)
    | inr other ↦ rw other (find-erase_ne j k m (ne_of_==_false j k other))
  ]

  pub find-update :
      (j k : ℕ) (f : V → V) (m : List (ℕ × V))
      → find j (update k f m) ≡ (if j == k then Option.map f (find k m) else find j m)
  find-update j k f m = elim (Bool-cases (j == k)) [
    | inl same ↦ rw (same, (==_iff j k).0 same) (find-update_self k f m)
    | inr other ↦ rw other (find-update_ne j k f m (ne_of_==_false j k other))
  ]

  pub find-insert :
      (lo j k : ℕ) (v : V) (m : List (ℕ × V))
      → IsSorted lo m
      → find k m ≡ none
      → find j (insert k v m) ≡ (if j == k then some v else find j m)
  find-insert lo j k v m s h = elim (Bool-cases (j == k)) [
    | inl same ↦ rw (same, (==_iff j k).0 same) (find-insert_self lo k v m s h)
    | inr other ↦ rw other (find-insert_ne j k v m (ne_of_==_false j k other))
  ]

  -- An iteration meets every key that is there.
  pub next-reaches :
      (lo j k : ℕ) (v : V) (m : List (ℕ × V))
      → IsSorted lo m
      → find k m ≡ some v
      → j < k
      → (c : ℕ) × (next j m ≡ some c) × (c ≤ k)
  next-reaches lo j k v m s f h = elim (Option-cases (next j m)) [
    | inl e ↦ cc (next-find-none lo j k m s e h)
    | inr (c, e) ↦ elim (Bool-cases (leb c k)) [
      | inl le ↦ (c, e, leb→le c k le)
      | inr gt ↦ cc (next-find_between lo j c k m s e h (ground arith))
    ]
  ]

  pub begin-reaches :
      (lo k : ℕ) (v : V) (m : List (ℕ × V))
      → IsSorted lo m
      → find k m ≡ some v
      → (c : ℕ) × (begin m ≡ some c) × (c ≤ k)
  begin-reaches lo k v m s f = elim (Option-cases (begin m)) [
    | inl e ↦ cc (begin-find-none k m e)
    | inr (c, e) ↦ elim (Bool-cases (leb c k)) [
      | inl le ↦ (c, e, leb→le c k le)
      | inr gt ↦ cc (begin-find_before lo c k m s e (ground arith))
    ]
  ]
