-- ===== src/Net/Sizes.antt =====
-- Which unit a size is printed in.
use qing.Common.{ℕ, ◌-◌, ◌*◌, ◌^◌, ◌≤◌, ◌<◌, ◌≡◌, arith, ltb, if◌then◌else◌, Bool-cases, inl, inr}
use qing.Net.Util.{
  round_to, to_float, SizeUnit, gigabytes, megabytes, kilobytes, plain_bytes, size_unit,
  cenvert_bytes_to_size,
}

to_float-small : (n : ℕ) → n < 2 ^ 24 → to_float n ≡ n
unfolding to_float
to_float-small n h = ground arith

-- The middle range stays below the limit of the gigabytes.
to_float-middle : (n : ℕ) → 2 ^ 24 ≤ n → n < 2 ^ 29 → (2 ^ 24 ≤ to_float n) × (to_float n ≤ 2 ^ 29)
unfolding to_float round_to
to_float-middle n h h' = ground arith

to_float-eq-round_to : (n : ℕ) → 2 ^ 29 ≤ n → n < 2 ^ 30 → to_float n ≡ round_to 64 n
unfolding to_float
to_float-eq-round_to n h h' = ground arith

-- Just below 2 ^ 30 the floats lie 64 apart.
round_to-high :
    (n : ℕ)
    → 2 ^ 29 ≤ n
    → n < 2 ^ 30
    → (2 ^ 29 ≤ round_to 64 n)
      × (n < 2 ^ 30 - 32 → round_to 64 n < 2 ^ 30)
      × (2 ^ 30 - 32 ≤ n → round_to 64 n ≡ 2 ^ 30)
unfolding round_to
round_to-high n h h' = (ground arith, (λ x. ground arith), (λ x. ground arith))

to_float-top : (n : ℕ) → 2 ^ 30 ≤ n → n < 2 ^ 32 → (2 ^ 30 ≤ to_float n) × (to_float n ≤ 2 ^ 32)
unfolding to_float round_to
to_float-top n h h' = ground arith

-- The unit as the size alone gives it.
abbrev pub unit_of : ℕ → SizeUnit
unit_of n =
    if ltb n 1024
    then plain_bytes
    else (if ltb n (1024 * 1024)
        then kilobytes
        else (if ltb n (1024 * 1024 * 1024 - 32) then megabytes else gigabytes))

-- The unit of every uint32_t is that of its size, but for the 32 sizes next below a gigabyte,
-- which are printed in gigabytes.
cenvert_bytes_to_size_unit : (n : ℕ) → n < 2 ^ 32 → (cenvert_bytes_to_size n).1 ≡ unit_of n
unfolding cenvert_bytes_to_size size_unit
cenvert_bytes_to_size_unit n h = elim (Bool-cases (ltb n (2 ^ 24))) [
  | inl small ↦ ground (arith, to_float-small n)
  | inr not_small ↦ elim (Bool-cases (ltb n (2 ^ 29))) [
    | inl middle ↦ ground (arith, to_float-middle n)
    | inr not_middle ↦ elim (Bool-cases (ltb n (2 ^ 30))) [
      | inl high ↦ ground (arith, to_float-eq-round_to n, round_to-high n)
      | inr top ↦ ground (arith, to_float-top n)
    ]
  ]
]
