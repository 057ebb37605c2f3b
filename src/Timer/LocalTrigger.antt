-- ===== src/Timer/LocalTrigger.antt =====
-- What `IfTriggerLocalTimer` decides, and where the offset's type makes it wrong.
use native.Mathlib.Nat.{div-add-mod, div-le_self, le-div_iff_mul-le, mul_comm}
use qing.Common.{
  ℕ, ◌+◌, ◌-◌, ◌*◌, ◌/◌, ◌%◌, ◌^◌, ◌≤◌, ◌<◌, ◌≡◌, ◌↔◌, ◌⊎◌, inl, inr, true, arith, ap, Bool-cases,
  ==_iff, leb→le, leb, ◌==◌, pos, u32, sub64,
}
use qing.Timer.LocalClock.{trigger_branch, if_trigger_local_timer}

-- The daily (weekly, ...) moment has come since the period of the last trigger: there is a later
-- period `n` whose moment, `a` seconds in, is not after now.
abbrev pub HasCome : ℕ → ℕ → ℕ → ℕ → Type 0
HasCome period a last now = (n : ℕ) × (last / period < n) × (period * n + a ≤ now)

sub64_lem : (a b : ℕ) → a < 2 ^ 64 → b ≤ a → sub64 a b ≡ a - b
sub64_lem a b lt le = omega arith

trigger_branch_iff :
    (diff into a : ℕ)
    → (trigger_branch diff into a ≡ true) ↔ ((2 ≤ diff) ⊎ ((diff ≡ 1) × (a ≤ into)))
trigger_branch_iff diff into a = ground arith

div_mono : (a b c : ℕ) → 0 < c → a ≤ b → a / c ≤ b / c
div_mono a b c p le =
    (le-div_iff_mul-le p).1
      (omega (arith, (le-div_iff_mul-le {x = a / c} {y = a} p).0 (omega arith)))

-- Two periods on.
div-gap : (a b c : ℕ) → 0 < c → a + 2 * c ≤ b → a / c + 2 ≤ b / c
div-gap a b c p le =
    (le-div_iff_mul-le p).1
      (omega (arith, (le-div_iff_mul-le {x = a / c} {y = a} p).0 (omega arith)))

-- With the bounds of the words used up.
trigger_eq :
    (now zone last period a : ℕ)
    → last < 2 ^ 32
    → now + zone < 2 ^ 64
    → period < 2 ^ 32
    → a < 2 ^ 64
    → if_trigger_local_timer now zone (pos last) (pos period) (pos a)
      ≡ trigger_branch
          (sub64 ((now + zone) / period) (u32 (last + zone) / period))
          ((now + zone) % period)
          a
unfolding if_trigger_local_timer
trigger_eq now zone last period a hl hn hp ha =
    let p64 : period % 2 ^ 64 ≡ period = omega arith in
    let p32 : period % 2 ^ 32 ≡ period = omega arith in
    let l32 : last % 2 ^ 32 ≡ last = omega arith in
    let n64 : (now + zone) % 2 ^ 64 ≡ now + zone = omega arith in
    let a64 : a % 2 ^ 64 ≡ a = omega arith in rw (p64, p32, l32, n64, a64)

-- A later period whose moment has come is this period, or there is a whole one between.
HasCome-iff :
    (period a last now : ℕ)
    → 0 < period
    → a < period
    → HasCome period a last now ↔ (
        (last / period + 2 ≤ now / period)
        ⊎ ((last / period + 1 ≡ now / period) × (a ≤ now % period)))
HasCome-iff period a last now pos_period lt = (to, from)
  where
    split : period * (now / period) + now % period ≡ now
    split = div-add-mod now period

    to :
        HasCome period a last now
        → (last / period + 2 ≤ now / period)
          ⊎ ((last / period + 1 ≡ now / period) × (a ≤ now % period))
    to (n, later, come) =
        let reached : n ≤ now / period =
          (le-div_iff_mul-le pos_period).1 (omega (arith, mul_comm n period)) in
        elim (Bool-cases (n == now / period)) [
          | inl same ↦
              let q = ap (λ (t : ℕ). period * t) ((==_iff n (now / period)).0 same) in
              elim (Bool-cases (leb (last / period + 2) (now / period))) [
                | inl whole ↦ inl (leb→le _ _ whole)
                | inr one ↦ inr (ground arith, omega arith)
              ]
          | inr other ↦ inl (ground arith)
        ]

    from :
        (last / period + 2 ≤ now / period)
          ⊎ ((last / period + 1 ≡ now / period) × (a ≤ now % period))
        → HasCome period a last now
    from (inl whole) =
        let m : ℕ = now / period - 1 in
        let q : period * (now / period) ≡ period * (m + 1) =
          ap (λ (t : ℕ). period * t) (omega arith) in
        (m, omega arith, omega arith)
    from (inr (one, into)) = (now / period, omega arith, omega arith)

-- East of Greenwich, and with the last trigger not after now, the timer triggers exactly when its
-- moment has come in a period after that of the last trigger, if the moment lies within the
-- period, which is a positive uint32_t, and local time fits 32 bits for the last trigger and 64
-- for now.
pub trigger_iff :
    (now zone last period a : ℕ)
    → last + zone < 2 ^ 32
    → now + zone < 2 ^ 64
    → 0 < period
    → period < 2 ^ 32
    → a < period
    → last ≤ now
    → (if_trigger_local_timer now zone (pos last) (pos period) (pos a) ≡ true)
      ↔ HasCome period a (last + zone) (now + zone)
trigger_iff now zone last period a hl hn hp hp' ha le =
    let spec = HasCome-iff period a (last + zone) (now + zone) hp ha in
    let mono : (last + zone) / period ≤ (now + zone) / period =
      div_mono (last + zone) (now + zone) period hp (omega arith) in
    let small : (now + zone) / period < 2 ^ 64 = omega (arith, div-le_self (now + zone) period) in
    let l32 : u32 (last + zone) ≡ last + zone = omega arith in
    let diff = sub64_lem ((now + zone) / period) ((last + zone) / period) small mono in
    let test =
      trigger_branch_iff ((now + zone) / period - (last + zone) / period) ((now + zone) % period)
        a in
    rw (trigger_eq now zone last period a (omega arith) hn hp' (omega arith), l32, diff)
      (
        λ t. spec.1 (elim (test.0 t) [ inl x ↦ inl (omega arith) | inr x ↦ inr (omega arith) ]),
        λ c. test.1 (elim (spec.0 c) [ inl x ↦ inl (omega arith) | inr x ↦ inr (omega arith) ]),
      )

-- East of Greenwich, a last trigger that lies in a later period than now triggers at once, if its
-- local time and the period fit 32 bits and the moment lies within the period.
pub trigger_in_future :
    (now zone last period a : ℕ)
    → last + zone < 2 ^ 32
    → 0 < period
    → period < 2 ^ 32
    → a < period
    → (now + zone) / period < (last + zone) / period
    → now ≤ last
    → if_trigger_local_timer now zone (pos last) (pos period) (pos a) ≡ true
trigger_in_future now zone last period a hl hp hp' ha ahead le =
    let l32 : u32 (last + zone) ≡ last + zone = omega arith in
    let small : (last + zone) / period < 2 ^ 32 = omega (arith, div-le_self (last + zone) period) in
    rw (trigger_eq now zone last period a (omega arith) (omega arith) hp' (omega arith), l32)
      (ground arith)

-- West of Greenwich, `west` seconds behind, where `time_zone_sec_` is 2 ^ 32 - west, the timer
-- triggers, also where the period of the last trigger is not over, for a last trigger of 32 bits that is not after now nor before `west`, a time
-- of 63 bits, a positive period of 31 bits, and a moment within the period.
pub trigger_west_always :
    (now west last period a : ℕ)
    → 0 < west
    → west ≤ last
    → last ≤ now
    → last < 2 ^ 32
    → now < 2 ^ 63
    → 0 < period
    → period < 2 ^ 31
    → a < period
    → if_trigger_local_timer now (2 ^ 32 - west) (pos last) (pos period) (pos a) ≡ true
trigger_west_always now west last period a hw hw' le hl hn hp hp' ha =
    let l32 : u32 (last + (2 ^ 32 - west)) ≡ last - west = omega arith in
    let small : (now + (2 ^ 32 - west)) / period < 2 ^ 64 =
      omega (arith, div-le_self (now + (2 ^ 32 - west)) period) in
    let gap : (last - west) / period + 2 ≤ (now + (2 ^ 32 - west)) / period =
      div-gap (last - west) (now + (2 ^ 32 - west)) period hp (omega arith) in
    let diff =
      sub64_lem ((now + (2 ^ 32 - west)) / period) ((last - west) / period) small (omega arith) in
    rw
      (
        trigger_eq now (2 ^ 32 - west) last period a hl (omega arith) (omega arith) (omega arith),
        l32,
        diff,
      )
      (ground arith)
