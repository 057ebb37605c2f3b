-- ===== src/Timer/LocalClock.antt =====
-- The local clock of `TimerThread`: the offset found by `Init`, and `IfTriggerLocalTimer`.
use qing.Common.{
  ℕ, ◌+◌, ◌*◌, ◌/◌, ◌%◌, Bool, true, false, ◌||◌, not, leb, ◌==◌, if◌then◌else◌, ℤ, pos, ◌-ℤ◌,
  ltb_ℤ, neg_ℕ, div_trunc, scale, signed32, u32, u64, sub64, u32_of_int, u64_of_int,
}

-- `Init`: `ts_l` and `ts_g` are what mktime makes of the local time and of UTC. The result is
-- the uint32_t `time_zone_sec_`.
unfoldable pub init_time_zone : ℤ → ℤ → ℕ
init_time_zone ts_l ts_g =
    let time_zone = signed32 (u32_of_int (div_trunc (ts_l -ℤ ts_g) 3600)) in
    if not (ltb_ℤ (pos 15) time_zone || ltb_ℤ time_zone (neg_ℕ 12))
    then u32_of_int (scale time_zone 3600)
    else 8 * 3600

-- `LocalDayDiff`.
unfoldable pub local_day_diff : ℤ → ℤ → ℤ
local_day_diff ts1 ts2 = div_trunc ts1 (24 * 60 * 60) -ℤ div_trunc ts2 (24 * 60 * 60)

-- The three branches of `IfTriggerLocalTimer`; `diff_count <= 0` tests a uint64_t for 0.
abbrev pub trigger_branch : ℕ → ℕ → ℕ → Bool
trigger_branch diff_count into_period timer_trigger_at =
    if diff_count == 0
    then false
    else (if diff_count == 1 then leb timer_trigger_at into_period else true)

-- `IfTriggerLocalTimer`, of the value of `time_sec()` and of `time_zone_sec_`. The sum with an
-- `int` is a uint32_t, and the one with `time_sec()` a uint64_t.
unfoldable pub if_trigger_local_timer : ℕ → ℕ → ℤ → ℤ → ℤ → Bool
if_trigger_local_timer now_sec zone_sec last_trigger_time timer_period timer_trigger_at =
    let local_sec = u64 (now_sec + zone_sec) in
    let last_local = u32 (u32_of_int last_trigger_time + zone_sec) in
    let diff_count =
      sub64 (local_sec / u64_of_int timer_period) (last_local / u32_of_int timer_period) in
    trigger_branch diff_count (local_sec % u64_of_int timer_period) (u64_of_int timer_trigger_at)
