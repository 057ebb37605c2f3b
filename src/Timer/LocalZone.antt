-- ===== src/Timer/LocalZone.antt =====
-- What `Init` makes of the difference between local time and UTC.
use qing.Common.{ℕ, ◌+◌, ◌-◌, ◌*◌, ◌/◌, ◌^◌, ◌≤◌, ◌<◌, ◌≡◌, arith, pos, ◌-ℤ◌, ltb, if◌then◌else◌}
use qing.Timer.LocalClock.{init_time_zone}

-- East of Greenwich `Init` stores the whole hours of the offset if it is less than 16 hours, and
-- China's eight hours if it is more; west of it, for an offset of an hour or more and less than 13
-- hours, it stores 2 ^ 32 less the whole hours of the offset.
pub init_time_zone_lem :
    (now east west : ℕ)
    → east < 2 ^ 31
    → 3600 ≤ west
    → west < 13 * 3600
    → (init_time_zone (pos (now + east)) (pos now)
        ≡ (if ltb east (16 * 3600) then east / 3600 * 3600 else 8 * 3600))
      × (init_time_zone (pos now) (pos (now + west)) ≡ 2 ^ 32 - west / 3600 * 3600)
unfolding init_time_zone ◌-ℤ◌
init_time_zone_lem now east west h h1 h2 = (ground arith, ground arith)
