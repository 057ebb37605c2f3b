-- ===== src/Timer/LocalTests.antt =====
-- The local clock and the stop watches at concrete inputs.
use qing.Common.{ℕ, ◌+◌, ◌-◌, ◌*◌, ◌^◌, ◌≡◌, refl, ◌↔◌, true, List, [], ◌∷◌, arith, pos, ◌/◌}
use qing.Timer.LocalClock.{if_trigger_local_timer, init_time_zone}
use qing.Timer.LocalTrigger.{HasCome, trigger_iff, trigger_west_always}
use qing.Timer.FunTime.{SFunTime, new_fun_time, print_all_fun_time}
use qing.Timer.LocalZone.{init_time_zone_lem}

-- A timer for three in the morning, in China, that went off 20 hours ago.
trigger_iff_example :
    (if_trigger_local_timer 1_000_000_000 28_800 (pos 999_928_000) (pos 86_400) (pos 10_800) ≡ true)
    ↔ HasCome 86_400 10_800 (999_928_000 + 28_800) (1_000_000_000 + 28_800)
trigger_iff_example =
    trigger_iff 1_000_000_000 28_800 999_928_000 86_400 10_800 (omega arith) (omega arith)
      (omega arith) (omega arith) (omega arith) (omega arith)

-- New York, a second after the last trigger.
trigger_west_always_example :
    if_trigger_local_timer 1_000_000_001
      (2 ^ 32 - 18_000)
      (pos 1_000_000_000)
      (pos 86_400)
      (pos 10_800)
    ≡ true
trigger_west_always_example =
    trigger_west_always 1_000_000_001 18_000 1_000_000_000 86_400 10_800 (omega arith) (omega arith)
      (omega arith) (omega arith) (omega arith) (omega arith) (omega arith) (omega arith)

-- India, where five hours and a half give five, and New York.
init_time_zone_lem_example :
    (init_time_zone (pos (1_000_000 + 19_800)) (pos 1_000_000) ≡ 5 * 3600)
    × (init_time_zone (pos 1_000_000) (pos (1_000_000 + 18_000)) ≡ 2 ^ 32 - 18_000 / 3600 * 3600)
init_time_zone_lem_example =
    init_time_zone_lem 1_000_000 19_800 18_000 (omega arith) (omega arith) (omega arith)

-- A watch that has measured 5 ticks, and one that is new.
abbrev watches : List (ℕ × SFunTime)
watches = (1, record { begin = 10; end = 15; sum = 5 }) ∷ (2, new_fun_time) ∷ []

print_all_fun_time-watches : print_all_fun_time watches ≡ (1, 5) ∷ (2, 0) ∷ []
unfolding print_all_fun_time
print_all_fun_time-watches = refl
