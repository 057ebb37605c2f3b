-- ===== src/Timer/FunTime.antt =====
-- The stop watches of `TimerThread`: `fun_time_test_begin` and `fun_time_test_end`. The name of a
-- watch is a number here: what is asked of the names is only whether two are the same.
use qing.Common.{ℕ, ◌+◌, Option, none, some, List, map, u64, sub64}
use qing.Common.OrdMap.{find, insert, update}

pub record SFunTime : Type 0 where
  pub begin : ℕ
  pub end : ℕ
  pub sum : ℕ

abbrev pub new_fun_time : SFunTime
new_fun_time = record { begin = 0; end = 0; sum = 0 }

abbrev pub begun : ℕ → SFunTime → SFunTime
begun clock w = record w { begin = clock }

-- `_sum += _end - _begin` on uint64_t.
abbrev pub ended : ℕ → SFunTime → SFunTime
ended clock w = record w { end = clock; sum = u64 (w.sum + sub64 clock w.begin) }

-- Each `_fun_time_test[name]` makes an entry where there is none.
unfoldable pub fun_time_test_begin : ℕ → ℕ → List (ℕ × SFunTime) → List (ℕ × SFunTime)
fun_time_test_begin clock name m = update name (begun clock) (insert name new_fun_time m)

unfoldable pub fun_time_test_end : ℕ → ℕ → List (ℕ × SFunTime) → List (ℕ × SFunTime)
fun_time_test_end clock name m = update name (ended clock) (insert name new_fun_time m)

-- The names and the numbers that `print_all_fun_time` hands to printf, line by line.
unfoldable pub print_all_fun_time : List (ℕ × SFunTime) → List (ℕ × ℕ)
print_all_fun_time m = map (λ (name, w). (name, w.sum)) m

abbrev pub or_new : Option SFunTime → SFunTime
or_new none = new_fun_time
or_new (some w) = w

-- The entry that `_fun_time_test[name]` reads.
abbrev pub entry : ℕ → List (ℕ × SFunTime) → SFunTime
entry name m = or_new (find name m)

-- The time that a watch has measured, which is 0 where the name is new.
abbrev pub measured : ℕ → List (ℕ × SFunTime) → ℕ
measured name m = (entry name m).sum
