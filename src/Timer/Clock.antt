-- ===== src/Timer/Clock.antt =====
-- Clock arithmetic of `TimerThread` in src/util/time_engine.cpp, over uint64_t.
use qing.Common.{ℕ, ◌+◌, ◌*◌, ◌/◌, u64, sub64}

-- `get_interval_macro_secs`: microseconds between two readings of `get_clock`. `ticks` is the
-- clock's frequency, sysconf(_SC_CLK_TCK) or QueryPerformanceFrequency; the formula is the same.
unfoldable pub get_interval_macro_secs : ℕ → ℕ → ℕ → ℕ
get_interval_macro_secs ticks end_clock start_clock =
    u64 (sub64 end_clock start_clock * 1_000_000) / ticks

-- `get_systime_clock` outside Windows: microseconds since the epoch, of what gettimeofday gives.
unfoldable pub get_systime_clock : ℕ → ℕ → ℕ
get_systime_clock tv_sec tv_usec = u64 (tv_sec * 1000 * 1000 + tv_usec)

-- `time_millisec` and `time_sec`, of the value that `get_systime_clock` returns.
unfoldable pub time_millisec : ℕ → ℕ
time_millisec systime = systime / 1000

unfoldable pub time_sec : ℕ → ℕ
time_sec systime = time_millisec systime / 1000
