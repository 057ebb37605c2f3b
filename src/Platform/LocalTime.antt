-- ===== src/Platform/LocalTime.antt =====
-- `QTimer::GetLocalTime` of src/util/timer.cpp.
use qing.Common.{◌≡◌, refl, false, Option, some, arith, if◌then◌else◌, ◌>>=◌}
use qing.Platform.{Predefined, Systems, goes_on, define, systems}

-- From what `stTime` held. `windows_time`: what `localtime_s` gives, none if it fails; `linux_time`:
-- what `localtime_r` gives. No result: the program exits.
unfoldable get_local_time {ℓ} : {A : Type ℓ} → Systems → Option A → A → A → Option A
get_local_time s windows_time linux_time st_time =
    (if s.windows then windows_time else some st_time) >>= λ st.
    some (if s.linux then linux_time else st)

-- What the headers accept is not Linux.
define-not_linux : (p : Predefined) (s : Systems) → define p ≡ goes_on s → s.linux ≡ false
unfolding define systems
define-not_linux p s q = ground arith

-- On the systems that the headers accept, but for Windows, the time is left as it was.
get_local_time_lem {ℓ} :
    {A : Type ℓ} (p : Predefined) (s : Systems) (windows_time : Option A) (linux_time st_time : A)
    → define p ≡ goes_on s
    → s.windows ≡ false
    → get_local_time s windows_time linux_time st_time ≡ some st_time
unfolding get_local_time
get_local_time_lem p s windows_time linux_time st_time q w = rw (w, define-not_linux p s q) refl
