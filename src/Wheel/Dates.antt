-- ===== src/Wheel/Dates.antt =====
-- Dates of the wheel: `validateWheelDate` of src/utils/wheel.ts, and the cooldown of
-- src/wheel/wheel.service.ts.
pub mod Parts
use d_reader_backend.Base.{
  ℕ, Option, none, some, List, [], ◌∷◌, ◌++◌, leb, if◌then◌else◌, Check, fail_if, ok,
}
use d_reader_backend.Base.Int.{ℤ, pos, negsuc, sub_ℕ, floor_div, rem}
use d_reader_backend.Wheel.Model.{
  WheelType, daily, weekly, monthly, TimeUnit, day, hour, minute, second, Part, Error,
  expiry_before_start, Calendar,
}

unfoldable pub validate_wheel_date : ℕ → Option ℕ → Check Error
validate_wheel_date starts_at none = ok tt
validate_wheel_date starts_at (some expires_at) =
    fail_if (leb expires_at starts_at) expiry_before_start

-- the `switch` of `spin` on the type of the wheel
unfoldable pub last_eligible_spin_date : Calendar → WheelType → ℕ → ℕ
last_eligible_spin_date cal daily now = cal.sub_hours now 24
last_eligible_spin_date cal weekly now = cal.sub_days now 7
last_eligible_spin_date cal monthly now = cal.sub_months now 1

abbrev pub day_in_ms : ℕ
day_in_ms = 86400000

abbrev pub hour_in_ms : ℕ
hour_in_ms = 3600000

abbrev pub minute_in_ms : ℕ
minute_in_ms = 60000

-- `if (n > 0) cooldownPeriod.push(…)`
unfoldable pub push_part : ℤ → TimeUnit → List Part → List Part
push_part (pos n) unit parts =
    if leb 1 n then parts ++ record { value = n; unit = unit; plural = leb 2 n } ∷ [] else parts
push_part (negsuc n) unit parts = parts

-- the parts for a difference of `time_diff` milliseconds
unfoldable pub cooldown_parts : ℤ → List Part
unfolding push_part
cooldown_parts time_diff =
    let days = floor_div time_diff day_in_ms in
    let hours = floor_div time_diff hour_in_ms in
    let minutes = floor_div (rem time_diff hour_in_ms) minute_in_ms in
    let seconds = floor_div (rem time_diff minute_in_ms) 1000 in
    push_part seconds second
      (push_part minutes minute (push_part hours hour (push_part days day [])))

unfoldable pub get_spin_cooldown_period : Calendar → ℕ → ℕ → List Part
unfolding cooldown_parts
get_spin_cooldown_period cal last_spun_at now =
    cooldown_parts (sub_ℕ (cal.add_hours last_spun_at 24) now)
