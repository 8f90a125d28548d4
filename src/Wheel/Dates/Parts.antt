-- ===== src/Wheel/Dates/Parts.antt =====
-- The text of the cooldown of src/wheel/wheel.service.ts, read back as a number of seconds.
use d_reader_backend.Base.{
  inr, inl, Bool-cases, ℕ, ◌+◌, ◌-◌, ◌*◌, ◌/◌, ◌≡◌, List, arith, sum_of, leb,
}
use d_reader_backend.Base.Int.{pos, negsuc, sub_ℕ}
use d_reader_backend.Wheel.Model.{TimeUnit, day, hour, minute, second, Part, Calendar}
use d_reader_backend.Wheel.Dates.{cooldown_parts, get_spin_cooldown_period, day_in_ms, hour_in_ms}

abbrev pub unit_seconds : TimeUnit → ℕ
unit_seconds day = 86400
unit_seconds hour = 3600
unit_seconds minute = 60
unit_seconds second = 1

abbrev pub seconds_of : List Part → ℕ
seconds_of = sum_of (λ p. p.value * unit_seconds p.unit)

cooldown_parts-pos :
    (n : ℕ) → seconds_of (cooldown_parts (pos n)) ≡ n / 1000 + n / day_in_ms * 86400
unfolding cooldown_parts
cooldown_parts-pos n = ground arith

cooldown_parts-negsuc : (n : ℕ) → seconds_of (cooldown_parts (negsuc n)) ≡ 0
unfolding cooldown_parts
cooldown_parts-negsuc n = ground arith

cooldown_parts-sub_ℕ :
    (a b : ℕ)
    → seconds_of (cooldown_parts (sub_ℕ a b)) ≡ (a - b) / 1000 + (a - b) / day_in_ms * 86400
cooldown_parts-sub_ℕ a b = elim (Bool-cases (leb b a)) [
  | inl before ↦ rw before (cooldown_parts-pos (a - b))
  | inr after ↦ rw after (past (b - a - 1) (ground arith))
]
  where
    past :
        (n : ℕ)
        → a - b ≡ 0
        → seconds_of (cooldown_parts (negsuc n)) ≡ (a - b) / 1000 + (a - b) / day_in_ms * 86400
    past n e = rw e (cooldown_parts-negsuc n)

-- Of a cooldown the text names the seconds up to 24 hours after the last spin, whatever the type
-- of the wheel, and a full day among them twice: once as a day and once more as 24 hours.
pub cooldown-seconds :
    (cal : Calendar) (last_spun_at now : ℕ)
    → ((t : ℕ) → cal.add_hours t 24 ≡ t + 24 * hour_in_ms)
    → let left = last_spun_at + day_in_ms - now in
      seconds_of (get_spin_cooldown_period cal last_spun_at now)
      ≡ left / 1000 + left / day_in_ms * 86400
unfolding get_spin_cooldown_period
cooldown-seconds cal last_spun_at now law =
    rw (law last_spun_at) (cooldown_parts-sub_ℕ (last_spun_at + day_in_ms) now)
