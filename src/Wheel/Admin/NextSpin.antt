-- ===== src/Wheel/Admin/NextSpin.antt =====
-- The next spin that `get` of src/wheel/wheel.service.ts announces, against what `spin` allows.
use d_reader_backend.Base.{
  nat_eq, find_first-none, err, ok, ◌==◌, ℕ, ◌≡◌, Option, some, Bool, true, false, any, arith,
  find_first,
}
use d_reader_backend.Wheel.Model.{Store, Outside, Calendar, Random, Wheel, weekly, Error}
use d_reader_backend.Wheel.Dates.{last_eligible_spin_date}
use d_reader_backend.Wheel.Spin.{is_recent, spin}
use d_reader_backend.Wheel.Spin.Cooldown.{spin_refused}
use d_reader_backend.Wheel.Admin.{get}

-- On a weekly wheel, a user who has spun in the last seven days but not in the last 24 hours is
-- told by `get` that the next spin is now, and is refused by `spin`.
pub get_ignores_week :
    (out : Outside) (cal : Calendar) (roll pick : Random) (is_active : Option Bool)
    (user_id now later : ℕ) (s : Store) (wheel : Wheel)
    → find_first (λ w. w.is_active) s.wheels ≡ some wheel
    → find_first (λ w. w.id == wheel.id) s.wheels ≡ some wheel
    → wheel.type ≡ weekly
    → any (is_recent (cal.sub_days now 7) user_id wheel.id) s.receipts ≡ true
    → any (is_recent (cal.sub_hours now 24) user_id wheel.id) s.receipts ≡ false
    → ((get cal is_active (some user_id) now later s).0 ≡ ok (wheel, some later))
      × (e : Error) × (spin out cal roll pick wheel.id user_id now later s ≡ (err e, s))
unfolding get last_eligible_spin_date
get_ignores_week out cal roll pick is_active u now later s wheel active found week recent quiet =
    let (e, refused) =
      spin_refused out cal roll pick wheel.id u now later s wheel found (rw week recent) in
    (
      ground (arith, find_first-none (is_recent (cal.sub_hours now 24) u wheel.id) s.receipts),
      e,
      refused,
    )
