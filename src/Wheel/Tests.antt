-- ===== src/Wheel/Tests.antt =====
-- Runs of the wheel of src/wheel/wheel.service.ts, and its theorems at concrete inputs.
use d_reader_backend.Base.{
  ◌≤◌, ℕ, ◌+◌, ◌-◌, ◌*◌, ◌≡◌, refl, true, false, Bool, none, some, List, [], ◌∷◌, ◌++◌, ◌==◌,
  nat_eq, arith, ok, err, find_first, any,
}
use d_reader_backend.Base.Int.{pos}
use d_reader_backend.Wheel.Model.{
  Store, Outside, Calendar, Random, Wheel, Reward, Drop, Receipt, weekly, physical, nothing, Error,
}
use d_reader_backend.Wheel.Dates.{last_eligible_spin_date}
use d_reader_backend.Wheel.Pool.{PoolItem, WithDrops, select_drop}
use d_reader_backend.Wheel.Pool.Weights.{item_of, select_drop-some}
use d_reader_backend.Wheel.Spin.{is_recent, spin}
use d_reader_backend.Wheel.Spin.Once.{WonOnce, spin-WonOnce}
use d_reader_backend.Wheel.Spin.Cooldown.{spin_cooldown}
use d_reader_backend.Wheel.Admin.Reachable.{spins, here, next, Reach, Reach-WonOnce}

-- a calendar of plain lengths, with months of 30 days
abbrev plain : Calendar
plain = record {
  add_hours = λ t n. t + n * 3600000;
  sub_hours = λ t n. t - n * 3600000;
  sub_days = λ t n. t - n * 86400000;
  sub_months = λ t n. t - n * 30 * 86400000;
}

-- a chain that answers nothing
abbrev silent : Outside
silent = record {
  treasury = "vault";
  sol_address = "So11111111111111111111111111111111111111112";
  sol_balance = λ _. ok 0;
  token_balance = λ _ _. ok none;
  fetch_asset = λ _. err Error.outside;
  send = λ _. err Error.outside;
  title_of = λ _ _. err Error.outside;
}

abbrev wheel : Wheel
wheel = record {
  id = 1;
  name = "spring";
  type = weekly;
  starts_at = 0;
  expires_at = none;
  win_probability = pos 50;
  is_active = true;
}

abbrev nothing_won : Reward
nothing_won = record { id = 1; name = "None"; wheel_id = 1; weight = 0; type = nothing }

abbrev shirts : Reward
shirts = record { id = 2; name = "shirts"; wheel_id = 1; weight = 3; type = physical }

abbrev shirt : ℕ → Drop
shirt id = record { id = id; item_id = "shirt"; amount = 1; reward_id = 2; is_active = true }

abbrev store : Store
store = record {
  wheels = wheel ∷ [];
  rewards = nothing_won ∷ shirts ∷ [];
  drops = shirt 10 ∷ shirt 11 ∷ [];
  receipts = [];
  wallets = record { address = "w"; user_id = some 7; connected_at = some 1 } ∷ [];
  physical_items = record { id = "shirt"; name = "T-shirt" } ∷ [];
  spl_tokens = [];
  digital_assets = [];
  notifications = [];
}

abbrev low : Random
low = record { num = 1; den = 10 }

abbrev day : ℕ
day = 86400000

-- a spin on day 10 that wins the first shirt
abbrev receipt : Receipt
receipt = record {
  wheel_id = 1;
  reward_id = 2;
  user_id = 7;
  wallet_address = none;
  transaction_signature = none;
  drop_id = some 10;
  drop_name = "T-shirt";
  amount = 1;
  claimed_at = none;
  created_at = 10 * day;
}

abbrev after : Store
after = (spin silent plain low low 1 7 (10 * day) (10 * day) store).1

spin_wins : spin silent plain low low 1 7 (10 * day) (10 * day) store ≡ (ok receipt, after)
unfolding spin
spin_wins = refl

-- the first shirt, and only that, is taken
drops_after : after.drops ≡ record (shirt 10) { is_active = false } ∷ shirt 11 ∷ []
unfolding spin
drops_after = refl

spin-WonOnce_example : WonOnce 10 (spin silent plain low low 1 7 (10 * day) (10 * day) store).1
spin-WonOnce_example =
    spin-WonOnce silent plain low low 1 7 (10 * day) (10 * day) 10 store (omega arith)

week_before : last_eligible_spin_date plain weekly (12 * day) ≤ 10 * day
unfolding last_eligible_spin_date
week_before = omega arith

kept : after.receipts ≡ [] ++ after.receipts
kept = refl

wheel_found : find_first (λ w. w.id == 1) after.wheels ≡ some wheel
unfolding spin
wheel_found = refl

-- a spin two days later, on a weekly wheel
spin_cooldown_example :
    (e : Error) × (spin silent plain low low 1 7 (12 * day) (12 * day) after ≡ (err e, after))
spin_cooldown_example =
    spin_cooldown silent silent plain plain low low low low 1 7 (10 * day) (10 * day) (12 * day)
      (12 * day) store after after receipt wheel [] spin_wins kept wheel_found week_before

reached : Reach store after
reached = next here (spins silent plain low low 1 7 (10 * day) (10 * day) store)

Reach-WonOnce_example : WonOnce 10 after
Reach-WonOnce_example = Reach-WonOnce 10 {s = store} {t = after} (omega arith) reached

pool : List WithDrops
pool = record { reward = shirts; drops = shirt 10 ∷ shirt 11 ∷ [] } ∷ []

is_first : PoolItem → Bool
is_first item = item.drop.id == 10

select_drop-some_example :
    (item : PoolItem) × (select_drop low (item_of shirts (shirt 10) ∷ []) ≡ some item)
select_drop-some_example =
    select_drop-some low (item_of shirts (shirt 10) ∷ []) (omega arith) (omega arith)

active_found : find_first (λ w. w.is_active) after.wheels ≡ some wheel
unfolding spin
active_found = refl

spun_this_week : any (is_recent (plain.sub_days (12 * day) 7) 7 1) after.receipts ≡ true
unfolding spin
spun_this_week = refl

not_spun_today : any (is_recent (plain.sub_hours (12 * day) 24) 7 1) after.receipts ≡ false
unfolding spin
not_spun_today = refl
