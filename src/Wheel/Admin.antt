-- ===== src/Wheel/Admin.antt =====
-- The administration of wheels, and `get`, in src/wheel/wheel.service.ts. `fresh` is the key that
-- the database gives to the first new row; images and slugs are left out.
pub mod Reachable
pub mod NextSpin
use d_reader_backend.Base.{
  ℕ, suc, ◌+◌, String, Bool, true, false, not, ◌&&◌, Option, none, some, List, [], ◌∷◌, ◌++◌, ◌==◌,
  nat_eq, leb, if◌then◌else◌, find_first, find_many, update_where, any, pure, throw, throw_if, gets,
  or_throw, lift, modify, ◌>>=◌, ◌>>◌, is_some,
}
use d_reader_backend.Base.Int.{ℤ, exceeds}
use d_reader_backend.Wheel.Model.{
  M, Store, Wheel, WheelType, Reward, RewardType, nothing, Drop, Calendar, Receipt,
  wheel_not_exists, reward_not_exists, winning_probability, no_active_wheels, record_not_found,
}
use d_reader_backend.Wheel.Dates.{validate_wheel_date}
use d_reader_backend.Wheel.Spin.{is_recent}

-- `CreateWheelDto`
pub record NewWheel : Type 0 where
  pub name : String
  pub type : WheelType
  pub starts_at : ℕ
  pub expires_at : Option ℕ
  pub win_probability : ℤ

-- `AddDropDto`
pub record NewDrop : Type 0 where
  pub amount : ℕ
  pub item_id : String

-- `AddRewardDto`
pub record NewReward : Type 0 where
  pub name : String
  pub weight : ℕ
  pub type : RewardType
  pub drops : List NewDrop

-- the new rows of a `createMany` of drops
abbrev new_drops : ℕ → ℕ → List NewDrop → List Drop
new_drops fresh reward_id [] = []
new_drops fresh reward_id (d ∷ ds) =
    record {
      id = fresh;
      item_id = d.item_id;
      amount = d.amount;
      reward_id = reward_id;
      is_active = true;
    }
    ∷ new_drops (suc fresh) reward_id ds

abbrev wheel_of : ℕ → NewWheel → Wheel
wheel_of id dto = record {
  id = id;
  name = dto.name;
  type = dto.type;
  starts_at = dto.starts_at;
  expires_at = dto.expires_at;
  win_probability = dto.win_probability;
  is_active = true;
}

-- the reward for nothing, which every wheel is created with
abbrev no_reward_of : ℕ → ℕ → Reward
no_reward_of id wheel_id = record {
  id = id;
  name = "None";
  wheel_id = wheel_id;
  weight = 0;
  type = nothing;
}

unfoldable pub create : ℕ → ℕ → NewWheel → M Wheel
unfolding validate_wheel_date
create wheel_id reward_id dto = do
  lift (validate_wheel_date dto.starts_at dto.expires_at)
  throw_if (not (exceeds dto.win_probability 0) && exceeds dto.win_probability 99)
      winning_probability
  modify (λ s. record s {
    wheels = wheel_of wheel_id dto ∷ s.wheels;
    rewards = no_reward_of reward_id wheel_id ∷ s.rewards;
  })
  pure (wheel_of wheel_id dto)

unfoldable pub add_reward : ℕ → ℕ → ℕ → NewReward → M Reward
add_reward fresh reward_id wheel_id dto = do
  wheel ←
      or_throw (← gets (λ s. find_first (λ w. w.id == wheel_id) s.wheels))
        (wheel_not_exists wheel_id)
  let reward : Reward = record {
    id = reward_id;
    name = dto.name;
    wheel_id = wheel_id;
    weight = dto.weight;
    type = dto.type;
  }
  modify (λ s. record s {
    rewards = reward ∷ s.rewards;
    drops = new_drops fresh reward_id dto.drops ++ s.drops;
  })
  pure reward

unfoldable pub add_drops : ℕ → ℕ → List NewDrop → M (Unit {0})
add_drops fresh reward_id drops = do
  reward ←
      or_throw (← gets (λ s. find_first (λ r. r.id == reward_id) s.rewards))
        (reward_not_exists reward_id)
  modify (λ s. record s { drops = new_drops fresh reward_id drops ++ s.drops })

unfoldable pub remove_drops : ℕ → List ℕ → M (Unit {0})
remove_drops reward_id ids = do
  reward ←
      or_throw (← gets (λ s. find_first (λ r. r.id == reward_id) s.rewards))
        (reward_not_exists reward_id)
  modify (λ s. record s { drops = find_many (λ d. not (any (λ i. i == d.id) ids)) s.drops })

abbrev or_old {ℓ} : {A : Type ℓ} → Option A → A → A
or_old none old = old
or_old (some new) old = new

-- `UpdateWheelDto` and `UpdateRewardDto`: a field that is not given stays
pub record WheelChanges : Type 0 where
  pub name : Option String
  pub type : Option WheelType
  pub starts_at : Option ℕ
  pub expires_at : Option ℕ
  pub win_probability : Option ℤ

pub record RewardChanges : Type 0 where
  pub name : Option String
  pub weight : Option ℕ
  pub type : Option RewardType

abbrev changed_wheel : WheelChanges → Wheel → Wheel
changed_wheel dto w = record w {
  name = or_old dto.name w.name;
  type = or_old dto.type w.type;
  starts_at = or_old dto.starts_at w.starts_at;
  expires_at = elim dto.expires_at [ none ↦ w.expires_at | some t ↦ some t ];
  win_probability = or_old dto.win_probability w.win_probability;
}

abbrev changed_reward : RewardChanges → Reward → Reward
changed_reward dto r = record r {
  name = or_old dto.name r.name;
  weight = or_old dto.weight r.weight;
  type = or_old dto.type r.type;
}

unfoldable pub update : ℕ → WheelChanges → M Wheel
update id dto = do
  wheel ← or_throw (← gets (λ s. find_first (λ w. w.id == id) s.wheels)) (wheel_not_exists id)
  modify (λ s. record s { wheels = update_where (λ w. w.id == id) (changed_wheel dto) s.wheels })
  pure (changed_wheel dto wheel)

unfoldable pub update_reward : ℕ → RewardChanges → M Reward
update_reward id dto = do
  reward ← or_throw (← gets (λ s. find_first (λ r. r.id == id) s.rewards)) (reward_not_exists id)
  modify (λ s. record s { rewards = update_where (λ r. r.id == id) (changed_reward dto) s.rewards })
  pure (changed_reward dto reward)

-- the end of the cooldown that `get` tells a user
abbrev next_spin_after : Calendar → ℕ → Option Receipt → ℕ
next_spin_after cal later none = later
next_spin_after cal later (some r) = cal.add_hours r.created_at 24

abbrev next_spin_at : Calendar → ℕ → ℕ → ℕ → Option ℕ → Store → Option ℕ
next_spin_at cal wheel_id now later none s = none
next_spin_at cal wheel_id now later (some user_id) s = some (
    next_spin_after cal later
      (find_first (is_recent (cal.sub_hours now 24) user_id wheel_id) s.receipts))

-- `get`; `params.isActive || true` is true
unfoldable pub get : Calendar → Option Bool → Option ℕ → ℕ → ℕ → M (Wheel × Option ℕ)
get cal is_active user now later = do
  wheel ← or_throw (← gets (λ s. find_first (λ w. w.is_active) s.wheels)) no_active_wheels
  next ← gets (next_spin_at cal wheel.id now later user)
  pure (wheel, next)
