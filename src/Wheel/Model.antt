-- ===== src/Wheel/Model.antt =====
-- The rows that the wheel reads and writes (prisma/schema.prisma), and what
-- src/wheel/wheel.service.ts calls outside itself. Instants are milliseconds since the epoch.
use d_reader_backend.Base.{ℕ, String, Bool, Option, List, Result, Action}
use d_reader_backend.Base.Int.{ℤ}

pub data WheelType : Type 0 where
  daily weekly monthly : WheelType

-- `WheelRewardType`; its `None` is `nothing`
pub data RewardType : Type 0 where
  collectible_comic print_edition one_of_one physical fungible nothing : RewardType

pub record Wheel : Type 0 where
  pub id : ℕ
  pub name : String
  pub type : WheelType
  pub starts_at : ℕ
  pub expires_at : Option ℕ
  pub win_probability : ℤ
  pub is_active : Bool

pub record Reward : Type 0 where
  pub id : ℕ
  pub name : String
  pub wheel_id : ℕ
  pub weight : ℕ
  pub type : RewardType

pub record Drop : Type 0 where
  pub id : ℕ
  pub item_id : String
  pub amount : ℕ
  pub reward_id : ℕ
  pub is_active : Bool

-- `WheelRewardReceipt`, without its generated key
pub record Receipt : Type 0 where
  pub wheel_id : ℕ
  pub reward_id : ℕ
  pub user_id : ℕ
  pub wallet_address : Option String
  pub transaction_signature : Option String
  pub drop_id : Option ℕ
  pub drop_name : String
  pub amount : ℕ
  pub claimed_at : Option ℕ
  pub created_at : ℕ

pub record Wallet : Type 0 where
  pub address : String
  pub user_id : Option ℕ
  pub connected_at : Option ℕ

pub record PhysicalItem : Type 0 where
  pub id : String
  pub name : String

pub record SplToken : Type 0 where
  pub address : String
  pub symbol : String

pub record DigitalAsset : Type 0 where
  pub address : String
  pub owner_address : String
  pub owner_changed_at : ℕ

-- what `handleActivityNotification` is told of a spin
pub record Notification : Type 0 where
  pub user_id : ℕ
  pub target_id : ℕ
  pub target_title : String

pub record Store : Type 0 where
  pub wheels : List Wheel
  pub rewards : List Reward
  pub drops : List Drop
  pub receipts : List Receipt
  pub wallets : List Wallet
  pub physical_items : List PhysicalItem
  pub spl_tokens : List SplToken
  pub digital_assets : List DigitalAsset
  pub notifications : List Notification

-- one of the parts of the text of the cooldown: `2 hours` is 2, `hour`, plural
pub data TimeUnit : Type 0 where
  day hour minute second : TimeUnit

pub record Part : Type 0 where
  pub value : ℕ
  pub unit : TimeUnit
  pub plural : Bool

pub data Error : Type 0 where
  wheel_not_exists reward_not_exists : ℕ → Error
  connect_wallet wheel_not_active wheel_expired : Error
  no_spin_left : List Part → Error
  no_active_wheels winning_probability expiry_before_start : Error
  type_error : Error  -- a field of `null` or `undefined` is read
  record_not_found : Error  -- an `update` finds no row
  outside : Error  -- a call of the chain throws

-- what `fetchAssetV1` returns
pub record Asset : Type 0 where
  pub owner : String
  pub name : String
  pub collection : Option String

-- the instruction that the vault signs
pub data Transfer : Type 0 where
  sol : (destination : String) → (amount : ℕ) → Transfer
  tokens : (mint destination : String) → (amount : ℕ) → Transfer
  asset : (address : String) → (collection : Option String) → (new_owner : String) → Transfer

-- The chain, and the digital-asset service by its three `findOne…` methods, which give the title
-- of the notification.
pub record Outside : Type 0 where
  pub treasury : String
  pub sol_address : String
  pub sol_balance : String → Result Error ℕ
  pub token_balance : (mint owner : String) → Result Error (Option ℕ)
  pub fetch_asset : String → Result Error Asset
  pub send : Transfer → Result Error String
  pub title_of : RewardType → String → Result Error String

-- `date-fns`
pub record Calendar : Type 0 where
  pub add_hours : ℕ → ℕ → ℕ
  pub sub_hours : ℕ → ℕ → ℕ
  pub sub_days : ℕ → ℕ → ℕ
  pub sub_months : ℕ → ℕ → ℕ

-- A value of `Math.random()`, as the fraction num / den.
pub record Random : Type 0 where
  pub num : ℕ
  pub den : ℕ

abbrev pub M : Type 0 → Type 0
M = Action Store Error
