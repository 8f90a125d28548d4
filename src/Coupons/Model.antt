-- ===== src/Coupons/Model.antt =====
-- The rows of the coupons of candy machines (prisma/schema.prisma).
use d_reader_backend.Base.{string_eq, ◌&&◌, ◌==◌, Bool, Option, String, List, Action, ℕ}
use d_reader_backend.Coupons.Labels.{same_label, Label}
use d_reader_backend.Mint.Model.{CouponType, TokenStandard, WhitelistedWallet, WhitelistedUser}

pub data DeskError : Type 0 where
  token_unsupported group_exists : DeskError
  chain_error : DeskError  -- a call of the chain throws
  type_error : DeskError  -- a field of `null` or `undefined` is read
  record_not_found : DeskError  -- a `connect` or an `update` finds no row
  unique_violation : DeskError  -- a row with the same unique key exists

pub record User : Type 0 where
  pub id : ℕ
  pub username : String

-- `CandyMachineCoupon`
pub record Coupon : Type 0 where
  pub id : ℕ
  pub type : CouponType
  pub machine : String
  pub supply : ℕ
  pub number_of_redemptions : Option ℕ
  pub starts_at : Option ℕ
  pub expires_at : Option ℕ
  pub is_sponsored : Bool

-- `CandyMachineCouponCurrencySetting`
pub record Setting : Type 0 where
  pub label : Label
  pub coupon_id : ℕ
  pub machine : String
  pub spl_token : String
  pub mint_price : ℕ
  pub usdc_equivalent : ℕ

-- `SplToken`
pub record Token : Type 0 where
  pub address : String
  pub decimals : ℕ
  pub symbol : String

-- `CandyMachine`
pub record Machine : Type 0 where
  pub address : String
  pub collection : String
  pub standard : TokenStandard

-- a group of the guard of a candy machine on chain
pub record Group : Type 0 where
  pub machine : String
  pub label : Label

-- the tables, and the groups on chain
pub record Desk : Type 0 where
  pub users : List User
  pub coupons : List Coupon
  pub settings : List Setting
  pub wallet_rows : List WhitelistedWallet
  pub user_rows : List WhitelistedUser
  pub wallets : List String
  pub tokens : List Token
  pub machines : List Machine
  pub groups : List Group

abbrev pub M : Type 0 → Type 0
M = Action Desk DeskError

abbrev pub is_group : String → Label → Group → Bool
is_group machine label g = (g.machine == machine) && same_label g.label label
