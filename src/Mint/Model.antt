-- ===== src/Mint/Model.antt =====
-- The rows that minting reads and writes (prisma/schema.prisma).
use d_reader_backend.Base.{ℕ, zero, suc, String, Bool, true, false, Option, none, some, List}

pub data CouponType : Type 0 where
  whitelisted_wallet whitelisted_user registered_user public_user : CouponType

pub data TokenStandard : Type 0 where
  legacy compression core : TokenStandard

pub data TransactionStatus : Type 0 where
  processing confirmed failed : TransactionStatus

-- `CandyMachineCoupon`
pub record Coupon : Type 0 where
  pub id : ℕ
  pub supply : ℕ
  pub number_of_redemptions : Option ℕ
  pub starts_at : Option ℕ
  pub expires_at : Option ℕ
  pub type : CouponType
  pub is_sponsored : Bool

-- `CandyMachineReceipt`, by the fields that the counts read
pub record MintReceipt : Type 0 where
  pub user_id : Option ℕ
  pub buyer_address : String
  pub coupon_id : ℕ
  pub number_of_items : ℕ
  pub status : TransactionStatus

pub record WhitelistedWallet : Type 0 where
  pub coupon_id : ℕ
  pub wallet_address : String

pub record WhitelistedUser : Type 0 where
  pub coupon_id : ℕ
  pub user_id : ℕ

pub record MintStore : Type 0 where
  pub receipts : List MintReceipt
  pub wallets : List WhitelistedWallet
  pub users : List WhitelistedUser

pub data MintError : Type 0 where
  coupon_not_active coupon_expired invalid_token_standard : MintError
  unauthorized_coupon user_not_eligible wallet_not_eligible : MintError
  unauthorized_redemption mint_limit_reached : MintError
  -- the lamports, or the units of the token, that are missing
  missing_fee missing_sol missing_token : ℕ → MintError

-- A number that may be `undefined` is true in a test if it is there and is not 0.
abbrev pub truthy : Option ℕ → Bool
truthy none = false
truthy (some zero) = false
truthy (some (suc n)) = true

-- `publicMintTypes.includes(couponType)`
abbrev pub is_public_mint : CouponType → Bool
is_public_mint public_user = true
is_public_mint whitelisted_wallet = true
is_public_mint registered_user = false
is_public_mint whitelisted_user = false

abbrev pub is_confirmed : TransactionStatus → Bool
is_confirmed processing = false
is_confirmed confirmed = true
is_confirmed failed = false
