-- ===== src/Mint/Checks.antt =====
-- The checks of `prepareMintTransaction` in src/candy-machine/candy-machine.service.ts, in their
-- order. Answers that the service caches are read from the store of the moment.
pub mod Allowed
pub mod Limit
use d_reader_backend.Base.{
  ℕ, zero, suc, ◌+◌, String, Bool, true, false, not, ◌&&◌, ◌||◌, Option, none, some, List, ◌==◌,
  nat_eq, string_eq, ltb, leb, if◌then◌else◌, any, sum_of, find_many, find_first, Result, ok, err,
  Check, fail_if, ◌then_check◌,
}
use d_reader_backend.Mint.Model.{
  CouponType, whitelisted_user, whitelisted_wallet, registered_user, public_user, TokenStandard,
  core, legacy, compression, MintReceipt, MintStore, MintError, coupon_not_active, coupon_expired,
  invalid_token_standard, unauthorized_coupon, user_not_eligible, wallet_not_eligible,
  unauthorized_redemption, mint_limit_reached, truthy, is_public_mint, is_confirmed,
}
use d_reader_backend.Mint.Balance.{Payment, validate_balance_for_mint}

-- a date that is set, and fails the test
abbrev date_is : Option ℕ → (ℕ → Bool) → Bool
date_is none test = false
date_is (some t) test = test t

unfoldable pub validate_coupon_dates : Option ℕ → Option ℕ → ℕ → Check MintError
validate_coupon_dates starts_at expires_at now =
    if date_is starts_at (λ t. ltb now t)
    then err coupon_not_active
    else if date_is expires_at (λ t. ltb t now)
    then err coupon_expired
    else ok tt

unfoldable pub validate_token_standard : TokenStandard → Check MintError
validate_token_standard core = ok tt
validate_token_standard legacy = err invalid_token_standard
validate_token_standard compression = err invalid_token_standard

unfoldable pub find_if_wallet_whitelisted : String → ℕ → MintStore → Bool
find_if_wallet_whitelisted wallet coupon_id s =
    any (λ w. (w.wallet_address == wallet) && (w.coupon_id == coupon_id)) s.wallets

unfoldable pub find_if_user_whitelisted : ℕ → ℕ → MintStore → Bool
find_if_user_whitelisted user_id coupon_id s =
    any (λ u. (u.user_id == user_id) && (u.coupon_id == coupon_id)) s.users

-- `where: { userId }`, which leaves the condition out where `userId` is `undefined`
abbrev of_user : Option ℕ → Option ℕ → Bool
of_user none owner = true
of_user (some user_id) none = false
of_user (some user_id) (some owner) = owner == user_id

unfoldable pub count_user_items_minted : Option ℕ → ℕ → MintStore → ℕ
count_user_items_minted user_id coupon_id s =
    sum_of (λ r. r.number_of_items)
      (find_many
        (λ r. of_user user_id r.user_id && (r.coupon_id == coupon_id) && is_confirmed r.status)
        s.receipts)

unfoldable pub count_wallet_items_minted : String → ℕ → MintStore → ℕ
count_wallet_items_minted wallet coupon_id s =
    sum_of (λ r. r.number_of_items)
      (find_many
        (λ r. (r.buyer_address == wallet) && (r.coupon_id == coupon_id) && is_confirmed r.status)
        s.receipts)

abbrev whitelist_check : CouponType → Option ℕ → String → ℕ → MintStore → Check MintError
whitelist_check whitelisted_user (some user_id) wallet coupon_id s =
    if find_if_user_whitelisted user_id coupon_id s then ok tt else err user_not_eligible
whitelist_check whitelisted_user none wallet coupon_id s = err user_not_eligible
whitelist_check whitelisted_wallet user wallet coupon_id s =
    if find_if_wallet_whitelisted wallet coupon_id s then ok tt else err wallet_not_eligible
whitelist_check registered_user user wallet coupon_id s = ok tt
whitelist_check public_user user wallet coupon_id s = ok tt

unfoldable pub validate_mint_eligibility :
    CouponType → Option ℕ → String → ℕ → MintStore → Check MintError
validate_mint_eligibility type user_id wallet coupon_id s =
    if not (is_public_mint type) && not (truthy user_id)
    then err unauthorized_coupon
    else whitelist_check type user_id wallet coupon_id s

-- the items that count against the limit
unfoldable pub items_minted : CouponType → ℕ → String → Option ℕ → MintStore → ℕ
items_minted type coupon_id wallet user_id s =
    if is_public_mint type
    then count_wallet_items_minted wallet coupon_id s
    else count_user_items_minted user_id coupon_id s

unfoldable pub validate_mint_limit :
    Option ℕ → ℕ → CouponType → ℕ → String → Option ℕ → MintStore → Check MintError
validate_mint_limit none number_of_items type coupon_id wallet user_id s = ok tt
validate_mint_limit (some zero) number_of_items type coupon_id wallet user_id s =
    err unauthorized_redemption
validate_mint_limit (some (suc n)) number_of_items type coupon_id wallet user_id s =
    if ltb (suc n) (items_minted type coupon_id wallet user_id s + number_of_items)
    then err mint_limit_reached
    else ok tt

-- `CandyMachineMintData`, with what the wallet holds
pub record MintRequest : Type 0 where
  pub coupon_id : ℕ
  pub coupon_type : CouponType
  pub number_of_redemptions : Option ℕ
  pub starts_at : Option ℕ
  pub expires_at : Option ℕ
  pub payment : Payment
  pub wallet : String
  pub user_id : Option ℕ

-- the checks of `prepareMintTransaction`, once `findCandyMachineCouponData` found the coupon and the
-- balances are known
unfoldable pub prepare_mint_transaction : MintRequest → ℕ → MintStore → Check MintError
prepare_mint_transaction q now s =
    validate_coupon_dates q.starts_at q.expires_at now
    then_check validate_token_standard q.payment.token_standard
    then_check validate_mint_eligibility q.coupon_type q.user_id q.wallet q.coupon_id s
    then_check validate_balance_for_mint q.payment
    then_check validate_mint_limit q.number_of_redemptions q.payment.number_of_items q.coupon_type
        q.coupon_id q.wallet q.user_id s
