-- ===== src/Mint/Stats.antt =====
-- The eligibility that is shown with a coupon: `getCandyMachineCouponStats` and the four checks
-- behind it, in src/candy-machine/candy-machine.service.ts.
pub mod Agreement
use d_reader_backend.Base.{
  ℕ, zero, suc, String, Bool, true, false, not, ◌&&◌, Option, none, some, ◌==◌, string_eq, ltb, leb,
  if◌then◌else◌,
}
use d_reader_backend.Mint.Model.{
  Coupon, CouponType, whitelisted_user, whitelisted_wallet, registered_user, public_user, MintStore,
  truthy, is_public_mint,
}
use d_reader_backend.Mint.Checks.{
  find_if_wallet_whitelisted, find_if_user_whitelisted, count_wallet_items_minted,
  count_user_items_minted,
}

pub record Stats : Type 0 where
  pub is_eligible : Bool
  pub items_minted : Option ℕ

-- `coupon.numberOfRedemptions ? coupon.numberOfRedemptions <= itemsMinted : false`
abbrev limit_reached : Option ℕ → ℕ → Bool
limit_reached none minted = false
limit_reached (some zero) minted = false
limit_reached (some (suc n)) minted = leb (suc n) minted

unfoldable pub check_whitelisted_wallet : Coupon → String → MintStore → Stats
check_whitelisted_wallet c wallet s =
    let minted = count_wallet_items_minted wallet c.id s in
    record {
      is_eligible =
          not (limit_reached c.number_of_redemptions minted)
          && find_if_wallet_whitelisted wallet c.id s;
      items_minted = some minted;
    }

unfoldable pub check_whitelisted_user : Coupon → ℕ → MintStore → Stats
check_whitelisted_user c user_id s =
    let minted = count_user_items_minted (some user_id) c.id s in
    record {
      is_eligible =
          not (limit_reached c.number_of_redemptions minted)
          && find_if_user_whitelisted user_id c.id s;
      items_minted = some minted;
    }

-- `!isNull(n) ? n > itemsMinted : true`
abbrev above_or_null : Option ℕ → ℕ → Bool
above_or_null none minted = true
above_or_null (some n) minted = ltb minted n

unfoldable pub check_public : Coupon → String → MintStore → Stats
check_public c wallet s =
    let minted = count_wallet_items_minted wallet c.id s in
    record {
      is_eligible = above_or_null c.number_of_redemptions minted;
      items_minted = some minted;
    }

-- `n ? n > itemsMinted : true`
abbrev above_or_falsy : Option ℕ → ℕ → Bool
above_or_falsy none minted = true
above_or_falsy (some zero) minted = true
above_or_falsy (some (suc n)) minted = ltb minted (suc n)

unfoldable pub check_user : Coupon → ℕ → MintStore → Stats
check_user c user_id s =
    let minted = count_user_items_minted (some user_id) c.id s in
    record {
      is_eligible = above_or_falsy c.number_of_redemptions minted;
      items_minted = some minted;
    }

abbrev not_eligible : Stats
not_eligible = record { is_eligible = false; items_minted = none }

-- for a wallet address that may be missing; a missing and an empty one are false in a test
abbrev with_wallet : Option String → (String → Stats) → Stats
with_wallet none check = not_eligible
with_wallet (some wallet) check = if wallet == "" then not_eligible else check wallet

-- for a user that may be missing
abbrev with_user : Option ℕ → (ℕ → Stats) → Stats
with_user none check = not_eligible
with_user (some zero) check = not_eligible
with_user (some (suc id)) check = check (suc id)

abbrev stats_by_type : CouponType → Coupon → Option String → Option ℕ → MintStore → Stats
stats_by_type public_user c wallet user s = with_wallet wallet (λ w. check_public c w s)
stats_by_type registered_user c wallet user s = with_user user (λ u. check_user c u s)
stats_by_type whitelisted_user c wallet user s = with_user user (λ u. check_whitelisted_user c u s)
stats_by_type whitelisted_wallet c wallet user s =
    with_wallet wallet (λ w. check_whitelisted_wallet c w s)

unfoldable pub get_candy_machine_coupon_stats :
    Coupon → Option String → Option ℕ → MintStore → Stats
unfolding check_public check_user check_whitelisted_user check_whitelisted_wallet
get_candy_machine_coupon_stats c wallet user s = stats_by_type c.type c wallet user s
