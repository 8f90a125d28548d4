-- ===== src/Mint/Stats/Agreement.antt =====
-- The eligibility that is shown against the checks of a mint, in
-- src/candy-machine/candy-machine.service.ts.
use d_reader_backend.Base.{
  ℕ, ◌≡◌, ◌≢◌, ◌↔◌, true, String, Option, some, arith, ok, err, string_eq, eq_iff,
}
use d_reader_backend.Mint.Model.{
  Coupon, CouponType, whitelisted_user, whitelisted_wallet, registered_user, public_user, MintStore,
  unauthorized_redemption,
}
use d_reader_backend.Mint.Checks.{validate_mint_eligibility, validate_mint_limit, items_minted}
use d_reader_backend.Mint.Stats.{get_candy_machine_coupon_stats, stats_by_type}

stats_iff :
    (type : CouponType) (c : Coupon) (wallet : String) (user : Option ℕ) (s : MintStore)
    → wallet ≢ ""
    → c.number_of_redemptions ≢ some 0
    → ((stats_by_type type c (some wallet) user s).is_eligible ≡ true) ↔ (
        (validate_mint_eligibility type user wallet c.id s ≡ ok tt)
        × (validate_mint_limit c.number_of_redemptions 1 type c.id wallet user s ≡ ok tt))
unfolding get_candy_machine_coupon_stats validate_mint_eligibility validate_mint_limit items_minted
stats_iff public_user c wallet user s h k =
    ((λ e. ground (arith, eq_iff wallet "")), (λ e. ground (arith, eq_iff wallet "")))
stats_iff whitelisted_wallet c wallet user s h k =
    ((λ e. ground (arith, eq_iff wallet "")), (λ e. ground (arith, eq_iff wallet "")))
stats_iff registered_user c wallet user s h k = ((λ e. ground arith), (λ e. ground arith))
stats_iff whitelisted_user c wallet user s h k = ((λ e. ground arith), (λ e. ground arith))

-- For a coupon with no limit or one above 0, a wallet and a user are shown as eligible exactly if
-- the eligibility check and the limit check let them mint one item.
pub stats-validate_iff :
    (c : Coupon) (wallet : String) (user : Option ℕ) (s : MintStore)
    → wallet ≢ ""
    → c.number_of_redemptions ≢ some 0
    → ((get_candy_machine_coupon_stats c (some wallet) user s).is_eligible ≡ true) ↔ (
        (validate_mint_eligibility c.type user wallet c.id s ≡ ok tt)
        × (validate_mint_limit c.number_of_redemptions 1 c.type c.id wallet user s ≡ ok tt))
unfolding get_candy_machine_coupon_stats
stats-validate_iff c wallet user s h k = stats_iff c.type c wallet user s h k

-- For a coupon with a limit of 0 that is not the public one, whoever passes the eligibility check
-- is shown as eligible, and can mint nothing.
pub stats_eligible-zero :
    (c : Coupon) (wallet : String) (user : Option ℕ) (n : ℕ) (s : MintStore)
    → wallet ≢ ""
    → c.number_of_redemptions ≡ some 0
    → c.type ≢ public_user
    → validate_mint_eligibility c.type user wallet c.id s ≡ ok tt
    → ((get_candy_machine_coupon_stats c (some wallet) user s).is_eligible ≡ true)
      × (validate_mint_limit c.number_of_redemptions n c.type c.id wallet user s
          ≡ err unauthorized_redemption)
unfolding get_candy_machine_coupon_stats validate_mint_eligibility validate_mint_limit
stats_eligible-zero c wallet user n s h k t e = ground (arith, eq_iff wallet "")
