-- ===== src/Users/Referrals.antt =====
-- `redeemReferral` of src/user/user.service.ts. Its update connects the referrer and takes one off
-- the referrals that the connected row has left. `none` of the result is `undefined`.
use d_reader_backend.Base.{
  ℕ, ◌-◌, String, Option, none, some, ◌==◌, nat_eq, string_eq, find_first, if◌then◌else◌, is_some,
  pure, throw, modify,
}
use d_reader_backend.Users.Model.{
  M, User, Outside, already_referred, cannot_refer_yourself, type_error,
}
use d_reader_backend.Users.Names.{has_name, set_user}

abbrev pub refer : ℕ → ℕ → User → User
refer referrer_id now u = record u { referred_at = some now; referrer_id = some referrer_id }

abbrev pub use_referral : User → User
use_referral u = record u { referrals_remaining = u.referrals_remaining - 1 }

-- the part on the referee that is found
unfoldable pub refer_found : Option User → User → ℕ → M (Unit {0})
refer_found none referrer now s = throw type_error s
refer_found (some referee) referrer now s =
    if is_some referee.referred_at
    then throw already_referred s
    else modify
        (λ s. set_user referrer.id use_referral (set_user referee.id (refer referrer.id now) s)) s

-- the part on the referrer that is found
unfoldable pub refer_by : Option User → ℕ → ℕ → M (Unit {0})
unfolding refer_found
refer_by none referee_id now s = pure tt s
refer_by (some referrer) referee_id now s =
    if referrer.referrals_remaining == 0
    then pure tt s
    else if referrer.id == referee_id
    then throw cannot_refer_yourself s
    else refer_found (find_first (λ u. u.id == referee_id) s.users) referrer now s

unfoldable pub redeem_referral : Outside → Option String → ℕ → ℕ → M (Unit {0})
unfolding refer_by
redeem_referral out none referee_id now s = pure tt s
redeem_referral out (some ref) referee_id now s =
    if ref == ""
    then pure tt s
    else if referee_id == 0
    then pure tt s
    else refer_by (find_first (has_name out ref) s.users) referee_id now s
