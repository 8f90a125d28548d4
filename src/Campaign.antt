-- ===== src/Campaign.antt =====
-- Interest in campaigns: `expressUserInterest`, `redeemReferral` and `findStats` of
-- src/campaign/campaign.service.ts. The text search of the database that ignores case is a
-- parameter, and so is the key of a new row. The message to the clients is left out.
pub mod Pledges
pub mod Referrals
mod Tests
use d_reader_backend.Base.{
  ℕ, zero, String, Bool, not, ◌&&◌, Option, none, some, List, ◌∷◌, ◌==◌, nat_eq, string_eq,
  if◌then◌else◌, any, find_first, find_many, update_where, length, sum_of, Result, ok, err, Action,
  throw, modify, pure, ◌>>◌, ◌>>=◌,
}

pub record User : Type 0 where
  pub id : ℕ
  pub username : String

-- `CampaignReward`
pub record Reward : Type 0 where
  pub id : ℕ
  pub price : ℕ
  pub campaign_id : ℕ

-- `UserCampaignInterest`
pub record Interest : Type 0 where
  pub id : ℕ
  pub campaign_id : ℕ
  pub reward_id : ℕ
  pub expressed_interest_at : ℕ
  pub user_id : ℕ
  pub referrer_id : Option ℕ

pub record CampaignStore : Type 0 where
  pub users : List User
  pub rewards : List Reward
  pub interests : List Interest

pub data CampaignError : Type 0 where
  reward_not_found failed_to_express_interest referee_id_missing cannot_refer_yourself
        record_not_found :
      CampaignError

abbrev M : Type 0 → Type 0
M = Action CampaignStore CampaignError

abbrev pub is_interest : ℕ → ℕ → Interest → Bool
is_interest campaign_id user_id i = (i.campaign_id == campaign_id) && (i.user_id == user_id)

abbrev has_user : ℕ → CampaignStore → Bool
has_user user_id s = any (λ u. u.id == user_id) s.users

abbrev pub set_reward : ℕ → Interest → Interest
set_reward reward_id i = record i { reward_id = reward_id }

abbrev interest_of : ℕ → Reward → ℕ → ℕ → Interest
interest_of fresh r user_id now = record {
  id = fresh;
  campaign_id = r.campaign_id;
  reward_id = r.id;
  expressed_interest_at = now;
  user_id = user_id;
  referrer_id = none;
}

-- `userCampaignInterest.upsert`
unfoldable pub upsert_interest : ℕ → Reward → ℕ → ℕ → M (Unit {0})
upsert_interest fresh r user_id now s =
    if any (is_interest r.campaign_id user_id) s.interests
    then modify
        (λ s. record s {
          interests =
              update_where (is_interest r.campaign_id user_id) (set_reward r.id) s.interests;
        })
        s
    else if not (has_user user_id s)
    then throw record_not_found s
    else modify (λ s. record s { interests = interest_of fresh r user_id now ∷ s.interests }) s

-- the row that `redeemReferral` updates
abbrev pub is_row : ℕ → ℕ → Interest → Bool
is_row id campaign_id i = (i.id == id) && (i.campaign_id == campaign_id)

abbrev set_referrer : ℕ → Interest → Interest
set_referrer referrer_id i = record i { referrer_id = some referrer_id }

-- `redeemReferral`, of the referrer that it finds
unfoldable pub apply_referral : Option User → ℕ → ℕ → M (Unit {0})
apply_referral none referee_id campaign_id s = pure tt s
apply_referral (some referrer) referee_id campaign_id s =
    if referrer.id == referee_id
    then throw cannot_refer_yourself s
    else if not (any (is_row referee_id campaign_id) s.interests)
    then throw record_not_found s
    else modify
        (λ s. record s {
          interests =
              update_where (is_row referee_id campaign_id) (set_referrer referrer.id) s.interests;
        })
        s

module _ (insensitive : String → String → Bool) where
  unfoldable pub redeem_referral : Option String → ℕ → ℕ → M (Unit {0})
  unfolding apply_referral
  redeem_referral none referee_id campaign_id s = pure tt s
  redeem_referral (some ref) referee_id campaign_id s =
      if ref == ""
      then pure tt s
      else if referee_id == 0
      then throw referee_id_missing s
      else apply_referral (find_first (λ u. insensitive ref u.username) s.users) referee_id
          campaign_id s

  -- `catch`, which throws one message for whatever failed
  abbrev pub or_failed :
      Result CampaignError (Unit {0}) × CampaignStore
      → Result CampaignError (Unit {0}) × CampaignStore
  or_failed (ok u, s) = (ok u, s)
  or_failed (err e, s) = (err failed_to_express_interest, s)

  -- `expressUserInterest`, of the reward that it finds
  unfoldable pub express_interest_in : ℕ → Option Reward → ℕ → Option String → ℕ → M (Unit {0})
  unfolding upsert_interest redeem_referral
  express_interest_in fresh none user_id ref now s = throw reward_not_found s
  express_interest_in fresh (some r) user_id ref now s =
      or_failed
        ((upsert_interest fresh r user_id now >> redeem_referral ref user_id r.campaign_id) s)

  unfoldable pub express_user_interest : ℕ → ℕ → ℕ → Option String → ℕ → M (Unit {0})
  unfolding express_interest_in
  express_user_interest fresh reward_id user_id ref now s =
      express_interest_in fresh (find_first (λ r. r.id == reward_id) s.rewards) user_id ref now s

-- `CampaignStatsInput`
pub record Stats : Type 0 where
  pub tentative_backers : ℕ
  pub tentative_amount_pledged : ℕ
  pub my_tentative_amount : Option ℕ

abbrev price_or_zero : Option Reward → ℕ
price_or_zero none = 0
price_or_zero (some r) = r.price

-- `interest.reward?.price || 0`
abbrev pub price_of : List Reward → Interest → ℕ
price_of rewards i = price_or_zero (find_first (λ r. r.id == i.reward_id) rewards)

abbrev my_amount : List Reward → Option Interest → Option ℕ
my_amount rewards none = none
my_amount rewards (some i) = some (price_of rewards i)

abbrev my_interest : ℕ → Option ℕ → CampaignStore → Option Interest
my_interest campaign_id none s = none
my_interest campaign_id (some zero) s = none
my_interest campaign_id (some user_id) s = find_first (is_interest campaign_id user_id) s.interests

unfoldable pub find_stats : ℕ → Option ℕ → CampaignStore → Stats
find_stats campaign_id user_id s =
    let interests = find_many (λ i. i.campaign_id == campaign_id) s.interests in
    record {
      tentative_backers = length interests;
      tentative_amount_pledged = sum_of (price_of s.rewards) interests;
      my_tentative_amount = my_amount s.rewards (my_interest campaign_id user_id s);
    }
