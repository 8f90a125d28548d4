-- ===== src/Campaign/Tests.antt =====
-- Interest in campaigns of src/campaign/campaign.service.ts at concrete inputs.
use d_reader_backend.Base.{
  ℕ, ◌+◌, ◌≡◌, ◌≢◌, refl, String, Bool, true, none, some, [], ◌∷◌, ◌==◌, string_eq, nat_eq, arith,
  any, err,
}
use d_reader_backend.Campaign.{
  User, Reward, Interest, CampaignStore, failed_to_express_interest, is_interest,
  express_user_interest, find_stats,
}
use d_reader_backend.Campaign.Pledges.{own, express_user_interest-find_stats}
use d_reader_backend.Campaign.Referrals.{express_user_interest-referred}

abbrev ann : User
ann = record { id = 7; username = "ann" }

abbrev bob : User
bob = record { id = 8; username = "bob" }

abbrev poster : Reward
poster = record { id = 1; price = 30; campaign_id = 2 }

abbrev book : Reward
book = record { id = 3; price = 50; campaign_id = 2 }

abbrev of_ann : Interest
of_ann = record {
  id = 1;
  campaign_id = 2;
  reward_id = 1;
  expressed_interest_at = 5;
  user_id = 7;
  referrer_id = none;
}

abbrev store : CampaignStore
store = record { users = ann ∷ bob ∷ []; rewards = poster ∷ book ∷ []; interests = of_ann ∷ [] }

abbrev same : String → String → Bool
same a b = a == b

-- ann takes the book in place of the poster
amount_after :
    (find_stats 2 none (express_user_interest same 2 3 7 none 9 store).1).tentative_amount_pledged
    ≡ 50
unfolding express_user_interest find_stats
amount_after = refl

express_user_interest-find_stats_example :
    let t = (express_user_interest same 2 3 7 none 9 store).1 in
    ((find_stats 2 none t).tentative_amount_pledged + own 2 7 store.rewards store.interests
      ≡ (find_stats 2 none store).tentative_amount_pledged + 50)
    × ((find_stats 2 none t).tentative_backers ≡ (find_stats 2 none store).tentative_backers + 0)
express_user_interest-find_stats_example =
    express_user_interest-find_stats same 2 3 book 7 none 9 store refl refl (omega arith)

abbrev seven : ℕ
seven = 7

abbrev two : ℕ
two = 2

two_ne_seven : two ≢ seven
two_ne_seven e = omega arith

seven_ne_zero : seven ≢ 0
seven_ne_zero e = omega arith

bob_ne_ann : bob.id ≢ seven
bob_ne_ann e = omega arith

named : bob.username ≢ ""
named e = cc

express_user_interest-referred_example :
    let m = express_user_interest same 2 3 7 (some "bob") 9 store in
    (m.0 ≡ err failed_to_express_interest) × (any (is_interest 2 7) m.1.interests ≡ true)
express_user_interest-referred_example =
    express_user_interest-referred same 2 3 book 7 "bob" 9 bob store refl refl refl two_ne_seven
      named seven_ne_zero refl bob_ne_ann
