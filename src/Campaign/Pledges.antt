-- ===== src/Campaign/Pledges.antt =====
-- What an interest changes in the statistics of a campaign, in src/campaign/campaign.service.ts.
use d_reader_backend.Base.{
  ◌∙◌, ap, string_eq, throw, pure, find_first-holds, continue_both, if_both, ℕ, ◌+◌, ◌≤◌, ◌≡◌, refl,
  String, Bool, true, false, Option, none, some, List, [], ◌∷◌, ◌==◌, nat_eq, arith, any,
  find_first, find_many, count_where, sum_of, length, update_where, if◌then◌else◌, Result, ok, err,
}
use d_reader_backend.Campaign.{
  referee_id_missing, or_failed, CampaignError, User, Reward, Interest, CampaignStore, is_interest,
  is_row, set_reward, set_referrer, upsert_interest, redeem_referral, apply_referral,
  express_interest_in, express_user_interest, find_stats, price_of,
}

module _ (campaign user_id : ℕ) (rewards : List Reward) where
  abbrev pub pledged : List Interest → ℕ
  pledged xs = sum_of (price_of rewards) (find_many (λ i. i.campaign_id == campaign) xs)

  -- what the user has pledged
  abbrev pub own : List Interest → ℕ
  own xs = sum_of (price_of rewards) (find_many (is_interest campaign user_id) xs)

  abbrev pub backers : List Interest → ℕ
  backers xs = length (find_many (λ i. i.campaign_id == campaign) xs)

  abbrev mine : List Interest → ℕ
  mine = count_where (is_interest campaign user_id)

  update_where-none :
      (reward : ℕ) (xs : List Interest)
      → mine xs ≡ 0
      → (pledged (update_where (is_interest campaign user_id) (set_reward reward) xs) ≡ pledged xs)
        × (own xs ≡ 0)
  update_where-none reward [] h = (refl, refl)
  update_where-none reward (x ∷ xs) h = ground (arith, update_where-none reward xs)

  update_where-pledged :
      (reward : ℕ) (r : Reward) (xs : List Interest)
      → find_first (λ x. x.id == reward) rewards ≡ some r
      → mine xs ≡ 1
      → pledged (update_where (is_interest campaign user_id) (set_reward reward) xs) + own xs
        ≡ pledged xs + r.price
  update_where-pledged reward r [] found h = absurd (omega arith)
  update_where-pledged reward r (x ∷ xs) found h =
      ground (arith, update_where-pledged reward r xs found, update_where-none reward xs)

  update_where-backers :
      (q : Interest → Bool) (f : Interest → Interest) (xs : List Interest)
      → ((x : Interest) → (f x).campaign_id ≡ x.campaign_id)
      → backers (update_where q f xs) ≡ backers xs
  update_where-backers q f [] h = refl
  update_where-backers q f (x ∷ xs) h = ground (arith, h x, update_where-backers q f xs h)

  update_where-referred :
      (q : Interest → Bool) (referrer : ℕ) (xs : List Interest)
      → pledged (update_where q (set_referrer referrer) xs) ≡ pledged xs
  update_where-referred q referrer [] = refl
  update_where-referred q referrer (x ∷ xs) = ground (arith, update_where-referred q referrer xs)

  mine-none :
      (xs : List Interest)
      → any (is_interest campaign user_id) xs ≡ false
      → (mine xs ≡ 0) × (own xs ≡ 0)
  mine-none [] h = (refl, refl)
  mine-none (x ∷ xs) h = ground (arith, mine-none xs)

  mine-one : (xs : List Interest) → any (is_interest campaign user_id) xs ≡ true → 1 ≤ mine xs
  mine-one [] h = absurd (cc)
  mine-one (x ∷ xs) h = ground (arith, mine-one xs)

-- the amount and the backers of the campaign are those of before with the pledge for the reward in
-- place of what the user had pledged
abbrev Pledges : ℕ → Reward → CampaignStore → CampaignStore → Type 0
Pledges user_id r s t =
    (t.rewards ≡ s.rewards)
    × (pledged r.campaign_id user_id s.rewards t.interests
          + own r.campaign_id user_id s.rewards s.interests
        ≡ pledged r.campaign_id user_id s.rewards s.interests + r.price)
    × (backers r.campaign_id user_id s.rewards t.interests
        ≡ backers r.campaign_id user_id s.rewards s.interests
          + (if any (is_interest r.campaign_id user_id) s.interests then 0 else 1))

upsert_interest-Pledges :
    (fresh : ℕ) (r : Reward) (user_id now : ℕ) (s : CampaignStore)
    → find_first (λ x. x.id == r.id) s.rewards ≡ some r
    → any (λ u. u.id == user_id) s.users ≡ true
    → count_where (is_interest r.campaign_id user_id) s.interests ≤ 1
    → ((upsert_interest fresh r user_id now s).0 ≡ ok tt)
      × Pledges user_id r s (upsert_interest fresh r user_id now s).1
unfolding upsert_interest
upsert_interest-Pledges fresh r user_id now s found known once = ground (
  arith,
  mine-one r.campaign_id user_id s.rewards s.interests,
  mine-none r.campaign_id user_id s.rewards s.interests,
  update_where-pledged r.campaign_id user_id s.rewards r.id r s.interests found,
  update_where-backers r.campaign_id user_id s.rewards (is_interest r.campaign_id user_id)
      (set_reward r.id) s.interests (λ x. refl),
)

apply_referral-Pledges :
    (o : Option User) (user_id : ℕ) (r : Reward) (s t : CampaignStore)
    → Pledges user_id r s t
    → Pledges user_id r s (apply_referral o user_id r.campaign_id t).1
unfolding apply_referral
apply_referral-Pledges none user_id r s t h = h
apply_referral-Pledges (some x) user_id r s t h = ground (
  arith,
  update_where-referred r.campaign_id user_id s.rewards (is_row user_id r.campaign_id) x.id
      t.interests,
  update_where-backers r.campaign_id user_id s.rewards (is_row user_id r.campaign_id)
      (set_referrer x.id) t.interests (λ y. refl),
)

module _ (insensitive : String → String → Bool) where
  redeem_referral-Pledges :
      (ref : Option String) (user_id : ℕ) (r : Reward) (s t : CampaignStore)
      → Pledges user_id r s t
      → Pledges user_id r s (redeem_referral insensitive ref user_id r.campaign_id t).1
  unfolding redeem_referral
  redeem_referral-Pledges none user_id r s t h = h
  redeem_referral-Pledges (some ref) user_id r s t h =
      if_both (λ (m : Result CampaignError (Unit {0}) × CampaignStore). Pledges user_id r s m.1)
        (ref == "") (pure tt t) _ h
        (if_both (λ (m : Result CampaignError (Unit {0}) × CampaignStore). Pledges user_id r s m.1)
          (user_id == 0) (throw referee_id_missing t)
          (apply_referral (find_first (λ u. insensitive ref u.username) t.users) user_id
            r.campaign_id t)
          h
          (apply_referral-Pledges (find_first (λ u. insensitive ref u.username) t.users) user_id r s
            t h))

  or_failed-Pledges :
      (user_id : ℕ) (r : Reward) (s : CampaignStore)
      (m : Result CampaignError (Unit {0}) × CampaignStore)
      → Pledges user_id r s m.1
      → Pledges user_id r s (or_failed insensitive m).1
  or_failed-Pledges user_id r s (ok u, t) h = h
  or_failed-Pledges user_id r s (err e, t) h = h

  express_interest_in-Pledges :
      (fresh : ℕ) (o : Option Reward) (r : Reward) (user_id : ℕ) (ref : Option String) (now : ℕ)
      (s : CampaignStore)
      → o ≡ some r
      → find_first (λ x. x.id == r.id) s.rewards ≡ some r
      → any (λ u. u.id == user_id) s.users ≡ true
      → count_where (is_interest r.campaign_id user_id) s.interests ≤ 1
      → Pledges user_id r s (express_interest_in insensitive fresh o user_id ref now s).1
  unfolding express_interest_in
  express_interest_in-Pledges fresh none r user_id ref now s e found known once = absurd (cc)
  express_interest_in-Pledges fresh (some x) r user_id ref now s e found known once =
      let same : x ≡ r = cc in
      let stored = upsert_interest-Pledges fresh r user_id now s found known once in
      rw same (
        or_failed-Pledges user_id r s _ (
          continue_both (λ m. Pledges user_id r s m.1)
            (λ _. redeem_referral insensitive ref user_id r.campaign_id)
            (upsert_interest fresh r user_id now s)
            (λ _ _.
              redeem_referral-Pledges ref user_id r s (upsert_interest fresh r user_id now s).1
                stored.1)
            (λ _ _. stored.1)))

  -- Where a user, with one interest in the campaign at most, expresses interest in a reward, and
  -- whatever becomes of the referral, the campaign's tentative amount is that of before with the
  -- price of the reward in place of what the user had pledged, and it has one backer more if the
  -- user was none.
  pub express_user_interest-find_stats :
      (fresh reward_id : ℕ) (r : Reward) (user_id : ℕ) (ref : Option String) (now : ℕ)
      (s : CampaignStore)
      → find_first (λ x. x.id == reward_id) s.rewards ≡ some r
      → any (λ u. u.id == user_id) s.users ≡ true
      → count_where (is_interest r.campaign_id user_id) s.interests ≤ 1
      → let t = (express_user_interest insensitive fresh reward_id user_id ref now s).1 in
        ((find_stats r.campaign_id none t).tentative_amount_pledged
            + own r.campaign_id user_id s.rewards s.interests
          ≡ (find_stats r.campaign_id none s).tentative_amount_pledged + r.price)
        × ((find_stats r.campaign_id none t).tentative_backers
            ≡ (find_stats r.campaign_id none s).tentative_backers
              + (if any (is_interest r.campaign_id user_id) s.interests then 0 else 1))
  unfolding express_user_interest find_stats
  express_user_interest-find_stats fresh reward_id r user_id ref now s found known once =
      let is : r.id ≡ reward_id =
        ground (arith, find_first-holds (λ x. x.id == reward_id) s.rewards r found) in
      let (rewards, amount, count) =
        express_interest_in-Pledges fresh (find_first (λ x. x.id == reward_id) s.rewards) r user_id
          ref now s found (ap (λ k. find_first (λ x. x.id == k) s.rewards) is ∙ found) known once in
      (rw rewards amount, count)
