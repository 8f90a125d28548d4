-- ===== src/Campaign/Referrals.antt =====
-- What `redeemReferral` of src/campaign/campaign.service.ts looks for.
use d_reader_backend.Base.{
  eq_iff, ◌∙◌, ap, continue, update_where, ℕ, ◌≡◌, ◌≢◌, refl, String, Bool, true, false, Option,
  none, some, List, [], ◌∷◌, ◌==◌, nat_eq, string_eq, arith, any, find_first, Result, ok, err,
}
use d_reader_backend.Campaign.{
  record_not_found, or_failed, set_reward, CampaignError, User, Reward, CampaignStore,
  failed_to_express_interest, is_interest, is_row, upsert_interest, redeem_referral, apply_referral,
  express_interest_in, express_user_interest,
}

any-update_where {ℓ} :
    {A : Type ℓ} (p q : A → Bool) (f : A → A) (xs : List A)
    → ((x : A) → p (f x) ≡ p x)
    → any p (update_where q f xs) ≡ any p xs
any-update_where p q f [] h = refl
any-update_where p q f (x ∷ xs) h = ground (arith, h x, any-update_where p q f xs h)

-- the row of the interest is there, and no row with the key of the user in the campaign
abbrev Stored : ℕ → ℕ → CampaignStore → Result CampaignError (Unit {0}) × CampaignStore → Type 0
Stored campaign user_id s m =
    (m.0 ≡ ok tt)
    × (any (is_interest campaign user_id) m.1.interests ≡ true)
    × (any (is_row user_id campaign) m.1.interests ≡ false)
    × (m.1.users ≡ s.users)

upsert_interest-Stored :
    (fresh : ℕ) (r : Reward) (user_id now : ℕ) (s : CampaignStore)
    → any (λ u. u.id == user_id) s.users ≡ true
    → any (is_row user_id r.campaign_id) s.interests ≡ false
    → fresh ≢ user_id
    → Stored r.campaign_id user_id s (upsert_interest fresh r user_id now s)
unfolding upsert_interest
upsert_interest-Stored fresh r user_id now s known absent other = ground (
  arith,
  any-update_where (is_interest r.campaign_id user_id) (is_interest r.campaign_id user_id)
      (set_reward r.id) s.interests (λ x. refl),
  any-update_where (is_row user_id r.campaign_id) (is_interest r.campaign_id user_id)
      (set_reward r.id) s.interests (λ x. refl),
)

apply_referral-not_found :
    (o : Option User) (referrer : User) (campaign user_id : ℕ) (t : CampaignStore)
    → o ≡ some referrer
    → referrer.id ≢ user_id
    → any (is_row user_id campaign) t.interests ≡ false
    → apply_referral o user_id campaign t ≡ (err record_not_found, t)
unfolding apply_referral
apply_referral-not_found none referrer campaign user_id t e other absent = absurd (cc)
apply_referral-not_found (some x) referrer campaign user_id t e other absent = ground arith

module _ (insensitive : String → String → Bool) where
  redeem_referral-not_found :
      (ref : String) (referrer : User) (campaign user_id : ℕ) (t : CampaignStore)
      → ref ≢ ""
      → user_id ≢ 0
      → find_first (λ u. insensitive ref u.username) t.users ≡ some referrer
      → referrer.id ≢ user_id
      → any (is_row user_id campaign) t.interests ≡ false
      → redeem_referral insensitive (some ref) user_id campaign t ≡ (err record_not_found, t)
  unfolding redeem_referral
  redeem_referral-not_found ref referrer campaign user_id t h k found other absent = ground (
    arith,
    eq_iff ref "",
    apply_referral-not_found (find_first (λ u. insensitive ref u.username) t.users) referrer
        campaign user_id t found other absent,
  )

  after_Stored :
      (ref : String) (referrer : User) (campaign user_id : ℕ) (s : CampaignStore)
      (m : Result CampaignError (Unit {0}) × CampaignStore)
      → ref ≢ ""
      → user_id ≢ 0
      → find_first (λ u. insensitive ref u.username) s.users ≡ some referrer
      → referrer.id ≢ user_id
      → Stored campaign user_id s m
      → or_failed insensitive
          (continue (λ _. redeem_referral insensitive (some ref) user_id campaign) m)
        ≡ (err failed_to_express_interest, m.1)
  after_Stored ref referrer campaign user_id s (err e, t) h k found other stored =
      absurd (cc (stored.0))
  after_Stored ref referrer campaign user_id s (ok u, t) h k found other (o, is, absent, users) =
      ap (or_failed insensitive) (
        redeem_referral-not_found ref referrer campaign user_id t h k
          (ap (find_first (λ x. insensitive ref x.username)) users ∙ found) other absent)

  express-stored :
      (fresh : ℕ) (o : Option Reward) (r : Reward) (user_id : ℕ) (ref : String) (now : ℕ)
      (referrer : User) (s : CampaignStore)
      → o ≡ some r
      → any (λ u. u.id == user_id) s.users ≡ true
      → any (is_row user_id r.campaign_id) s.interests ≡ false
      → fresh ≢ user_id
      → ref ≢ ""
      → user_id ≢ 0
      → find_first (λ u. insensitive ref u.username) s.users ≡ some referrer
      → referrer.id ≢ user_id
      → let m = express_interest_in insensitive fresh o user_id (some ref) now s in
        (m.0 ≡ err failed_to_express_interest)
        × (any (is_interest r.campaign_id user_id) m.1.interests ≡ true)
  unfolding express_interest_in
  express-stored fresh none r user_id ref now referrer s e known absent new h k found other =
      absurd (cc)
  express-stored fresh (some x) r user_id ref now referrer s e known absent new h k found other =
      let stored : Stored r.campaign_id user_id s (upsert_interest fresh r user_id now s) =
        upsert_interest-Stored fresh r user_id now s known absent new in
      let same : x ≡ r = cc in
      rw
        (
          same,
          after_Stored ref referrer r.campaign_id user_id s (upsert_interest fresh r user_id now s)
              h k found other stored,
        )
        ((refl, stored.1))

  -- A referral is looked for by the key of the row of the interest, not by the user: where no row of
  -- the campaign has the id of the user as its key, a user who names another one as the referrer is
  -- told that the interest could not be expressed, although it is stored.
  pub express_user_interest-referred :
      (fresh reward_id : ℕ) (r : Reward) (user_id : ℕ) (ref : String) (now : ℕ) (referrer : User)
      (s : CampaignStore)
      → find_first (λ x. x.id == reward_id) s.rewards ≡ some r
      → any (λ u. u.id == user_id) s.users ≡ true
      → any (is_row user_id r.campaign_id) s.interests ≡ false
      → fresh ≢ user_id
      → ref ≢ ""
      → user_id ≢ 0
      → find_first (λ u. insensitive ref u.username) s.users ≡ some referrer
      → referrer.id ≢ user_id
      → let m = express_user_interest insensitive fresh reward_id user_id (some ref) now s in
        (m.0 ≡ err failed_to_express_interest)
        × (any (is_interest r.campaign_id user_id) m.1.interests ≡ true)
  unfolding express_user_interest
  express_user_interest-referred fresh reward_id r user_id ref now referrer s =
      express-stored fresh (find_first (λ x. x.id == reward_id) s.rewards) r user_id ref now
        referrer s
