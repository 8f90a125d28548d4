-- ===== src/Mint/Checks/Allowed.antt =====
-- When `prepareMintTransaction` of src/candy-machine/candy-machine.service.ts lets a mint through.
use d_reader_backend.Base.{
  refl, String, ℕ, zero, suc, ◌+◌, ◌≤◌, ◌≡◌, ◌≢◌, ◌↔◌, true, Option, none, some, arith, ok, err,
  Check, ◌then_check◌,
}
use d_reader_backend.Mint.Model.{
  CouponType, whitelisted_user, whitelisted_wallet, registered_user, public_user, core, MintStore,
  MintError, TokenStandard,
}
use d_reader_backend.Mint.Balance.Funds.{CanPay, validate_balance_for_mint_iff}
use d_reader_backend.Mint.Checks.{
  MintRequest, prepare_mint_transaction, validate_coupon_dates, validate_token_standard,
  validate_mint_eligibility, validate_mint_limit, find_if_user_whitelisted,
  find_if_wallet_whitelisted, items_minted,
}

-- the coupon is open at the instant
abbrev pub HasStarted : Option ℕ → ℕ → Type 0
HasStarted none now = Unit
HasStarted (some starts_at) now = starts_at ≤ now

abbrev pub HasNotEnded : Option ℕ → ℕ → Type 0
HasNotEnded none now = Unit
HasNotEnded (some expires_at) now = now ≤ expires_at

-- the request is of a user, and of one that holds what is asked for
abbrev pub IsUserWith : (ℕ → Type 0) → Option ℕ → Type 0
IsUserWith P none = ⊥
IsUserWith P (some user_id) = (user_id ≢ 0) × P user_id

-- who may use a coupon of each type
abbrev pub MayUse : CouponType → Option ℕ → String → ℕ → MintStore → Type 0
MayUse public_user user wallet coupon s = Unit
MayUse whitelisted_wallet user wallet coupon s = find_if_wallet_whitelisted wallet coupon s ≡ true
MayUse registered_user user wallet coupon s = IsUserWith (λ _. Unit) user
MayUse whitelisted_user user wallet coupon s =
    IsUserWith (λ id. find_if_user_whitelisted id coupon s ≡ true) user

-- the items fit the redemptions of the coupon, if it counts them
abbrev pub IsWithin : Option ℕ → ℕ → Type 0
IsWithin none items = Unit
IsWithin (some limit) items = (limit ≢ 0) × (items ≤ limit)

pub record MayMint (q : MintRequest) (now : ℕ) (s : MintStore) : Type 0 where
  pub started : HasStarted q.starts_at now
  pub not_ended : HasNotEnded q.expires_at now
  pub standard : q.payment.token_standard ≡ core
  pub eligible : MayUse q.coupon_type q.user_id q.wallet q.coupon_id s
  pub pays : CanPay q.payment
  pub within :
      IsWithin q.number_of_redemptions
        (items_minted q.coupon_type q.coupon_id q.wallet q.user_id s + q.payment.number_of_items)

validate_coupon_dates_iff :
    (a b : Option ℕ) (now : ℕ)
    → (validate_coupon_dates a b now ≡ ok tt) ↔ (HasStarted a now × HasNotEnded b now)
unfolding validate_coupon_dates
validate_coupon_dates_iff none none now = ((λ h. ground arith), (λ h. ground arith))
validate_coupon_dates_iff none (some b) now = ((λ h. ground arith), (λ h. ground arith))
validate_coupon_dates_iff (some a) none now = ((λ h. ground arith), (λ h. ground arith))
validate_coupon_dates_iff (some a) (some b) now = ((λ h. ground arith), (λ h. ground arith))

validate_token_standard_iff :
    (standard : TokenStandard) → (validate_token_standard standard ≡ ok tt) ↔ (standard ≡ core)
unfolding validate_token_standard
validate_token_standard_iff standard = ((λ h. ground arith), (λ h. ground arith))

pub validate_mint_eligibility_iff :
    (type : CouponType) (user : Option ℕ) (wallet : String) (coupon : ℕ) (s : MintStore)
    → (validate_mint_eligibility type user wallet coupon s ≡ ok tt)
      ↔ MayUse type user wallet coupon s
unfolding validate_mint_eligibility
validate_mint_eligibility_iff public_user user wallet coupon s = ((λ _. tt), (λ _. ground arith))
validate_mint_eligibility_iff whitelisted_wallet user wallet coupon s =
    ((λ h. ground arith), (λ h. ground arith))
validate_mint_eligibility_iff registered_user none wallet coupon s =
    ((λ h. ground arith), (λ h. absurd h))
validate_mint_eligibility_iff registered_user (some id) wallet coupon s =
    ((λ h. ground arith), (λ h. ground arith))
validate_mint_eligibility_iff whitelisted_user none wallet coupon s =
    ((λ h. ground arith), (λ h. absurd h))
validate_mint_eligibility_iff whitelisted_user (some id) wallet coupon s =
    ((λ h. ground arith), (λ h. ground arith))

pub validate_mint_limit_iff :
    (limit : Option ℕ) (n : ℕ) (type : CouponType) (coupon : ℕ) (wallet : String) (user : Option ℕ)
    (s : MintStore)
    → (validate_mint_limit limit n type coupon wallet user s ≡ ok tt)
      ↔ IsWithin limit (items_minted type coupon wallet user s + n)
unfolding validate_mint_limit
validate_mint_limit_iff none n type coupon wallet user s = ((λ _. tt), (λ _. refl))
validate_mint_limit_iff (some zero) n type coupon wallet user s =
    ((λ h. cc), (λ h. absurd (h.0 refl)))
validate_mint_limit_iff (some (suc k)) n type coupon wallet user s =
    ((λ h. ground arith), (λ h. ground arith))

-- a chain of two checks passes exactly if both do
pub then_check_iff :
    {P Q : Type 0} (c k : Check MintError)
    → (c ≡ ok tt) ↔ P
    → (k ≡ ok tt) ↔ Q
    → ((c then_check k) ≡ ok tt) ↔ (P × Q)
then_check_iff (ok u) k p q = ((λ h. (p.0 refl, q.0 h)), (λ h. q.1 h.1))
then_check_iff (err e) k p q = ((λ h. absurd (cc)), (λ h. absurd (cc (p.1 h.0))))

-- `prepareMintTransaction` lets a mint through exactly if the coupon is open, the machine is a core
-- one, the user or wallet may use the coupon, the wallet can pay, and the items that were minted
-- and those asked for fit the redemptions of the coupon.
pub prepare_mint_transaction_iff :
    (q : MintRequest) (now : ℕ) (s : MintStore)
    → (prepare_mint_transaction q now s ≡ ok tt) ↔ MayMint q now s
unfolding prepare_mint_transaction
prepare_mint_transaction_iff q now s = (
  (λ h.
      let a = all.0 h in
      record {
        started = a.0.0;
        not_ended = a.0.1;
        standard = a.1.0;
        eligible = a.1.1.0;
        pays = a.1.1.1.0;
        within = a.1.1.1.1;
      }),
  (λ m. all.1 ((m.started, m.not_ended), (m.standard, (m.eligible, (m.pays, m.within))))),
)
  where
    all : (prepare_mint_transaction q now s ≡ ok tt) ↔ (
        (HasStarted q.starts_at now × HasNotEnded q.expires_at now)
        × ((q.payment.token_standard ≡ core)
            × (MayUse q.coupon_type q.user_id q.wallet q.coupon_id s
                × (CanPay q.payment
                    × IsWithin q.number_of_redemptions (
                        items_minted q.coupon_type q.coupon_id q.wallet q.user_id s
                        + q.payment.number_of_items)))))
    all = then_check_iff _ _ (validate_coupon_dates_iff _ _ _) (
        then_check_iff _ _ (validate_token_standard_iff _) (
          then_check_iff _ _ (validate_mint_eligibility_iff _ _ _ _ _) (
            then_check_iff _ _ (validate_balance_for_mint_iff _)
              (validate_mint_limit_iff _ _ _ _ _ _ _))))
