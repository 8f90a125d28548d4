-- ===== src/Mint/Checks/Limit.antt =====
-- The limit on the items of a coupon, in src/candy-machine/candy-machine.service.ts, over the
-- receipts of mints.
use d_reader_backend.Base.{
  ◌+◌, zero, eq_iff, ℕ, suc, ◌≤◌, ◌≡◌, refl, true, false, String, Option, none, some, List, [], ◌∷◌,
  ◌++◌, arith, All, ok, find_many, sum_of, Bool, if◌then◌else◌, ◌&&◌, ◌==◌, nat_eq, string_eq,
}
use d_reader_backend.Mint.Model.{
  CouponType, MintReceipt, MintStore, is_confirmed, is_public_mint, confirmed,
}
use d_reader_backend.Mint.Checks.{
  validate_mint_limit, items_minted, count_user_items_minted, count_wallet_items_minted, of_user,
}
use d_reader_backend.Mint.Checks.Allowed.{validate_mint_limit_iff}

abbrev pub add_receipts : List MintReceipt → MintStore → MintStore
add_receipts rs s = record s { receipts = rs ++ s.receipts }

abbrev items : (MintReceipt → Bool) → List MintReceipt → ℕ
items p rs = sum_of (λ r. r.number_of_items) (find_many p rs)

items-pending :
    (p : MintReceipt → Bool) (pending rs : List MintReceipt)
    → ((r : MintReceipt) → is_confirmed r.status ≡ false → p r ≡ false)
    → All (λ r. is_confirmed r.status ≡ false) pending
    → items p (pending ++ rs) ≡ items p rs
items-pending p [] rs h k = refl
items-pending p (r ∷ pending) rs h (k, ks) = ground (arith, h r, items-pending p pending rs h)

and_false : (a b c : Bool) → c ≡ false → (a && b && c) ≡ false
and_false a b c h = ground arith

if_same : {a b c d : ℕ} (t : Bool) → a ≡ b → c ≡ d → (if t then a else c) ≡ (if t then b else d)
if_same true p q = p
if_same false p q = q

-- the check reads the store only for the items that were minted
validate_of_items :
    (limit : Option ℕ) (n : ℕ) (type : CouponType) (coupon : ℕ) (wallet : String) (user : Option ℕ)
    (s t : MintStore)
    → items_minted type coupon wallet user t ≡ items_minted type coupon wallet user s
    → validate_mint_limit limit n type coupon wallet user t
      ≡ validate_mint_limit limit n type coupon wallet user s
unfolding validate_mint_limit
validate_of_items none n type coupon wallet user s t e = refl
validate_of_items (some zero) n type coupon wallet user s t e = refl
validate_of_items (some (suc k)) n type coupon wallet user s t e = rw e

-- Mints whose receipts are not confirmed, those under way among them, do not count: the limit
-- check has the same result with any number of them.
pub validate_mint_limit-pending :
    (limit : Option ℕ) (n : ℕ) (type : CouponType) (coupon : ℕ) (wallet : String) (user : Option ℕ)
    (pending : List MintReceipt) (s : MintStore)
    → All (λ r. is_confirmed r.status ≡ false) pending
    → validate_mint_limit limit n type coupon wallet user (add_receipts pending s)
      ≡ validate_mint_limit limit n type coupon wallet user s
unfolding items_minted count_user_items_minted count_wallet_items_minted
validate_mint_limit-pending limit n type coupon wallet user pending s h =
    validate_of_items limit n type coupon wallet user s (add_receipts pending s) (
      if_same (is_public_mint type)
        (items-pending
          (λ r. (r.buyer_address == wallet) && (r.coupon_id == coupon) && is_confirmed r.status)
          pending s.receipts (λ r. and_false (r.buyer_address == wallet) (r.coupon_id == coupon) _)
          h)
        (items-pending
          (λ r. of_user user r.user_id && (r.coupon_id == coupon) && is_confirmed r.status) pending
          s.receipts (λ r. and_false (of_user user r.user_id) (r.coupon_id == coupon) _) h))

-- the receipt of a mint with the coupon by the wallet and the user
abbrev pub IsMintBy : ℕ → String → Option ℕ → ℕ → MintReceipt → Type 0
IsMintBy coupon wallet user n r =
    (r.status ≡ confirmed)
    × (r.coupon_id ≡ coupon)
    × (r.buyer_address ≡ wallet)
    × (r.user_id ≡ user)
    × (r.number_of_items ≡ n)

of_user_self : (user : Option ℕ) → of_user user user ≡ true
of_user_self none = refl
of_user_self (some id) = ground arith

items-append :
    (p : MintReceipt → Bool) (rs others : List MintReceipt)
    → items p (rs ++ others) ≡ items p rs + items p others
items-append p [] others = omega arith
items-append p (r ∷ rs) others = ground (arith, items-append p rs others)

if_sum :
    {a d : ℕ} (b c e f : ℕ) (t : Bool)
    → a ≡ b + c
    → d ≡ e + f
    → (if t then a else d) ≡ (if t then b else e) + (if t then c else f)
if_sum b c e f true p q = p
if_sum b c e f false p q = q

abbrev pub with_receipts : List MintReceipt → MintStore → MintStore
with_receipts rs s = record s { receipts = rs }

-- the items of receipts that are added count on their own
items_minted-append :
    (type : CouponType) (coupon : ℕ) (wallet : String) (user : Option ℕ) (rs : List MintReceipt)
    (s : MintStore)
    → items_minted type coupon wallet user (add_receipts rs s)
      ≡ items_minted type coupon wallet user (with_receipts rs s)
        + items_minted type coupon wallet user s
unfolding items_minted count_user_items_minted count_wallet_items_minted
items_minted-append type coupon wallet user rs s =
    if_sum _ _ _ _ (is_public_mint type)
      (items-append
        (λ r. (r.buyer_address == wallet) && (r.coupon_id == coupon) && is_confirmed r.status) rs
        s.receipts)
      (items-append
        (λ r. of_user user r.user_id && (r.coupon_id == coupon) && is_confirmed r.status) rs
        s.receipts)

-- the items of a confirmed mint are counted
items_minted-by :
    (n : ℕ) (type : CouponType) (coupon : ℕ) (wallet : String) (user : Option ℕ) (r : MintReceipt)
    (others : List MintReceipt) (s : MintStore)
    → IsMintBy coupon wallet user n r
    → items_minted type coupon wallet user (with_receipts (r ∷ others) s)
      ≡ n + items_minted type coupon wallet user (with_receipts others s)
unfolding items_minted count_user_items_minted count_wallet_items_minted
items_minted-by n type coupon wallet user r others s by =
    ground (arith, eq_iff r.buyer_address wallet, of_user_self user)

-- A mint that passes the check and is then confirmed, whatever other mints are confirmed in
-- between, leaves the confirmed items within the limit and the items of those others that count for
-- the user or the wallet; so the items stay within the limit where none of the others counts.
pub mint_within_limit :
    (limit n : ℕ) (type : CouponType) (coupon : ℕ) (wallet : String) (user : Option ℕ)
    (r : MintReceipt) (others : List MintReceipt) (s : MintStore)
    → validate_mint_limit (some limit) n type coupon wallet user s ≡ ok tt
    → IsMintBy coupon wallet user n r
    → items_minted type coupon wallet user (add_receipts (r ∷ others) s)
      ≤ limit + items_minted type coupon wallet user (with_receipts others s)
mint_within_limit limit n type coupon wallet user r others s passed by = omega (
  arith,
  items_minted-append type coupon wallet user (r ∷ others) s,
  items_minted-by n type coupon wallet user r others s by,
  ((validate_mint_limit_iff (some limit) n type coupon wallet user s).0 passed).1,
)
