-- ===== src/Coupons.antt =====
-- Coupons of a candy machine: `addWhitelistedUsersToCoupon`, `addWhitelistedWalletsToCoupon`,
-- `addCandyMachineCoupon`, `addCandyMachineCouponCurrency`, `addCoreCandyMachineGroupOnChain` and
-- `findCandyMachineCouponData` of src/candy-machine/candy-machine.service.ts. What the calls of the
-- chain give is an argument.
pub mod Model
pub mod Labels
pub mod Holders
pub mod Whitelist
mod Tests
use d_reader_backend.Base.{
  map, err, ◌>>◌, ◌||◌, pure, none, modify, ◌&&◌, [], ok, ◌++◌, lift, string_eq, not, ◌>>=◌,
  throw_if, nat_eq, throw, any, if◌then◌else◌, ◌==◌, some, find_many, ◌∷◌, or_throw, count_where,
  String, Bool, find_first, List, Option, Result, ℕ,
}
use d_reader_backend.Coupons.Model.{
  group_exists, is_group, token_unsupported, record_not_found, unique_violation, type_error,
  DeskError, User, Token, Setting, Coupon, Desk, M,
}
use d_reader_backend.Coupons.Labels.{same_label, same_type, Label, get_coupon_label}
use d_reader_backend.Mint.Model.{TokenStandard, CouponType, WhitelistedWallet, WhitelistedUser}

abbrev pub has_coupon : ℕ → Desk → Bool
has_coupon id s = any (λ c. c.id == id) s.coupons

abbrev pub is_user_row : ℕ → ℕ → WhitelistedUser → Bool
is_user_row c u r = (r.coupon_id == c) && (r.user_id == u)

abbrev pub is_wallet_row : ℕ → String → WhitelistedWallet → Bool
is_wallet_row c w r = (r.coupon_id == c) && (r.wallet_address == w)

abbrev is_named : List String → User → Bool
is_named names u = any (λ n. n == u.username) names

-- `addWhitelistedUsersToCoupon`: the users that are found are not on the list yet
unfoldable pub add_whitelisted_users : ℕ → List String → M (Unit {0})
add_whitelisted_users c names s =
    if has_coupon c s
    then modify
        (λ s. record s {
          user_rows =
              map (λ u. record { coupon_id = c; user_id = u.id })
                (find_many (λ u. is_named names u && not (any (is_user_row c u.id) s.user_rows))
                  s.users)
              ++ s.user_rows;
        })
        s
    else throw record_not_found s

-- the rows of the wallets, whose key is the coupon with the wallet
unfoldable pub insert_wallets :
    ℕ → List String → List WhitelistedWallet → Option (List WhitelistedWallet)
insert_wallets c [] rows = some rows
insert_wallets c (w ∷ ws) rows =
    let rest = insert_wallets c ws (record { coupon_id = c; wallet_address = w } ∷ rows) in
    if any (is_wallet_row c w) rows then none else rest

abbrev add_wallet : List String → String → List String
add_wallet ws w = if any (λ x. x == w) ws then ws else w ∷ ws

unfoldable pub connect_wallets : List String → List String → List String
connect_wallets [] known = known
connect_wallets (w ∷ ws) known = connect_wallets ws (add_wallet known w)

abbrev pub store_wallets : Option (List WhitelistedWallet) → List String → M (Unit {0})
store_wallets none ws s = throw unique_violation s
store_wallets (some rows) ws s =
    modify (λ s. record s { wallet_rows = rows; wallets = connect_wallets ws s.wallets }) s

-- the wallets that are not on the list yet
abbrev pub new_wallets : ℕ → List String → Desk → List String
new_wallets c ws s = find_many (λ w. not (any (is_wallet_row c w) s.wallet_rows)) ws

-- `addWhitelistedWalletsToCoupon`, with the holders of the collection, if one is given
unfoldable pub add_whitelisted_wallets : ℕ → List String → List String → M (Unit {0})
unfolding insert_wallets connect_wallets
add_whitelisted_wallets c holders wallets s =
    if has_coupon c s
    then store_wallets (insert_wallets c (new_wallets c (holders ++ wallets) s) s.wallet_rows)
        (new_wallets c (holders ++ wallets) s) s
    else throw record_not_found s

-- `addCoreCandyMachineGroupOnChain`: the groups of the guard of the candy machine, or an exception of
-- the chain
unfoldable pub add_group : String → Label → Result DeskError (Unit {0}) → M (Unit {0})
add_group machine label reply = lift reply >> λ s.
    if any (is_group machine label) s.groups
    then throw group_exists s
    else modify (λ s. record s { groups = record { machine = machine; label = label } ∷ s.groups })
        s

abbrev has_token : String → Desk → Bool
has_token t s = any (λ x. x.address == t) s.tokens

-- `candyMachineCouponCurrencySetting.create`, with its three keys
unfoldable pub create_setting : Setting → M (Unit {0})
create_setting x s =
    if any
        (λ y.
          same_label x.label y.label && ((y.coupon_id == x.coupon_id) || (y.machine == x.machine)))
        s.settings
      || any (λ y. (y.spl_token == x.spl_token) && (y.coupon_id == x.coupon_id)) s.settings
    then throw unique_violation s
    else modify (λ s. record s { settings = x ∷ s.settings }) s

abbrev count_type : CouponType → String → Desk → ℕ
count_type t machine s = count_where (λ c. same_type c.type t && (c.machine == machine)) s.coupons

-- `params.splTokenAddress ?? WRAPPED_SOL_MINT`
abbrev or_sol : String → Option String → String
or_sol sol none = sol
or_sol sol (some t) = t

abbrev roll_back : Desk → Result DeskError (Unit {0}) × Desk → Result DeskError (Unit {0}) × Desk
roll_back s (ok u, t) = (ok u, t)
roll_back s (err e, t) = (err e, s)

-- the coupon with its first currency, as one write
abbrev create_coupon : Coupon → Setting → M (Unit {0})
create_coupon c x s = roll_back s (
    if any (λ m. m.address == c.machine) s.machines
    then create_setting x (record s { coupons = c ∷ s.coupons })
    else throw record_not_found s)

-- `AddCandyMachineCouponDto` and `AddCandyMachineCouponCurrencySettingDto`
pub record CurrencyParams : Type 0 where
  pub mint_price : ℕ
  pub usdc_equivalent : ℕ
  pub spl_token : Option String

abbrev setting_of : Label → ℕ → String → String → CurrencyParams → Setting
setting_of label coupon machine sol params = record {
  label = label;
  coupon_id = coupon;
  machine = machine;
  spl_token = or_sol sol params.spl_token;
  mint_price = params.mint_price;
  usdc_equivalent = params.usdc_equivalent;
}

-- `addCandyMachineCoupon`: the group is on chain before the rows are written
unfoldable pub add_coupon :
    String → Coupon → CurrencyParams → Result DeskError (Unit {0}) → M (Unit {0})
unfolding add_group create_setting get_coupon_label
add_coupon sol c params reply s =
    let label = get_coupon_label c.type (count_type c.type c.machine s) 0 in
    (throw_if (not (has_token (or_sol sol params.spl_token) s)) token_unsupported
        >> add_group c.machine label reply
        >> create_coupon c (setting_of label c.id c.machine sol params))
      s

abbrev add_currency_to :
    String → Option Coupon → CurrencyParams → Result DeskError (Unit {0}) → M (Unit {0})
add_currency_to sol none params reply s = throw type_error s
add_currency_to sol (some c) params reply s =
    let label =
      get_coupon_label c.type (count_type c.type c.machine s)
        (count_where (λ x. x.coupon_id == c.id) s.settings) in
    (add_group c.machine label reply >> create_setting (setting_of label c.id c.machine sol params))
      s

-- `addCandyMachineCouponCurrency`
unfoldable pub add_coupon_currency :
    String → ℕ → CurrencyParams → Result DeskError (Unit {0}) → M (Unit {0})
unfolding add_group create_setting get_coupon_label
add_coupon_currency sol id params reply s =
    (throw_if (not (has_token (or_sol sol params.spl_token) s)) token_unsupported
        >> add_currency_to sol (find_first (λ c. c.id == id) s.coupons) params reply)
      s

-- what `findCandyMachineCouponData` returns, by the fields of the checks of a mint
pub record MintData : Type 0 where
  pub collection : String
  pub coupon_type : CouponType
  pub is_sponsored : Bool
  pub mint_price : ℕ
  pub token : Token
  pub standard : TokenStandard
  pub number_of_redemptions : Option ℕ
  pub starts_at : Option ℕ
  pub expires_at : Option ℕ

abbrev or_type_error : {A : Type 0} → Option A → M A
or_type_error o = or_throw o type_error

-- `findCandyMachineCouponData`: whatever is not found is a field of `undefined` that is read
unfoldable pub find_coupon_data : ℕ → Label → M MintData
find_coupon_data id label = (λ s. or_type_error (find_first (λ c. c.id == id) s.coupons) s) >>= λ c.
    (λ s. or_type_error (find_first (λ m. m.address == c.machine) s.machines) s) >>= λ m.
    (λ s.
      or_type_error (find_first (λ x. (x.coupon_id == id) && same_label x.label label) s.settings)
        s)
    >>= λ x. (λ s. or_type_error (find_first (λ t. t.address == x.spl_token) s.tokens) s) >>= λ t.
        pure (record {
          collection = m.collection;
          coupon_type = c.type;
          is_sponsored = c.is_sponsored;
          mint_price = x.mint_price;
          token = t;
          standard = m.standard;
          number_of_redemptions = c.number_of_redemptions;
          starts_at = c.starts_at;
          expires_at = c.expires_at;
        })
