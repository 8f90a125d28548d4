-- ===== src/Coupons/Tests.antt =====
-- Coupons of src/candy-machine/candy-machine.service.ts, and their theorems at concrete inputs.
use d_reader_backend.Coupons.Whitelist.{
  add_whitelisted_wallets-twice, add_whitelisted_wallets-on_list, on_list,
}
use d_reader_backend.Coupons.Holders.{
  fetch_collection_holders_total, AreHolders, fetch_collection_holders,
}
use d_reader_backend.Base.{
  zero, suc, arith, ◌>>◌, map, ok, some, true, err, false, refl, String, [], List, none, ◌≡◌, ◌∷◌,
  ℕ,
}
use d_reader_backend.Coupons.{
  unique_violation, group_exists, add_coupon_currency, CurrencyParams, add_coupon, M,
  add_whitelisted_wallets,
}
use d_reader_backend.Coupons.Model.{unique_violation, group_exists, M, Desk, Coupon}
use d_reader_backend.Coupons.Labels.{
  get_coupons_with_labels-numbered, number_coupons, NewCoupon, get_coupons_with_labels,
}
use d_reader_backend.Mint.Model.{core, public_user}

abbrev coupon : Coupon
coupon = record {
  id = 1;
  type = public_user;
  machine = "machine";
  supply = 10;
  number_of_redemptions = none;
  starts_at = none;
  expires_at = none;
  is_sponsored = false;
}

abbrev desk : Desk
desk = record {
  users = [];
  coupons = coupon ∷ [];
  settings = [];
  wallet_rows = record { coupon_id = 1; wallet_address = "ann" } ∷ [];
  user_rows = [];
  wallets = "ann" ∷ [];
  tokens = record { address = "sol"; decimals = 9; symbol = "SOL" } ∷ [];
  machines = record { address = "machine"; collection = "series"; standard = core } ∷ [];
  groups = [];
}

-- the holders are on two pages
abbrev pages : ℕ → List String
pages (suc zero) = "ann" ∷ "bob" ∷ []
pages (suc (suc zero)) = "bob" ∷ "eve" ∷ []
pages _ = []

holders_found : fetch_collection_holders 3 pages ≡ some ("ann" ∷ "bob" ∷ "eve" ∷ [])
unfolding fetch_collection_holders
holders_found = refl

fetch_collection_holders_total_example :
    (ws : List String) × (fetch_collection_holders 3 pages ≡ some ws) × AreHolders pages ws
fetch_collection_holders_total_example = fetch_collection_holders_total 2 pages refl

is_added : (add_whitelisted_wallets 1 ("ann" ∷ "bob" ∷ []) ("eve" ∷ []) desk).0 ≡ ok tt
unfolding add_whitelisted_wallets
is_added = refl

add_whitelisted_wallets-on_list_example :
    on_list 1 "eve" (add_whitelisted_wallets 1 ("ann" ∷ "bob" ∷ []) ("eve" ∷ []) desk).1.wallet_rows
    ≡ true
add_whitelisted_wallets-on_list_example =
    add_whitelisted_wallets-on_list 1 1 "eve" ("ann" ∷ "bob" ∷ []) ("eve" ∷ []) desk is_added

add_whitelisted_wallets-twice_example :
    add_whitelisted_wallets 1 ("bob" ∷ []) ("bob" ∷ []) desk ≡ (err unique_violation, desk)
add_whitelisted_wallets-twice_example =
    add_whitelisted_wallets-twice 1 "bob" ("bob" ∷ []) ("bob" ∷ []) desk refl refl (omega arith)

abbrev new_coupons : List NewCoupon
new_coupons =
    record { type = public_user; currencies = none ∷ some "usdc" ∷ [] }
    ∷ record { type = public_user; currencies = none ∷ [] }
    ∷ []

get_coupons_with_labels-numbered_example :
    get_coupons_with_labels "sol" new_coupons ≡ number_coupons "sol" new_coupons
get_coupons_with_labels-numbered_example = get_coupons_with_labels-numbered "sol" new_coupons

-- the first coupon is number 1 of its type, and its first currency is number 1 of the coupon
labels_count_down :
    get_coupons_with_labels "sol" new_coupons
    ≡ (("sol", record { type = public_user; type_iteration = 1; currency_iteration = 1 })
        ∷ ("usdc", record { type = public_user; type_iteration = 1; currency_iteration = 0 })
        ∷ [])
      ∷ (("sol", record { type = public_user; type_iteration = 0; currency_iteration = 0 }) ∷ [])
      ∷ []
unfolding get_coupons_with_labels
labels_count_down = refl

-- two currencies of two coupons that get the same label
abbrev currency : String → CurrencyParams
currency t = record { mint_price = 5; usdc_equivalent = 1; spl_token = some t }

abbrev tokens : List String
tokens = "sol" ∷ "usdc" ∷ "bonk" ∷ "jup" ∷ []

abbrev many_tokens : Desk
many_tokens = record desk {
  coupons = [];
  tokens = map (λ t. record { address = t; decimals = 9; symbol = t }) tokens;
}

abbrev adds : M (Unit {0})
adds =
    add_coupon "sol" coupon (currency "sol") (ok tt)
    >> add_coupon_currency "sol" 1 (currency "usdc") (ok tt)
    >> add_coupon "sol" (record coupon { id = 2 }) (currency "sol") (ok tt)
    >> add_coupon_currency "sol" 1 (currency "bonk") (ok tt)
    >> add_coupon_currency "sol" 2 (currency "usdc") (ok tt)
    >> add_coupon_currency "sol" 2 (currency "bonk") (ok tt)

labels_collide : (adds many_tokens).0 ≡ err group_exists
unfolding add_coupon add_coupon_currency
labels_collide = refl
