-- ===== src/Prints.antt =====
-- The sale of print editions: `initializePrintEditionSale` and `buyPrintEdition` of
-- src/auction-house/auction-house.service.ts, `assertPrintEditionSaleConfig` of
-- src/utils/auction-house.ts, and `handleInitEditionSale`, `handleBuyEdition` and `handleAssetBurn`
-- of src/webhooks/helius/helius.service.ts. What the chain says is an argument, and so is `now`.
pub mod Model
pub mod Events
pub mod Sales
mod Tests
use d_reader_backend.Base.{
  nat_eq, ok, leb, is_some, throw, string_eq, ◌||◌, ◌==◌, or_throw, any, ◌>>=◌, not, ltb,
  update_where, lift, if◌then◌else◌, ◌*◌, none, modify, err, ◌∷◌, fail_if, List, true, Check, false,
  some, Result, String, Option, ℕ,
}
use d_reader_backend.Prints.Model.{
  sold_out, unique_violation, not_verified, record_not_found, ended, currency_unsupported,
  invalid_data, find_config, find_asset, not_started, type_error, ◌and_then◌, not_active, bad_dates,
  not_on_sale, find_collection, found, M, Collection, ShopError, SaleConfig, Shop,
}

-- a date that is `null` is compared as 0
abbrev pub date_or_zero : Option ℕ → ℕ
date_or_zero none = 0
date_or_zero (some d) = d

-- `assertPrintEditionSaleConfig`
unfoldable pub assert_print_edition_sale_config : SaleConfig → ℕ → Check ShopError
assert_print_edition_sale_config c now =
    if not c.is_active
    then err not_active
    else if ltb now (date_or_zero c.start_date)
    then err not_started
    else if leb (date_or_zero c.end_date) now
    then err ended
    else fail_if (c.items_minted == c.supply) sold_out

-- what `createBuyPrintEditionTransaction` is given
pub record BuyTransaction : Type 0 where
  pub collection : String
  pub seller : String
  pub buyer : String
  pub currency_mint : String

abbrev pub buy_on_sale :
    Option SaleConfig → Collection → String → ℕ → Shop → Result ShopError BuyTransaction
buy_on_sale none collection buyer now s = err not_on_sale
buy_on_sale (some c) collection buyer now s = assert_print_edition_sale_config c now and_then λ _.
    found (find_asset collection.address s) type_error and_then λ a. ok (record {
      collection = collection.address;
      seller = a.owner_address;
      buyer = buyer;
      currency_mint = c.currency_mint;
    })

-- `buyPrintEdition`: the destructuring of a collection that is not found throws
unfoldable pub buy_print_edition : String → String → ℕ → Shop → Result ShopError BuyTransaction
unfolding assert_print_edition_sale_config
buy_print_edition address buyer now s =
    found (find_collection address s) type_error and_then λ collection.
    buy_on_sale (find_config address s) collection buyer now s

-- `InitializePrintEditionSaleParams`; a currency that is not given cannot be looked up
pub record InitSaleParams : Type 0 where
  pub asset : String
  pub currency : Option String
  pub price : ℕ
  pub start_date : ℕ
  pub end_date : ℕ

-- what `createInitEditionSaleTransaction` is given
pub record InitSaleTransaction : Type 0 where
  pub owner : String
  pub collection : String
  pub currency : String
  pub price : ℕ
  pub start_date : ℕ
  pub end_date : ℕ

-- `initializePrintEditionSale`
unfoldable pub initialize_print_edition_sale :
    InitSaleParams → Shop → Result ShopError InitSaleTransaction
initialize_print_edition_sale params s =
    fail_if (ltb params.end_date params.start_date) bad_dates and_then λ _.
    found params.currency invalid_data and_then λ currency.
    fail_if (not (any (λ t. t == currency) s.spl_tokens)) currency_unsupported and_then λ _.
    found (find_collection params.asset s) type_error and_then λ collection.
    fail_if (not (is_some collection.verified_at)) not_verified and_then λ _.
    found (find_asset params.asset s) type_error and_then λ a. ok (record {
      owner = a.owner_address;
      collection = collection.address;
      currency = currency;
      price = params.price;
      start_date = params.start_date;
      end_date = params.end_date;
    })

-- an `initEditionSale` instruction: the seconds of the chain, if given
pub record InitSale : Type 0 where
  pub collection : String
  pub currency_mint : String
  pub price : ℕ
  pub start_date : Option ℕ
  pub end_date : Option ℕ

abbrev pub milliseconds : Option ℕ → Option ℕ
milliseconds none = none
milliseconds (some n) = some (n * 1000)

-- a field of an update that is `undefined` stays
abbrev pub or_keep : Option ℕ → Option ℕ → Option ℕ
or_keep old none = old
or_keep old (some n) = some n

abbrev pub new_config : InitSale → ℕ → SaleConfig
new_config x supply = record {
  collection_address = x.collection;
  start_date = milliseconds x.start_date;
  end_date = milliseconds x.end_date;
  mint_price = x.price;
  currency_mint = x.currency_mint;
  items_minted = 0;
  supply = supply;
  is_active = true;
}

-- the currency stays
abbrev pub renew : InitSale → ℕ → SaleConfig → SaleConfig
renew x supply c = record c {
  start_date = or_keep c.start_date (milliseconds x.start_date);
  end_date = or_keep c.end_date (milliseconds x.end_date);
  mint_price = x.price;
  supply = supply;
  is_active = true;
}

-- `handleInitEditionSale`: the collection of the chain has its greatest supply, if it is a master
-- edition with one, or the call of the chain throws
unfoldable pub handle_init_edition_sale : InitSale → Result ShopError (Option ℕ) → M (Unit {0})
handle_init_edition_sale x fetched = lift fetched >>= λ max_supply.
    or_throw max_supply invalid_data >>= λ supply. λ s.
      if not (is_some (find_collection x.collection s))
      then throw record_not_found s
      else if any (λ c. c.collection_address == x.collection) s.configs
      then modify
          (λ s. record s {
            configs =
                update_where (λ c. c.collection_address == x.collection) (renew x supply) s.configs;
          })
          s
      else modify (λ s. record s { configs = new_config x supply ∷ s.configs }) s

abbrev pub connect_or_create : String → List String → List String
connect_or_create w ws = if any (λ x. x == w) ws then ws else w ∷ ws

abbrev pub with_edition : String → String → String → ℕ → ℕ → Shop → Shop
with_edition address owner collection number now s = record s {
  wallets = connect_or_create owner s.wallets;
  assets =
      record { address = address; owner_address = owner; owner_changed_at = now; is_burned = false }
      ∷ s.assets;
  editions =
      record { address = address; collection_address = collection; number = number } ∷ s.editions;
}

-- `handleBuyEdition`: the chain gives the number of the edition, or the call of it throws
unfoldable pub handle_buy_edition : String → String → String → Result ShopError ℕ → ℕ → M (Unit {0})
handle_buy_edition address owner collection fetched now = lift fetched >>= λ number. λ s.
    if any (λ a. a.address == address) s.assets || any (λ e. e.address == address) s.editions
    then throw unique_violation s
    else if not (is_some (find_collection collection s))
    then throw record_not_found s
    else modify (with_edition address owner collection number now) s

-- `handleAssetBurn`: an exception is logged. The subscription that it ends is a row of Chain.
unfoldable pub handle_asset_burn : String → M (Unit {0})
handle_asset_burn address = modify (λ s. record s {
  assets = update_where (λ a. a.address == address) (λ a. record a { is_burned = true }) s.assets;
})
