-- ===== src/Prints/Tests.antt =====
-- Sales of print editions of src/auction-house/auction-house.service.ts and
-- src/webhooks/helius/helius.service.ts, and their theorems at concrete inputs.
use d_reader_backend.Prints.Sales.{
  buy_print_edition-ended, buy_print_edition-handle_all, buy_print_edition-handle_init_edition_sale,
}
use d_reader_backend.Base.{
  refl, length, err, [], ok, none, ◌≡◌, false, Option, List, arith, some, ◌∷◌, ℕ,
}
use d_reader_backend.Prints.{
  sold_out, handle_asset_burn, handle_buy_edition, InitSale, ShopError, handle_init_edition_sale,
  buy_print_edition, find_config,
}
use d_reader_backend.Prints.Model.{
  sold_out, find_config, ShopError, Shop, Collection, Asset, SaleConfig,
}
use d_reader_backend.Prints.Events.{
  burned, edition_bought, sale_opened, WellFormed-handle_all, handle_all, Event, WellFormed,
}

abbrev prints : Collection
prints = record { address = "prints"; verified_at = some 5 }

abbrev prints_asset : Asset
prints_asset = record {
  address = "prints";
  owner_address = "ann";
  owner_changed_at = 1;
  is_burned = false;
}

abbrev shop : Shop
shop = record {
  collections = prints ∷ [];
  configs = [];
  editions = [];
  assets = prints_asset ∷ [];
  wallets = "ann" ∷ [];
  spl_tokens = "mint" ∷ [];
}

abbrev sale : Option ℕ → InitSale
sale end_date = record {
  collection = "prints";
  currency_mint = "mint";
  price = 7;
  start_date = some 1;
  end_date = end_date;
}

abbrev events : List Event
events =
    sale_opened (sale (some 3)) (ok (some 1))
    ∷ edition_bought "e1" "bob" "prints" (ok 1) 1500
    ∷ edition_bought "e2" "bob" "prints" (ok 2) 1600
    ∷ burned "e1"
    ∷ []

shop-WellFormed : WellFormed shop
shop-WellFormed = record {
  once_asset = λ a. ground arith;
  once_edition = λ a. ground arith;
  once_config = λ a. ground arith;
  edition_is_asset = λ a h. ground arith;
  edition_of_collection = λ a h. ground arith;
  config_of_collection = λ a h. ground arith;
  owner_has_wallet = λ w h. ground arith;
}

WellFormed-handle_all_example : WellFormed (handle_all events shop)
WellFormed-handle_all_example = WellFormed-handle_all events shop shop-WellFormed

-- two editions were bought of a supply of one
sold_too_many : length (handle_all events shop).editions ≡ 2
unfolding handle_init_edition_sale handle_buy_edition handle_asset_burn
sold_too_many = refl

-- and a third one is still for sale
still_sold :
    buy_print_edition "prints" "eve" 1700 (handle_all events shop)
    ≡ ok (record { collection = "prints"; seller = "ann"; buyer = "eve"; currency_mint = "mint" })
unfolding buy_print_edition handle_init_edition_sale handle_buy_edition handle_asset_burn
still_sold = refl

-- a sale with no supply
abbrev empty_sale : List Event
empty_sale = sale_opened (sale (some 3)) (ok (some 0)) ∷ []

is_sold_out : buy_print_edition "prints" "eve" 1700 (handle_all empty_sale shop) ≡ err sold_out
unfolding buy_print_edition handle_init_edition_sale
is_sold_out = refl

buy_print_edition-handle_all_example :
    (c : SaleConfig) × (find_config "prints" (handle_all empty_sale shop) ≡ some c) × (c.supply ≡ 0)
buy_print_edition-handle_all_example =
    buy_print_edition-handle_all "prints" "eve" 1700 empty_sale shop refl is_sold_out

buy_print_edition-handle_init_edition_sale_example :
    buy_print_edition "prints" "eve" 1700
      (handle_init_edition_sale (sale (some 3)) (ok (some 1)) shop).1
    ≡ ok (record { collection = "prints"; seller = "ann"; buyer = "eve"; currency_mint = "mint" })
buy_print_edition-handle_init_edition_sale_example =
    buy_print_edition-handle_init_edition_sale (sale (some 3)) 1 1 3 1700 "eve" prints prints_asset
      shop refl refl refl (omega arith) refl refl (omega arith) (omega arith)

buy_print_edition-ended_example :
    (e : ShopError) × (buy_print_edition "prints" "eve" 1700
        (handle_init_edition_sale (sale none) (ok (some 1)) shop).1
      ≡ err e)
buy_print_edition-ended_example =
    buy_print_edition-ended (sale none) 1 1700 "eve" prints shop refl refl refl
