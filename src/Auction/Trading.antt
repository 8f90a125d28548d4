-- ===== src/Auction/Trading.antt =====
-- Sales at a price, from `list` to `repriceListing` of src/auction-house/auction-house.service.ts.
-- The transaction that the chain library builds is what it is built from, and the services of
-- Tensor are arguments.
pub mod Assets
pub mod Closing
pub mod Lifecycle
pub mod Stats
use d_reader_backend.Auction.Orders.{find_listing}
use d_reader_backend.Auction.Events.{Terms}
use d_reader_backend.Auction.Model.{House, Book, Listing}
use d_reader_backend.Base.{
  none, some, err, string_eq, [], if◌then◌else◌, ◌==◌, ltb, ◌∷◌, find_first, fail_if, ok, Result, ℕ,
  Option, List, String,
}
use d_reader_backend.Auction.Trading.Assets.{
  buying_failed, tensor_failed, is_core, currency_unsupported, found, ◌and_then◌, type_error,
  get_basic_asset_data, TradeError, Catalog, bad_dates, find_machine,
}

-- the transaction that `createSellTransaction` and `createTimedAuctionSellTransaction` are given
pub record SellTransaction : Type 0 where
  pub house : String
  pub asset : String
  pub seller : String
  pub price : ℕ
  pub collection : Option String

-- `TimedAuctionListParams`, of which the terms go into the transaction as they are
pub record TimedParams : Type 0 where
  pub asset : String
  pub currency : String
  pub terms : Terms

pub record TimedTransaction : Type 0 where
  pub house : String
  pub asset : String
  pub seller : String
  pub params : TimedParams
  pub collection : Option String

abbrev find_house : String → Book → Option House
find_house currency s = find_first (λ h. h.treasury_mint == currency) s.houses

-- `getAuctionHouse`
unfoldable pub get_auction_house : String → Book → Result TradeError House
get_auction_house currency s = found (find_house currency s) currency_unsupported

-- `list`
unfoldable pub list : String → ℕ → String → Catalog → Book → Result TradeError SellTransaction
unfolding get_auction_house get_basic_asset_data
list asset price currency c s = get_auction_house currency s and_then λ house.
    get_basic_asset_data asset c s and_then λ basic. ok (record {
      house = house.address;
      asset = asset;
      seller = basic.seller;
      price = price;
      collection = basic.collection;
    })

-- `timedAuctionList`
unfoldable pub timed_auction_list :
    TimedParams → Catalog → Book → Result TradeError TimedTransaction
unfolding get_auction_house get_basic_asset_data
timed_auction_list params c s =
    fail_if (ltb params.terms.end_date params.terms.start_date) bad_dates and_then λ _.
    get_basic_asset_data params.asset c s and_then λ basic.
    get_auction_house params.currency s and_then λ house. ok (record {
      house = house.address;
      asset = params.asset;
      seller = basic.seller;
      params = params;
      collection = basic.collection;
    })

-- the services of Tensor: the name that helius-sdk gives this source, and the transactions it builds
-- for a buyer, a price, an asset and a seller; `none` stands for an exception
pub record Tensor : Type 0 where
  pub source : String
  pub buy_core : String → ℕ → String → String → Option String
  pub buy_legacy : String → ℕ → String → String → Option String

pub record BuyTransaction : Type 0 where
  pub house : String
  pub asset : String
  pub buyer : String
  pub seller : String
  pub treasury_mint : String
  pub price : ℕ
  pub collection : Option String

pub data Purchase : Type 0 where
  from_house : BuyTransaction → Purchase
  from_tensor : String → Purchase

abbrev bought : Option String → TradeError → Result TradeError Purchase
bought none e = err e
bought (some tx) e = ok (from_tensor tx)

-- `buyFromTensor`: an exception of the call for a core asset is passed on, the other is caught
unfoldable pub buy_from_tensor :
    Tensor → String → ℕ → String → String → Catalog → Result TradeError Purchase
buy_from_tensor t seller price asset buyer c = found (find_machine asset c) type_error and_then λ m.
    if is_core m.standard
    then bought (t.buy_core buyer price asset seller) tensor_failed
    else bought (t.buy_legacy buyer price asset seller) buying_failed

abbrev pub house_of : Listing → Book → Option House
house_of l s = find_first (λ h. h.address == l.auction_house) s.houses

abbrev buy_from_house : Listing → String → Catalog → Book → Result TradeError Purchase
buy_from_house l buyer c s = found (house_of l s) type_error and_then λ house.
    get_basic_asset_data l.asset_address c s and_then λ basic. ok (
      from_house (record {
        house = house.address;
        asset = l.asset_address;
        buyer = buyer;
        seller = l.seller_address;
        treasury_mint = house.treasury_mint;
        price = l.price;
        collection = basic.collection;
      }))

-- `instantBuy`: the destructuring of a listing that is not found throws before the check of it
unfoldable pub instant_buy : Tensor → String → String → Catalog → Book → Result TradeError Purchase
unfolding buy_from_tensor get_basic_asset_data
instant_buy t asset buyer c s = found (find_listing asset s) type_error and_then λ l.
    if l.source == t.source
    then buy_from_tensor t l.seller_address l.price asset buyer c
    else buy_from_house l buyer c s

-- `multipleBuys`, of pairs of an asset and a buyer; of several exceptions the first is taken
unfoldable pub multiple_buys :
    Tensor → List (String × String) → Catalog → Book → Result TradeError (List Purchase)
unfolding instant_buy
multiple_buys t [] c s = ok []
multiple_buys t (x ∷ xs) c s =
    instant_buy t x.0 x.1 c s and_then λ p. multiple_buys t xs c s and_then λ ps. ok (p ∷ ps)
