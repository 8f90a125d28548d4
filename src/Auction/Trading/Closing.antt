-- ===== src/Auction/Trading/Closing.antt =====
-- `executeSale`, `cancelListing` and `repriceListing` of
-- src/auction-house/auction-house.service.ts.
use d_reader_backend.Auction.Trading.{house_of}
use d_reader_backend.Auction.Events.{find_config}
use d_reader_backend.Auction.Model.{Listing, Bid, Book}
use d_reader_backend.Base.{
  ok, err, not, nat_eq, ◌==◌, if◌then◌else◌, none, find_first, some, Result, is_some, Bool, ℕ,
  String, Option,
}
use d_reader_backend.Auction.Trading.Assets.{
  bid_not_found, find_one_of_one, listing_closed, find_collectible, find_edition, find_asset,
  ◌and_then◌, listing_not_found, Collectible, OneOfOne, Edition, get_basic_asset_data, TradeError,
  Catalog, type_error, found,
}

abbrev has_config : ℕ → Book → Bool
has_config listing_id s = is_some (find_config listing_id s)

abbrev find_listing_id : ℕ → Book → Option Listing
find_listing_id id s = find_first (λ l. l.id == id) s.listings

abbrev find_bid_id : ℕ → Book → Option Bid
find_bid_id id s = find_first (λ b. b.id == id) s.bids

pub record SaleTransaction : Type 0 where
  pub house : String
  pub asset : String
  pub seller : String
  pub buyer : String
  pub treasury_mint : String
  pub is_timed_auction : Bool
  pub collection : Option String

-- `executeSale`: the destructuring of a listing that is not found throws before the check of it
unfoldable pub execute_sale : ℕ → ℕ → Catalog → Book → Result TradeError SaleTransaction
unfolding get_basic_asset_data
execute_sale listing_id bid_id c s = found (find_listing_id listing_id s) type_error and_then λ l.
    found (find_bid_id bid_id s) bid_not_found and_then λ b.
    found (house_of l s) type_error and_then λ house.
    get_basic_asset_data l.asset_address c s and_then λ basic. ok (record {
      house = house.address;
      asset = l.asset_address;
      seller = l.seller_address;
      buyer = b.bidder_address;
      treasury_mint = house.treasury_mint;
      is_timed_auction = has_config l.id s;
      collection = basic.collection;
    })

abbrev one_of_one_collection : Option OneOfOne → Option String
one_of_one_collection none = none
one_of_one_collection (some x) = x.collection_address

abbrev collectible_collection : Option Collectible → Option OneOfOne → Option String
collectible_collection none o = one_of_one_collection o
collectible_collection (some x) o = some x.collection_address

-- the first of the three kinds that the asset is of
abbrev asset_collection : Option Edition → Option Collectible → Option OneOfOne → Option String
asset_collection none x o = collectible_collection x o
asset_collection (some e) x o = some e.collection_address

pub record CancelTransaction : Type 0 where
  pub house : String
  pub asset : String
  pub seller : String
  pub is_timed_auction : Bool
  pub collection : Option String

-- the two checks of `cancelListing` and `repriceListing`
abbrev open_listing : ℕ → Book → Result TradeError Listing
open_listing id s = found (find_listing_id id s) listing_not_found and_then λ l.
    if not (l.closed_at == 0) then err listing_closed else ok l

-- `cancelListing`
unfoldable pub cancel_listing : ℕ → Catalog → Book → Result TradeError CancelTransaction
cancel_listing id c s = open_listing id s and_then λ l.
    found (find_asset l.asset_address s) type_error and_then λ a.
    found (house_of l s) type_error and_then λ house. ok (record {
      house = house.address;
      asset = l.asset_address;
      seller = l.seller_address;
      is_timed_auction = has_config l.id s;
      collection =
          asset_collection (find_edition a.address c) (find_collectible a.address c)
            (find_one_of_one a.address c);
    })

pub record RepriceTransaction : Type 0 where
  pub house : String
  pub asset : String
  pub seller : String
  pub price : ℕ

-- `repriceListing`
unfoldable pub reprice_listing : ℕ → ℕ → Book → Result TradeError RepriceTransaction
reprice_listing id price s = open_listing id s and_then λ l.
    found (house_of l s) type_error and_then λ house. ok (record {
      house = house.address;
      asset = l.asset_address;
      seller = l.seller_address;
      price = price;
    })
