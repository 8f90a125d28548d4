-- ===== src/Auction/Tests.antt =====
-- Bids and sales of src/auction-house/auction-house.service.ts and
-- src/webhooks/helius/helius.service.ts, and their theorems at concrete inputs.
use d_reader_backend.Auction.Trading.Assets.{Catalog}
use d_reader_backend.Auction.Trading.{from_house, Tensor, list, instant_buy, SellTransaction}
use d_reader_backend.Auction.Trading.Lifecycle.{
  instant_buy-handle_listing_reprice, instant_buy-list, bought_of, sell_of, UniqueHouses,
}
use d_reader_backend.Auction.Trading.Stats.{
  find_collection_stats-IsFloor, is_open_of_issue, IsFloor, find_collection_stats, Market,
}
use d_reader_backend.Base.{
  none, nat_eq, ◌==◌, if◌then◌else◌, ℕ, ◌≤◌, ◌<◌, ◌≡◌, ◌≢◌, ◌↔◌, refl, true, some, List, [], ◌∷◌,
  arith, ok, err,
}
use d_reader_backend.Auction.Model.{Book, Listing, ListingConfig, Bid, AuctionError}
use d_reader_backend.Auction.Orders.{find_listing, create_bid}
use d_reader_backend.Auction.Events.{
  handle_cancel_listing, handle_listing_reprice, handle_asset_listing, handle_asset_bid,
  handle_asset_sale, handle_cancel_bid,
}
use d_reader_backend.Auction.Events.Settlement.{Settles, handle_asset_sale-Settles}
use d_reader_backend.Auction.Events.Instructions.{
  Instruction, handle_instructions, listed, repriced, bid_placed, listing_cancelled,
}
use d_reader_backend.Auction.Events.Offers.{offer, handled}
use d_reader_backend.Auction.Events.Offers.Replay.{find_listing-handle_instructions}
use d_reader_backend.Auction.Events.{listing_of, Sell}
use d_reader_backend.Auction.Bidding.{assert_listing_config, BidParams, BidTransaction, bid}
use d_reader_backend.Auction.Bidding.Cancelled.{cancelled_bid-blocks}
use d_reader_backend.Auction.Bidding.Rules.{
  Tops, Highest, assert_listing_config_iff, bid-handle_asset_bid,
}

abbrev listing : Listing
listing = record {
  id = 1;
  asset_address = "asset";
  price = 0;
  seller_address = "seller";
  signature = "s1";
  created_at = 5;
  closed_at = 0;
  source = "DCoAH";
  auction_house = "house";
}

abbrev config : ListingConfig
config = record {
  listing_id = 1;
  start_date = 10;
  end_date = 100;
  reserve_price = 50;
  min_bid_increment = 5;
  allow_high_bid_cancel = true;
  highest_bid_id = some 1;
}

abbrev bid_of : ℕ → ℕ → Bid
bid_of id amount = record {
  id = id;
  asset_address = "asset";
  bidder_address = if id == 1 then "ann" else "bob";
  amount = amount;
  signature = "s2";
  created_at = 20;
  closed_at = 0;
  auction_house = "house";
}

abbrev book : Book
book = record {
  listings = listing ∷ [];
  configs = config ∷ [];
  bids = bid_of 1 60 ∷ [];
  sales = [];
  houses = record { address = "house"; treasury_mint = "mint" } ∷ [];
  assets = record { address = "asset"; owner_address = "seller"; owner_changed_at = 1 } ∷ [];
  wallets = "seller" ∷ "ann" ∷ "bob" ∷ [];
}

abbrev params : ℕ → BidParams
params price = record { bidder = "bob"; asset = "asset"; price = price }

abbrev transaction : BidTransaction
transaction = record {
  house = "house";
  params = params 70;
  treasury_mint = "mint";
  is_timed_auction = true;
}

let_through : bid (params 70) 30 book ≡ ok transaction
unfolding bid
let_through = refl

is_stored : (create_bid (bid_of 2 70) book).0 ≡ ok tt
unfolding create_bid
is_stored = refl

assert_listing_config_iff_example :
    (assert_listing_config config 70 (some (bid_of 1 60)) 30 ≡ ok tt)
    ↔ ((10 ≤ 30) × (30 < 100) × (50 ≤ 70) × Tops 5 70 (some (bid_of 1 60)))
assert_listing_config_iff_example = assert_listing_config_iff config 70 (some (bid_of 1 60)) 30

bid-handle_asset_bid_example :
    ((handle_asset_bid (bid_of 2 70) book).0 ≡ ok tt)
    × Highest 1 2 (handle_asset_bid (bid_of 2 70) book).1
bid-handle_asset_bid_example =
    bid-handle_asset_bid (params 70) 30 book listing config transaction (bid_of 2 70) refl refl
      let_through refl refl is_stored

cancelled_bid-blocks_example :
    (e : AuctionError) × (bid (params 60) 30 (handle_cancel_bid "ann" "asset" 25 book).1 ≡ err e)
cancelled_bid-blocks_example =
    cancelled_bid-blocks (params 60) 30 25 "ann" book listing config (bid_of 1 60) refl refl refl
      (omega arith)

abbrev forty : ℕ
forty = 40

forty_ne_zero : forty ≢ 0
forty_ne_zero e = omega arith

handle_asset_sale-Settles_example :
    Settles "house" "asset" "ann" "s3" 40 book
      (handle_asset_sale "house" "asset" "ann" "s3" 40 book)
handle_asset_sale-Settles_example =
    handle_asset_sale-Settles "house" "asset" "ann" "s3" 40 book forty_ne_zero

-- the sale of the bid of ann goes through
sells : (handle_asset_sale "house" "asset" "ann" "s3" 40 book).0 ≡ ok tt
unfolding handle_asset_sale
sells = refl

abbrev resold : Sell
resold = record { asset = "asset"; house = "house"; seller = "seller"; price = 90 }

-- the asset has an open listing, so that the first instruction fails
abbrev instructions : List Instruction
instructions =
    listed 2 resold "s4" 30
    ∷ repriced "asset" 40
    ∷ bid_placed (bid_of 2 70)
    ∷ listing_cancelled "asset" 45
    ∷ listed 3 resold "s5" 50
    ∷ []

forty_five_ne_zero : (n : ℕ) → n ≡ 45 → n ≢ 0
forty_five_ne_zero n e h = omega arith

-- all but the first are handled, and the asset is offered for 90 again
relisted :
    find_listing "asset" (handle_instructions instructions book)
    ≡ some (listing_of 3 resold "s5" 50)
unfolding handle_asset_listing handle_listing_reprice handle_asset_bid handle_cancel_listing
relisted = refl

find_listing-handle_instructions_example :
    find_listing "asset" (handle_instructions instructions book)
    ≡ offer "asset" (handled instructions book) (find_listing "asset" book)
find_listing-handle_instructions_example =
    find_listing-handle_instructions "asset" instructions book
      (tt, (tt, (tt, (forty_five_ne_zero 45 refl, (tt, tt)))))

-- the asset is a print edition, and is listed for 30
abbrev unlisted : Book
unlisted = record book { listings = []; configs = []; bids = [] }

abbrev catalog : Catalog
catalog = record {
  collectibles = record { address = "comic"; collection_address = "series" } ∷ [];
  machines = [];
  editions = record { address = "asset"; collection_address = "prints" } ∷ [];
  one_of_ones = [];
}

abbrev tensor : Tensor
tensor = record { source = "TENSOR"; buy_core = λ b p a s. none; buy_legacy = λ b p a s. none }

abbrev sell_transaction : SellTransaction
sell_transaction = record {
  house = "house";
  asset = "asset";
  seller = "seller";
  price = 30;
  collection = some "prints";
}

unlisted-UniqueHouses : UniqueHouses unlisted
unlisted-UniqueHouses a = ground arith

is_listed : list "asset" 30 "mint" catalog unlisted ≡ ok sell_transaction
unfolding list
is_listed = refl

listing_is_stored : (handle_asset_listing 1 (sell_of sell_transaction) "s4" 40 unlisted).0 ≡ ok tt
unfolding handle_asset_listing
listing_is_stored = refl

instant_buy-list_example :
    instant_buy tensor "asset" "ann" catalog
      (handle_asset_listing 1 (sell_of sell_transaction) "s4" 40 unlisted).1
    ≡ ok (from_house (bought_of sell_transaction "ann" "mint"))
instant_buy-list_example =
    instant_buy-list tensor "asset" 30 "mint" "ann" 1 40 "s4" catalog unlisted sell_transaction
      unlisted-UniqueHouses refl is_listed listing_is_stored

instant_buy-handle_listing_reprice_example :
    instant_buy tensor "asset" "ann" catalog
      (handle_listing_reprice "asset" 25
        (handle_asset_listing 1 (sell_of sell_transaction) "s4" 40 unlisted).1).1
    ≡ ok (from_house (record (bought_of sell_transaction "ann" "mint") { price = 25 }))
instant_buy-handle_listing_reprice_example =
    instant_buy-handle_listing_reprice tensor "asset" 30 "mint" "ann" 1 40 "s4" catalog unlisted
      sell_transaction 25 unlisted-UniqueHouses refl is_listed listing_is_stored

abbrev market : Market
market = record {
  catalog = catalog;
  collections = record { address = "series"; comic_issue_id = 4 } ∷ [];
  receipts = [];
  supplies = ("series", 10) ∷ [];
}

abbrev comic_listing : ℕ → Listing
comic_listing price = record listing { asset_address = "comic"; price = price }

abbrev comics_listed : Book
comics_listed = record book { listings = comic_listing 8 ∷ comic_listing 6 ∷ listing ∷ [] }

find_collection_stats-IsFloor_example :
    IsFloor
      (is_open_of_issue 4 market)
      (find_collection_stats 4 market comics_listed).floor_price
      comics_listed.listings
find_collection_stats-IsFloor_example = find_collection_stats-IsFloor 4 market comics_listed

floor_is_six : (find_collection_stats 4 market comics_listed).floor_price ≡ 6
unfolding find_collection_stats
floor_is_six = refl

-- a timed auction is sold at once at the price 0
timed_for_free :
    instant_buy tensor "asset" "ann" catalog book
    ≡ ok (
        from_house (record {
          house = "house";
          asset = "asset";
          buyer = "ann";
          seller = "seller";
          treasury_mint = "mint";
          price = 0;
          collection = some "prints";
        }))
unfolding instant_buy
timed_for_free = refl
