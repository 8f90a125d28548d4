-- ===== src/Auction/Model.antt =====
-- The rows of the auction house (prisma/schema.prisma). An order is open while `closedAt` is the
-- epoch, which is 0 here.
use d_reader_backend.Base.{ℕ, String, Bool, Option, List, Action}

pub record Listing : Type 0 where
  pub id : ℕ
  pub asset_address : String
  pub price : ℕ
  pub seller_address : String
  pub signature : String
  pub created_at : ℕ
  pub closed_at : ℕ
  pub source : String
  pub auction_house : String

pub record ListingConfig : Type 0 where
  pub listing_id : ℕ
  pub start_date : ℕ
  pub end_date : ℕ
  pub reserve_price : ℕ
  pub min_bid_increment : ℕ
  pub allow_high_bid_cancel : Bool
  pub highest_bid_id : Option ℕ

pub record Bid : Type 0 where
  pub id : ℕ
  pub asset_address : String
  pub bidder_address : String
  pub amount : ℕ
  pub signature : String
  pub created_at : ℕ
  pub closed_at : ℕ
  pub auction_house : String

-- `AuctionSale`
pub record Sale : Type 0 where
  pub auction_house : String
  pub sold_at : ℕ
  pub signature : String
  pub price : ℕ
  pub listing_id : ℕ
  pub bid_id : Option ℕ

-- `AuctionHouse`
pub record House : Type 0 where
  pub address : String
  pub treasury_mint : String

-- `DigitalAsset`
pub record Asset : Type 0 where
  pub address : String
  pub owner_address : String
  pub owner_changed_at : ℕ

-- the tables; of a wallet only the address counts
pub record Book : Type 0 where
  pub listings : List Listing
  pub configs : List ListingConfig
  pub bids : List Bid
  pub sales : List Sale
  pub houses : List House
  pub assets : List Asset
  pub wallets : List String

pub data AuctionError : Type 0 where
  not_started ended below_reserve not_above_highest below_increment : AuctionError
  bid_not_found bid_closed : AuctionError
  type_error : AuctionError  -- a field of `null` is read
  record_not_found : AuctionError  -- a `connect` or an `update` finds no row
  unique_violation : AuctionError  -- a row with the same unique key exists
  foreign_key_violation : AuctionError

abbrev pub M : Type 0 → Type 0
M = Action Book AuctionError
