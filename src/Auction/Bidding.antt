-- ===== src/Auction/Bidding.antt =====
-- The checks before a bid: `assertListingConfig` of src/utils/auction-house.ts, and `bid` and
-- `cancelBid` of src/auction-house/auction-house.service.ts. The transaction that the chain library
-- builds is what it is built from.
pub mod Rules
pub mod Cancelled
use d_reader_backend.Base.{
  ℕ, ◌+◌, String, Bool, true, false, not, Option, none, some, List, ◌==◌, nat_eq, string_eq, ltb,
  leb, if◌then◌else◌, find_first, Result, ok, err, Check, fail_if, ◌then_check◌,
}
use d_reader_backend.Auction.Model.{
  Book, Listing, ListingConfig, Bid, House, AuctionError, not_started, ended, below_reserve,
  not_above_highest, below_increment, bid_not_found, bid_closed, type_error,
}
use d_reader_backend.Auction.Orders.{find_listing}
use d_reader_backend.Auction.Events.{find_config, find_highest}

abbrev assert_above : ℕ → ℕ → Option Bid → Check AuctionError
assert_above increment bid_price none = ok tt
assert_above increment bid_price (some highest) =
    if leb bid_price highest.amount
    then err not_above_highest
    else if ltb bid_price (highest.amount + increment)
    then err below_increment
    else ok tt

unfoldable pub assert_listing_config : ListingConfig → ℕ → Option Bid → ℕ → Check AuctionError
assert_listing_config c bid_price highest_bid now =
    if ltb now c.start_date
    then err not_started
    else if leb c.end_date now
    then err ended
    else if ltb bid_price c.reserve_price
    then err below_reserve
    else assert_above c.min_bid_increment bid_price highest_bid

-- `BidParams`
pub record BidParams : Type 0 where
  pub bidder : String
  pub asset : String
  pub price : ℕ

-- what `createBidTransaction` is given
pub record BidTransaction : Type 0 where
  pub house : String
  pub params : BidParams
  pub treasury_mint : String
  pub is_timed_auction : Bool

abbrev assert_timed : Option ListingConfig → ℕ → ℕ → Book → Check AuctionError
assert_timed none price now s = ok tt
assert_timed (some c) price now s =
    assert_listing_config c price (find_highest c.highest_bid_id s) now

abbrev is_timed : Option ListingConfig → Bool
is_timed none = false
is_timed (some c) = true

abbrev transaction_of : BidParams → Bool → Option House → Result AuctionError BidTransaction
transaction_of params timed none = err type_error
transaction_of params timed (some h) = ok (record {
  house = h.address;
  params = params;
  treasury_mint = h.treasury_mint;
  is_timed_auction = timed;
})

abbrev after_check :
    Check AuctionError → Result AuctionError BidTransaction → Result AuctionError BidTransaction
after_check (ok u) r = r
after_check (err e) r = err e

-- `bid`, of the listing that it finds
unfoldable pub bid_for : Option Listing → BidParams → ℕ → Book → Result AuctionError BidTransaction
unfolding assert_listing_config
bid_for none params now s = err type_error
bid_for (some listing) params now s =
    let config = find_config listing.id s in
    after_check (assert_timed config params.price now s) (
      transaction_of params (is_timed config)
        (find_first (λ h. h.address == listing.auction_house) s.houses))

unfoldable pub bid : BidParams → ℕ → Book → Result AuctionError BidTransaction
unfolding bid_for
bid params now s = bid_for (find_listing params.asset s) params now s

abbrev cancel_found : Option Bid → Result AuctionError Bid
cancel_found none = err bid_not_found
cancel_found (some b) = if not (b.closed_at == 0) then err bid_closed else ok b

-- `cancelBid`: the bid that the transaction takes back
unfoldable pub cancel_bid : ℕ → Book → Result AuctionError Bid
cancel_bid bid_id s = cancel_found (find_first (λ b. b.id == bid_id) s.bids)
