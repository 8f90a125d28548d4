-- ===== src/Auction/Orders.antt =====
-- The calls of the database on the rows of the auction house, with the unique keys of
-- prisma/schema.prisma: a listing by its asset and `closedAt`, a bid by its asset, bidder and
-- `closedAt`, a sale by its listing and by its bid.
use d_reader_backend.Base.{
  ℕ, String, Bool, false, not, ◌&&◌, ◌||◌, Option, none, some, ◌∷◌, ◌==◌, nat_eq, string_eq,
  if◌then◌else◌, any, find_first, update_where, Result, ok, err, throw, modify,
}
use d_reader_backend.Auction.Model.{
  M, Book, Listing, Bid, Sale, AuctionError, record_not_found, unique_violation,
  foreign_key_violation,
}

abbrev pub is_listing : String → ℕ → Listing → Bool
is_listing asset closed_at l = (l.asset_address == asset) && (l.closed_at == closed_at)

abbrev pub is_bid : String → String → ℕ → Bid → Bool
is_bid asset bidder closed_at b =
    (b.asset_address == asset) && (b.bidder_address == bidder) && (b.closed_at == closed_at)

abbrev pub find_listing : String → Book → Option Listing
find_listing asset s = find_first (is_listing asset 0) s.listings

abbrev pub find_bid : String → String → Book → Option Bid
find_bid asset bidder s = find_first (is_bid asset bidder 0) s.bids

abbrev pub has_asset : String → Book → Bool
has_asset asset s = any (λ a. a.address == asset) s.assets

abbrev pub has_house : String → Book → Bool
has_house house s = any (λ h. h.address == house) s.houses

-- `listing.create`, with its `connect`s
unfoldable pub create_listing : Listing → M (Unit {0})
create_listing l s =
    if not (has_asset l.asset_address s && has_house l.auction_house s)
    then throw record_not_found s
    else if any (is_listing l.asset_address l.closed_at) s.listings
    then throw unique_violation s
    else modify (λ s. record s { listings = l ∷ s.listings }) s

-- `bid.create`
unfoldable pub create_bid : Bid → M (Unit {0})
create_bid b s =
    if not (has_asset b.asset_address s && has_house b.auction_house s)
    then throw record_not_found s
    else if any (is_bid b.asset_address b.bidder_address b.closed_at) s.bids
    then throw unique_violation s
    else modify (λ s. record s { bids = b ∷ s.bids }) s

abbrev pub set_closed : String → ℕ → Book → Book
set_closed asset now s = record s {
  listings = update_where (is_listing asset 0) (λ l. record l { closed_at = now }) s.listings;
}

-- `listing.update` of the open listing of the asset
unfoldable pub close_listing : String → ℕ → M (Unit {0})
close_listing asset now s =
    if not (any (is_listing asset 0) s.listings)
    then throw record_not_found s
    else if not (now == 0) && any (is_listing asset now) s.listings
    then throw unique_violation s
    else modify (set_closed asset now) s

abbrev pub set_bid_closed : String → String → ℕ → Book → Book
set_bid_closed asset bidder now s = record s {
  bids = update_where (is_bid asset bidder 0) (λ b. record b { closed_at = now }) s.bids;
}

-- `bid.update` of the open bid of the bidder for the asset
unfoldable pub close_bid : String → String → ℕ → M (Unit {0})
close_bid asset bidder now s =
    if not (any (is_bid asset bidder 0) s.bids)
    then throw record_not_found s
    else if not (now == 0) && any (is_bid asset bidder now) s.bids
    then throw unique_violation s
    else modify (set_bid_closed asset bidder now) s

abbrev pub sale_of : String → String → ℕ → Listing → Bid → Sale
sale_of house signature now listing bid = record {
  auction_house = house;
  sold_at = now;
  signature = signature;
  price = bid.amount;
  listing_id = listing.id;
  bid_id = some bid.id;
}

abbrev has_bid : ℕ → Sale → Bool
has_bid bid_id x = elim x.bid_id [ none ↦ false | some n ↦ n == bid_id ]

-- `auctionSale.create`, of the open listing and bid that its `connect`s find
unfoldable pub create_sale : String → String → ℕ → Option Listing → Bid → M (Unit {0})
create_sale house signature now none bid s = throw record_not_found s
create_sale house signature now (some listing) bid s =
    if not (has_house house s)
    then throw record_not_found s
    else if any (λ x. (x.listing_id == listing.id) || has_bid bid.id x) s.sales
    then throw unique_violation s
    else modify (λ s. record s { sales = sale_of house signature now listing bid ∷ s.sales }) s

abbrev pub set_owner : String → String → Book → Book
set_owner asset owner s = record s {
  assets =
      update_where (λ a. a.address == asset) (λ a. record a { owner_address = owner }) s.assets;
}

-- `digitalAsset: { update: { ownerAddress } }`: the owner is a wallet of the database
unfoldable pub update_owner : String → String → M (Unit {0})
update_owner asset owner s =
    if not (any (λ w. w == owner) s.wallets)
    then throw foreign_key_violation s
    else modify (set_owner asset owner) s

-- `$transaction`: what was written before an exception is taken back
abbrev pub roll_back :
    {A : Type 0} → Book → Result AuctionError A × Book → Result AuctionError A × Book
roll_back s (ok a, s') = (ok a, s')
roll_back s (err e, s') = (err e, s)

abbrev pub in_transaction : {A : Type 0} → M A → M A
in_transaction m s = roll_back s (m s)
