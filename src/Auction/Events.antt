-- ===== src/Auction/Events.antt =====
-- The events of the auction program, from `handleAssetSale` to `handleAssetTransfer` of
-- src/webhooks/helius/helius.service.ts. What the instruction of the chain says is an argument, and
-- so are `now`, of the `new Date()` calls of a handler, and the key of a new row.
pub mod Settlement
pub mod Keeping
pub mod Instructions
pub mod Open
pub mod Offers
pub mod Tensor
use d_reader_backend.Base.{
  ℕ, zero, suc, ◌*◌, String, Bool, true, false, not, Option, none, some, List, ◌∷◌, ◌==◌, nat_eq,
  string_eq, ltb, if◌then◌else◌, any, find_first, update_where, Result, ok, err, pure, throw, gets,
  or_throw, modify, ◌>>=◌, ◌>>◌,
}
use d_reader_backend.Auction.Model.{
  M, Book, Listing, ListingConfig, Bid, Asset, AuctionError, type_error, record_not_found,
}
use d_reader_backend.Auction.Orders.{
  is_listing, find_listing, find_bid, has_asset, create_listing, create_bid, close_listing,
  close_bid, create_sale, update_owner, in_transaction,
}

-- a `sell` instruction
pub record Sell : Type 0 where
  pub asset : String
  pub house : String
  pub seller : String
  pub price : ℕ

abbrev pub d_reader_auction : String
d_reader_auction = "DCoAH"

abbrev pub listing_of : ℕ → Sell → String → ℕ → Listing
listing_of id sell signature now = record {
  id = id;
  asset_address = sell.asset;
  price = sell.price;
  seller_address = sell.seller;
  signature = signature;
  created_at = now;
  closed_at = 0;
  source = d_reader_auction;
  auction_house = sell.house;
}

unfoldable pub handle_asset_listing : ℕ → Sell → String → ℕ → M (Unit {0})
unfolding create_listing
handle_asset_listing id sell signature now = create_listing (listing_of id sell signature now)

-- the terms of a `timedAuctionSell` instruction, with the seconds of the chain
pub record Terms : Type 0 where
  pub start_date : ℕ
  pub end_date : ℕ
  pub allow_high_bid_cancel : Option Bool
  pub min_bid_increment : Option ℕ
  pub reserve_price : Option ℕ

abbrev or_else {ℓ} : {A : Type ℓ} → A → Option A → A
or_else a none = a
or_else a (some b) = b

abbrev config_of : ℕ → Terms → ListingConfig
config_of id terms = record {
  listing_id = id;
  start_date = terms.start_date * 1000;
  end_date = terms.end_date * 1000;
  reserve_price = or_else 0 terms.reserve_price;
  min_bid_increment = or_else 0 terms.min_bid_increment;
  allow_high_bid_cancel = or_else false terms.allow_high_bid_cancel;
  highest_bid_id = none;
}

unfoldable pub handle_asset_timed_listing : ℕ → Sell → Terms → String → ℕ → M (Unit {0})
unfolding create_listing
handle_asset_timed_listing id sell terms signature now =
    create_listing (listing_of id (record sell { price = 0 }) signature now)
    >> modify (λ s. record s { configs = config_of id terms ∷ s.configs })

unfoldable pub handle_cancel_listing : String → ℕ → M (Unit {0})
unfolding close_listing
handle_cancel_listing asset now = close_listing asset now

unfoldable pub handle_listing_reprice : String → ℕ → M (Unit {0})
handle_listing_reprice asset price s =
    if not (any (is_listing asset 0) s.listings)
    then throw record_not_found s
    else modify
        (λ s. record s {
          listings = update_where (is_listing asset 0) (λ l. record l { price = price }) s.listings;
        })
        s

unfoldable pub handle_cancel_bid : String → String → ℕ → M (Unit {0})
unfolding close_bid
handle_cancel_bid bidder asset now = close_bid asset bidder now

abbrev pub find_config : ℕ → Book → Option ListingConfig
find_config listing_id s = find_first (λ c. c.listing_id == listing_id) s.configs

-- `highestBidId ? await bid.findUnique(…) : undefined`
abbrev pub find_highest : Option ℕ → Book → Option Bid
find_highest none s = none
find_highest (some zero) s = none
find_highest (some (suc n)) s = find_first (λ b. b.id == suc n) s.bids

abbrev pub is_outbid : Option Bid → ℕ → Bool
is_outbid none amount = true
is_outbid (some highest) amount = ltb highest.amount amount

abbrev pub set_highest : ℕ → ℕ → Book → Book
set_highest listing_id bid_id s = record s {
  configs =
      update_where (λ c. c.listing_id == listing_id)
        (λ c. record c { highest_bid_id = some bid_id }) s.configs;
}

-- the part of `handleAssetBid` on the configuration of the listing
unfoldable pub raise_highest : Option ListingConfig → ℕ → Bid → M (Unit {0})
raise_highest none listing_id bid s = (ok tt, s)
raise_highest (some c) listing_id bid s =
    if is_outbid (find_highest c.highest_bid_id s) bid.amount
    then modify (set_highest listing_id bid.id) s
    else pure tt s

-- the part after the creation of the bid, of the listing that is found
unfoldable pub bid_on_listing : Option Listing → Bid → M (Unit {0})
unfolding raise_highest
bid_on_listing none bid s = throw type_error s
bid_on_listing (some listing) bid s = raise_highest (find_config listing.id s) listing.id bid s

unfoldable pub handle_asset_bid : Bid → M (Unit {0})
unfolding create_bid bid_on_listing
handle_asset_bid bid =
    create_bid bid >> λ s. bid_on_listing (find_listing bid.asset_address s) bid s

-- `handleAssetSale`, of the bid that it finds
unfoldable pub settle : String → String → String → String → ℕ → Option Bid → M (Unit {0})
unfolding create_sale close_listing close_bid update_owner
settle house asset buyer signature now none = throw type_error
settle house asset buyer signature now (some bid) = in_transaction (
    (λ s. create_sale house signature now (find_listing asset s) bid s)
    >> close_listing asset now
    >> update_owner asset buyer
    >> close_bid asset buyer now)

unfoldable pub handle_asset_sale : String → String → String → String → ℕ → M (Unit {0})
unfolding settle
handle_asset_sale house asset buyer signature now s =
    settle house asset buyer signature now (find_bid asset buyer s) s

-- `owner: { connectOrCreate }` and `ownerChangedAt`
abbrev pub set_owner_of : String → String → ℕ → Book → Book
set_owner_of address owner now s = record s {
  assets =
      update_where (λ a. a.address == address)
        (λ a. record a { owner_address = owner; owner_changed_at = now }) s.assets;
  wallets = if any (λ w. w == owner) s.wallets then s.wallets else owner ∷ s.wallets;
}

-- the `try` of `handleAssetTransfer`
unfoldable pub transfer : String → String → ℕ → M (Unit {0})
unfolding close_listing
transfer address owner now s =
    let t = set_owner_of address owner now s in
    if not (has_asset address s)
    then throw record_not_found s
    else if any (is_listing address 0) t.listings
    then close_listing address now t
    else pure tt t

-- an exception is logged, and no more
abbrev pub log_error : {A : Type 0} → M A → M (Unit {0})
log_error m s = (ok tt, (m s).1)

unfoldable pub handle_asset_transfer : String → String → ℕ → M (Unit {0})
unfolding transfer
handle_asset_transfer address owner now = log_error (transfer address owner now)
