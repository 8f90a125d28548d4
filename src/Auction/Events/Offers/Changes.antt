-- ===== src/Auction/Events/Offers/Changes.antt =====
-- What each handler of src/webhooks/helius/helius.service.ts does to the open listing of an asset.
use d_reader_backend.Auction.Events.Offers.{is_ok, offer_of, at_price, with_price}
use d_reader_backend.Auction.Orders.{
  find_bid, is_listing, close_listing, create_listing, find_listing, close_bid,
}
use d_reader_backend.Auction.Events.{
  find_bid, set_owner_of, listing_of, update_where, Terms, none, find_config, is_listing,
  ListingConfig, Sell, Bid, some, transfer, handle_asset_bid, bid_on_listing,
  handle_listing_reprice, handle_asset_sale, raise_highest, handle_asset_timed_listing,
}
use d_reader_backend.Auction.Events.Settlement.{settle-both}
use d_reader_backend.Base.{
  find_first-none, eq_iff, refl, update_where, none, ◌≡◌, some, Option, find_first, if◌then◌else◌,
  ◌≢◌, ℕ, String, List, [], ◌∷◌, nat_eq, string_eq, arith,
}
use d_reader_backend.Auction.Model.{ListingConfig, Bid, Book, Listing}

pub create_listing-offer :
    (asset : String) (l : Listing) (s : Book)
    → l.closed_at ≡ 0
    → find_listing asset (create_listing l s).1 ≡ (
        if is_ok (create_listing l s).0
        then offer_of asset l.asset_address (some l) (find_listing asset s)
        else find_listing asset s)
unfolding create_listing
create_listing-offer asset l s h = ground (arith, h)

pub timed_listing-offer :
    (asset : String) (id : ℕ) (sell : Sell) (terms : Terms) (signature : String) (now : ℕ)
    (s : Book)
    → find_listing asset (handle_asset_timed_listing id sell terms signature now s).1 ≡ (
        if is_ok (handle_asset_timed_listing id sell terms signature now s).0
        then offer_of asset sell.asset
            (some (listing_of id (record sell { price = 0 }) signature now))
            (find_listing asset s)
        else find_listing asset s)
unfolding handle_asset_timed_listing
timed_listing-offer asset id sell terms signature now s = ground arith

find_listing-closed :
    (asset about : String) (now : ℕ) (ls : List Listing)
    → now ≢ 0
    → find_first
        (is_listing asset 0)
        (update_where (is_listing about 0) (λ l. record l { closed_at = now }) ls)
      ≡ offer_of asset about none (find_first (is_listing asset 0) ls)
find_listing-closed asset about now [] h = ground arith
find_listing-closed asset about now (l ∷ ls) h = ground (
  arith,
  find_listing-closed asset about now ls h,
  eq_iff l.asset_address about,
  eq_iff l.asset_address asset,
  eq_iff about asset,
)

find_listing-repriced :
    (asset about : String) (price : ℕ) (ls : List Listing)
    → find_first (is_listing asset 0) (update_where (is_listing about 0) (at_price price) ls)
      ≡ offer_of asset about
          (with_price price (find_first (is_listing asset 0) ls))
          (find_first (is_listing asset 0) ls)
find_listing-repriced asset about price [] = ground arith
find_listing-repriced asset about price (l ∷ ls) = ground (
  arith,
  find_listing-repriced asset about price ls,
  eq_iff l.asset_address about,
  eq_iff l.asset_address asset,
  eq_iff about asset,
)

pub close_listing-offer :
    (asset about : String) (now : ℕ) (s : Book)
    → now ≢ 0
    → find_listing asset (close_listing about now s).1 ≡ (
        if is_ok (close_listing about now s).0
        then offer_of asset about none (find_listing asset s)
        else find_listing asset s)
unfolding close_listing
close_listing-offer asset about now s h =
    ground (arith, find_listing-closed asset about now s.listings h)

pub reprice-offer :
    (asset about : String) (price : ℕ) (s : Book)
    → find_listing asset (handle_listing_reprice about price s).1 ≡ (
        if is_ok (handle_listing_reprice about price s).0
        then offer_of asset about (with_price price (find_listing asset s)) (find_listing asset s)
        else find_listing asset s)
unfolding handle_listing_reprice
reprice-offer asset about price s =
    ground (arith, find_listing-repriced asset about price s.listings)

raise_highest-listings :
    (c : Option ListingConfig) (id : ℕ) (bid : Bid) (s : Book)
    → (raise_highest c id bid s).1.listings ≡ s.listings
unfolding raise_highest
raise_highest-listings none id bid s = refl
raise_highest-listings (some c) id bid s = ground arith

bid_on_listing-listings :
    (l : Option Listing) (bid : Bid) (s : Book) → (bid_on_listing l bid s).1.listings ≡ s.listings
unfolding bid_on_listing
bid_on_listing-listings none bid s = refl
bid_on_listing-listings (some l) bid s = raise_highest-listings (find_config l.id s) l.id bid s

pub handle_asset_bid-listings :
    (bid : Bid) (s : Book) → (handle_asset_bid bid s).1.listings ≡ s.listings
unfolding handle_asset_bid
handle_asset_bid-listings bid s = ground (
  arith,
  bid_on_listing-listings (find_listing bid.asset_address (record s { bids = bid ∷ s.bids })) bid
      (record s { bids = bid ∷ s.bids }),
)

pub close_bid-listings :
    (asset bidder : String) (now : ℕ) (s : Book)
    → (close_bid asset bidder now s).1.listings ≡ s.listings
unfolding close_bid
close_bid-listings asset bidder now s = ground arith

pub sale-offer :
    (asset house about buyer signature : String) (now : ℕ) (s : Book)
    → now ≢ 0
    → find_listing asset (handle_asset_sale house about buyer signature now s).1 ≡ (
        if is_ok (handle_asset_sale house about buyer signature now s).0
        then offer_of asset about none (find_listing asset s)
        else find_listing asset s)
unfolding handle_asset_sale
sale-offer asset house about buyer signature now s h =
    settle-both
      (λ m. find_listing asset m.1 ≡ (
        if is_ok m.0
        then offer_of asset about none (find_listing asset s)
        else find_listing asset s))
      house about buyer signature now s (find_listing about s) (find_bid about buyer s) refl refl
      (λ e. refl) (λ l b p q. find_listing-closed asset about now s.listings h)

pub transfer-offer :
    (asset about owner : String) (now : ℕ) (s : Book)
    → now ≢ 0
    → find_listing asset (transfer about owner now s).1 ≡ (
        if is_ok (transfer about owner now s).0
        then offer_of asset about none (find_listing asset s)
        else find_listing asset s)
unfolding transfer
transfer-offer asset about owner now s h = ground (
  arith,
  close_listing-offer asset about now (set_owner_of about owner now s) h,
  find_first-none (is_listing about 0) s.listings,
  eq_iff about asset,
)
