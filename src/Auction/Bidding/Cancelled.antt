-- ===== src/Auction/Bidding/Cancelled.antt =====
-- What a bid that was taken back leaves behind, in src/webhooks/helius/helius.service.ts.
use d_reader_backend.Base.{
  ◌&&◌, modify, any, throw, not, Result, if◌then◌else◌, ℕ, zero, suc, ◌≤◌, ◌≡◌, refl, String, Bool,
  true, false, Option, none, some, arith, ok, err, ◌==◌, nat_eq, find_first-update_where,
}
use d_reader_backend.Auction.Model.{
  unique_violation, record_not_found, Book, Listing, ListingConfig, Bid, AuctionError,
}
use d_reader_backend.Auction.Orders.{find_listing, close_bid, is_bid, set_bid_closed}
use d_reader_backend.Auction.Events.{find_config, find_highest, handle_cancel_bid}
use d_reader_backend.Auction.Bidding.{not, Result, BidParams, bid}
use d_reader_backend.Auction.Bidding.Rules.{Tops, assert_listing_config_iff, bid-Tops}

abbrev HighestIs : ℕ → Option ℕ → Book → Type 0
HighestIs amount o s = (h : Bid) × (find_highest o s ≡ some h) × (h.amount ≡ amount)

set_bid_closed-HighestIs :
    (asset bidder : String) (t : ℕ) (o : Option ℕ) (s : Book) (h : Bid)
    → find_highest o s ≡ some h
    → HighestIs h.amount o (set_bid_closed asset bidder t s)
set_bid_closed-HighestIs asset bidder t none s h e = absurd (cc)
set_bid_closed-HighestIs asset bidder t (some zero) s h e = absurd (cc)
set_bid_closed-HighestIs asset bidder t (some (suc n)) s h e = (
  if is_bid asset bidder 0 h then record h { closed_at = t } else h,
  find_first-update_where (λ b. b.id == suc n) (is_bid asset bidder 0)
      (λ b. record b { closed_at = t }) s.bids h (λ x. refl) e,
  ground arith,
)

after_tests :
    (P : Book → Type 0) (a b : Bool) (e e' : AuctionError) (s t : Book)
    → P s
    → P t
    → P (if a then throw e s else if b then throw e' s else modify (λ _. t) s).1
after_tests P true b e e' s t p q = p
after_tests P false true e e' s t p q = p
after_tests P false false e e' s t p q = q

close_bid-HighestIs :
    (asset bidder : String) (t : ℕ) (o : Option ℕ) (s : Book) (h : Bid)
    → find_highest o s ≡ some h
    → HighestIs h.amount o (close_bid asset bidder t s).1
unfolding close_bid
close_bid-HighestIs asset bidder t o s h e =
    after_tests (HighestIs h.amount o) (not (any (is_bid asset bidder 0) s.bids))
      (not (t == 0) && any (is_bid asset bidder t) s.bids) record_not_found unique_violation s
      (set_bid_closed asset bidder t s) (h, e, refl)
      (set_bid_closed-HighestIs asset bidder t o s h e)

close_bid-kept :
    (asset bidder : String) (t : ℕ) (s : Book)
    → ((close_bid asset bidder t s).1.listings ≡ s.listings)
      × ((close_bid asset bidder t s).1.configs ≡ s.configs)
unfolding close_bid
close_bid-kept asset bidder t s = ground arith

err_of_not_ok : {E A : Type 0} (r : Result E A) → ((a : A) → r ≡ ok a → ⊥) → (e : E) × (r ≡ err e)
err_of_not_ok (ok a) h = absurd (h a refl)
err_of_not_ok (err e) h = (e, refl)

not_above :
    (increment price : ℕ) (o : Option Bid) (h : Bid)
    → o ≡ some h
    → price ≤ h.amount
    → Tops increment price o
    → ⊥
not_above increment price none h e low t = cc
not_above increment price (some x) h e low t = ground arith

-- A timed listing takes no bid of the amount of its highest bid or less.
bid-refused :
    (params : BidParams) (now : ℕ) (s : Book) (listing : Listing) (c : ListingConfig) (h : Bid)
    → find_listing params.asset s ≡ some listing
    → find_config listing.id s ≡ some c
    → find_highest c.highest_bid_id s ≡ some h
    → params.price ≤ h.amount
    → (e : AuctionError) × (bid params now s ≡ err e)
bid-refused params now s listing c h found config top low =
    err_of_not_ok (bid params now s) λ tx passed.
      not_above c.min_bid_increment params.price (find_highest c.highest_bid_id s) h top low
        ((assert_listing_config_iff c params.price (find_highest c.highest_bid_id s) now).0
          (bid-Tops params now s listing c tx found config passed)).3

-- A bid that was taken back still counts as the highest: where it was the highest bid of a timed
-- listing, the listing takes no bid of the same amount or less after its bidder has taken it back.
pub cancelled_bid-blocks :
    (params : BidParams) (now t : ℕ) (bidder : String) (s : Book) (listing : Listing)
    (c : ListingConfig) (highest : Bid)
    → find_listing params.asset s ≡ some listing
    → find_config listing.id s ≡ some c
    → find_highest c.highest_bid_id s ≡ some highest
    → params.price ≤ highest.amount
    → (e : AuctionError) × (bid params now (handle_cancel_bid bidder params.asset t s).1 ≡ err e)
unfolding handle_cancel_bid
cancelled_bid-blocks params now t bidder s listing c highest found config top low =
    let (listings, configs) = close_bid-kept params.asset bidder t s in
    let (h, is, same) = close_bid-HighestIs params.asset bidder t c.highest_bid_id s highest top in
    bid-refused params now (close_bid params.asset bidder t s).1 listing c h (rw listings found)
      (rw configs config) is (rw same low)
