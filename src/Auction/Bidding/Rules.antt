-- ===== src/Auction/Bidding/Rules.antt =====
-- The rules of a timed auction, in src/utils/auction-house.ts, and how they fit the highest bid
-- that src/webhooks/helius/helius.service.ts keeps.
use d_reader_backend.Base.{
  not, ◌∙◌, ap, inr, Bool-cases, inl, ◌⊎◌, ℕ, zero, suc, ◌+◌, ◌≤◌, ◌<◌, ◌≡◌, ◌↔◌, refl, true,
  Option, none, some, ◌∷◌, arith, ok, find_first, ◌==◌, nat_eq, find_first-update_where,
  find_first-holds,
}
use d_reader_backend.Auction.Model.{Book, Listing, ListingConfig, Bid}
use d_reader_backend.Auction.Orders.{find_listing, create_bid}
use d_reader_backend.Auction.Events.{
  find_config, find_highest, is_outbid, raise_highest, bid_on_listing, handle_asset_bid,
  set_highest,
}
use d_reader_backend.Auction.Bidding.{not, assert_listing_config, BidParams, BidTransaction, bid}

-- the price is above the highest bid by the increment at least
abbrev pub Tops : ℕ → ℕ → Option Bid → Type 0
Tops increment price none = Unit
Tops increment price (some highest) =
    (highest.amount < price) × (highest.amount + increment ≤ price)

-- A bid passes the rules exactly if the auction runs, the price is the reserve price at least, and
-- it is above the highest bid, by the increment at least.
pub assert_listing_config_iff :
    (c : ListingConfig) (price : ℕ) (highest : Option Bid) (now : ℕ)
    → (assert_listing_config c price highest now ≡ ok tt) ↔ (
        (c.start_date ≤ now)
        × (now < c.end_date)
        × (c.reserve_price ≤ price)
        × Tops c.min_bid_increment price highest)
unfolding assert_listing_config
assert_listing_config_iff c price none now = ((λ h. ground arith), (λ h. ground arith))
assert_listing_config_iff c price (some highest) now = ((λ h. ground arith), (λ h. ground arith))

-- a bid for a timed listing passes only if it tops the highest bid
pub bid-Tops :
    (params : BidParams) (now : ℕ) (s : Book) (listing : Listing) (c : ListingConfig)
    (tx : BidTransaction)
    → find_listing params.asset s ≡ some listing
    → find_config listing.id s ≡ some c
    → bid params now s ≡ ok tx
    → assert_listing_config c params.price (find_highest c.highest_bid_id s) now ≡ ok tt
unfolding bid
bid-Tops params now s listing c tx found config e = ground arith

-- what the configuration of the listing says after a bid was made the highest
abbrev pub Highest : ℕ → ℕ → Book → Type 0
Highest listing_id bid_id s =
    (c : ListingConfig) × (find_config listing_id s ≡ some c) × (c.highest_bid_id ≡ some bid_id)

set_highest-Highest :
    (c : ListingConfig) (listing_id bid_id : ℕ) (s : Book)
    → find_config listing_id s ≡ some c
    → Highest listing_id bid_id (set_highest listing_id bid_id s)
set_highest-Highest c listing_id bid_id s found = (
  record c { highest_bid_id = some bid_id },
  ground (
    arith,
    find_first-holds (λ x. x.listing_id == listing_id) s.configs c,
    find_first-update_where (λ x. x.listing_id == listing_id) (λ x. x.listing_id == listing_id)
        (λ x. record x { highest_bid_id = some bid_id }) s.configs c (λ x. refl),
  ),
  refl,
)

abbrev with_bid : Bid → Book → Book
with_bid b s = record s { bids = b ∷ s.bids }

-- a bid that tops the highest one outbids it once it is stored, or has its key
outbids-with_bid :
    (o : Option ℕ) (increment : ℕ) (b : Bid) (s : Book)
    → Tops increment b.amount (find_highest o s)
    → (is_outbid (find_highest o (with_bid b s)) b.amount ≡ true) ⊎ (o ≡ some b.id)
outbids-with_bid none increment b s tops = inl refl
outbids-with_bid (some zero) increment b s tops = inl refl
outbids-with_bid (some (suc n)) increment b s tops = elim (Bool-cases (b.id == suc n)) [
  | inl same ↦ inr (ground arith)
  | inr other ↦ inl (rw other (not_same (find_first (λ x. x.id == suc n) s.bids) tops))
]
  where
    not_same : (h : Option Bid) → Tops increment b.amount h → is_outbid h b.amount ≡ true
    not_same none t = refl
    not_same (some h) t = ground arith

raise_highest-Highest :
    (c : ListingConfig) (listing_id : ℕ) (b : Bid) (s : Book)
    → find_config listing_id s ≡ some c
    → Tops c.min_bid_increment b.amount (find_highest c.highest_bid_id s)
    → Highest listing_id b.id (raise_highest (some c) listing_id b (with_bid b s)).1
unfolding raise_highest
raise_highest-Highest c listing_id b s found tops =
    elim (Bool-cases (is_outbid (find_highest c.highest_bid_id (with_bid b s)) b.amount)) [
      | inl out ↦ rw out (set_highest-Highest c listing_id b.id (with_bid b s) found)
      | inr not ↦ rw not (
          (
            c,
            found,
            ground (arith, outbids-with_bid c.highest_bid_id c.min_bid_increment b s tops),
          ))
    ]

create_bid-with_bid :
    (b : Bid) (s : Book) → (create_bid b s).0 ≡ ok tt → create_bid b s ≡ (ok tt, with_bid b s)
unfolding create_bid
create_bid-with_bid b s stored = ground arith

raise_highest-ok :
    (c : Option ListingConfig) (listing_id : ℕ) (b : Bid) (s : Book)
    → (raise_highest c listing_id b s).0 ≡ ok tt
unfolding raise_highest
raise_highest-ok none listing_id b s = refl
raise_highest-ok (some c) listing_id b s = ground arith

handle_asset_bid-raise_highest :
    (b : Bid) (s : Book) (listing : Listing) (c : ListingConfig)
    → find_listing b.asset_address s ≡ some listing
    → find_config listing.id s ≡ some c
    → (create_bid b s).0 ≡ ok tt
    → handle_asset_bid b s ≡ raise_highest (some c) listing.id b (with_bid b s)
unfolding handle_asset_bid bid_on_listing
handle_asset_bid-raise_highest b s listing c found config stored =
    rw (create_bid-with_bid b s stored) (
      ap (λ l. bid_on_listing l b (with_bid b s)) found
      ∙ ap (λ o. raise_highest o listing.id b (with_bid b s)) config)

-- Where `bid` lets a bid for a timed listing through, and the bid is then stored, the webhook makes
-- it the highest bid of the listing.
pub bid-handle_asset_bid :
    (params : BidParams) (now : ℕ) (s : Book) (listing : Listing) (c : ListingConfig)
    (tx : BidTransaction) (b : Bid)
    → find_listing params.asset s ≡ some listing
    → find_config listing.id s ≡ some c
    → bid params now s ≡ ok tx
    → b.asset_address ≡ params.asset
    → b.amount ≡ params.price
    → (create_bid b s).0 ≡ ok tt
    → ((handle_asset_bid b s).0 ≡ ok tt) × Highest listing.id b.id (handle_asset_bid b s).1
bid-handle_asset_bid params now s listing c tx b found config let_through asset price stored =
    let tops =
      (assert_listing_config_iff c params.price (find_highest c.highest_bid_id s) now).0
        (bid-Tops params now s listing c tx found config let_through) in
    rw
      (handle_asset_bid-raise_highest b s listing c (ap (λ a. find_listing a s) asset ∙ found)
        config stored)
      ((
        raise_highest-ok (some c) listing.id b (with_bid b s),
        raise_highest-Highest c listing.id b s config (rw price tops.3),
      ))
