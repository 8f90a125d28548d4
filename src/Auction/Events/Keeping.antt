-- ===== src/Auction/Events/Keeping.antt =====
-- What each handler of src/webhooks/helius/helius.service.ts keeps: at most one open listing of an
-- asset, and one open bid of a bidder for it.
use d_reader_backend.Auction.Trading.Assets.{Catalog}
use d_reader_backend.Auction.Events.Tensor.{
  tensor_listing_of, relist, is_tensor, TensorListing, TensorItem, check_collectible,
  upsert_listing, sync_tensor_listings, create_tensor_sale, handle_tensor_listing,
  handle_tensor_buying,
}
use d_reader_backend.Base.{
  update_where, modify, pure, throw, ◌>>◌, eq_iff, ℕ, ◌≤◌, String, not, Option, none, some, List,
  [], ◌∷◌, nat_eq, string_eq, arith, any, count_where, count_where-none, count_where-update_where,
  Result, ok, err, continue_both, if_both,
}
use d_reader_backend.Auction.Model.{Book, M, Listing, Bid, AuctionError}
use d_reader_backend.Auction.Orders.{
  is_listing, is_bid, find_listing, create_listing, create_bid, create_sale, close_listing,
  close_bid, update_owner, roll_back,
}
use d_reader_backend.Auction.Events.{
  log_error, modify, update_where, pure, set_owner_of, record_not_found, throw, ListingConfig,
  has_asset, find_config, in_transaction, handle_listing_reprice, bid_on_listing, raise_highest,
  settle, transfer,
}

abbrev open_listings : String → Book → ℕ
open_listings asset s = count_where (is_listing asset 0) s.listings

abbrev open_bids : String → String → Book → ℕ
open_bids asset bidder s = count_where (is_bid asset bidder 0) s.bids

abbrev pub OneOpen : String → String → Book → Type 0
OneOpen asset bidder s = (open_listings asset s ≤ 1) × (open_bids asset bidder s ≤ 1)

module _ (a b : String) where
  -- a run that keeps the orders of the asset and of the bidder for it
  abbrev pub Keeps : M (Unit {0}) → Type 0
  Keeps m = (s : Book) → OneOpen a b s → OneOpen a b (m s).1

  pub Keeps-then : (m k : M (Unit {0})) → Keeps m → Keeps k → Keeps (m >> k)
  Keeps-then m k h n s one =
      continue_both (λ r. OneOpen a b r.1) (λ _. k) (m s) (λ _ _. n (m s).1 (h s one))
        (λ _ _. h s one)

  pub Keeps-in_transaction : (m : M (Unit {0})) → Keeps m → Keeps (in_transaction m)
  Keeps-in_transaction m h s one = rolled (m s) (h s one)
    where
      rolled :
          (r : Result AuctionError (Unit {0}) × Book)
          → OneOpen a b r.1
          → OneOpen a b (roll_back s r).1
      rolled (ok u, t) k = k
      rolled (err e, t) k = one

  pub create_listing-Keeps : (l : Listing) → Keeps (create_listing l)
  unfolding create_listing
  create_listing-Keeps l s one =
      ground (arith, count_where-none (is_listing a 0) s.listings, eq_iff l.asset_address a)

  pub create_bid-Keeps : (x : Bid) → Keeps (create_bid x)
  unfolding create_bid
  create_bid-Keeps x s one = ground (
    arith,
    count_where-none (is_bid a b 0) s.bids,
    eq_iff x.asset_address a,
    eq_iff x.bidder_address b,
  )

  pub close_listing-Keeps : (asset : String) (now : ℕ) → Keeps (close_listing asset now)
  unfolding close_listing
  close_listing-Keeps asset now s one = ground (
    arith,
    count_where-update_where (is_listing a 0) (is_listing asset 0)
        (λ l. record l { closed_at = now }) s.listings (λ x k n. ground arith),
  )

  pub close_bid-Keeps : (asset bidder : String) (now : ℕ) → Keeps (close_bid asset bidder now)
  unfolding close_bid
  close_bid-Keeps asset bidder now s one = ground (
    arith,
    count_where-update_where (is_bid a b 0) (is_bid asset bidder 0)
        (λ x. record x { closed_at = now }) s.bids (λ x k n. ground arith),
  )

  pub handle_listing_reprice-Keeps :
      (asset : String) (price : ℕ) → Keeps (handle_listing_reprice asset price)
  unfolding handle_listing_reprice
  handle_listing_reprice-Keeps asset price s one = ground (
    arith,
    count_where-update_where (is_listing a 0) (is_listing asset 0) (λ l. record l { price = price })
        s.listings (λ x k n. n),
  )

  pub create_sale-Keeps :
      (house signature : String) (now : ℕ) (listing : Option Listing) (bid : Bid)
      → Keeps (create_sale house signature now listing bid)
  unfolding create_sale
  create_sale-Keeps house signature now none bid s one = one
  create_sale-Keeps house signature now (some listing) bid s one = ground arith

  pub update_owner-Keeps : (asset owner : String) → Keeps (update_owner asset owner)
  unfolding update_owner
  update_owner-Keeps asset owner s one = ground arith

  pub raise_highest-Keeps :
      (c : Option ListingConfig) (id : ℕ) (bid : Bid) → Keeps (raise_highest c id bid)
  unfolding raise_highest
  raise_highest-Keeps none id bid s one = one
  raise_highest-Keeps (some c) id bid s one = ground arith

  pub bid_on_listing-Keeps :
      (listing : Option Listing) (bid : Bid) → Keeps (bid_on_listing listing bid)
  unfolding bid_on_listing
  bid_on_listing-Keeps none bid s one = one
  bid_on_listing-Keeps (some listing) bid s one =
      raise_highest-Keeps (find_config listing.id s) listing.id bid s one

  pub settle-Keeps :
      (house asset buyer signature : String) (now : ℕ) (bid : Option Bid)
      → Keeps (settle house asset buyer signature now bid)
  unfolding settle
  settle-Keeps house asset buyer signature now none = λ s one. one
  settle-Keeps house asset buyer signature now (some bid) =
      let sale : M (Unit {0}) = λ s. create_sale house signature now (find_listing asset s) bid s in
      let closing : M (Unit {0}) = sale >> close_listing asset now in
      let owning : M (Unit {0}) = closing >> update_owner asset buyer in
      Keeps-in_transaction (owning >> close_bid asset buyer now) (
        Keeps-then owning (close_bid asset buyer now)
          (Keeps-then closing (update_owner asset buyer)
            (Keeps-then sale (close_listing asset now)
              (λ s. create_sale-Keeps house signature now (find_listing asset s) bid s)
              (close_listing-Keeps asset now))
            (update_owner-Keeps asset buyer))
          (close_bid-Keeps asset buyer now))

  pub transfer-Keeps : (address owner : String) (now : ℕ) → Keeps (transfer address owner now)
  unfolding transfer
  transfer-Keeps address owner now s one =
      if_both (λ (m : Result AuctionError (Unit {0}) × Book). OneOpen a b m.1)
        (not (has_asset address s)) (throw record_not_found s) _ one
        (if_both (λ (m : Result AuctionError (Unit {0}) × Book). OneOpen a b m.1)
          (any (is_listing address 0) s.listings)
          (close_listing address now (set_owner_of address owner now s))
          (pure tt (set_owner_of address owner now s))
          (close_listing-Keeps address now (set_owner_of address owner now s) one) one)

  pub create_tensor_sale-Keeps :
      (signature : String) (price now : ℕ) (l : Option Listing)
      → Keeps (create_tensor_sale price signature now l)
  unfolding create_tensor_sale
  create_tensor_sale-Keeps signature price now none s one = one
  create_tensor_sale-Keeps signature price now (some l) s one = ground arith

  pub handle_tensor_buying-Keeps :
      (t : String) (c : Catalog) (buyer mint : String) (price : ℕ) (signature : String) (now : ℕ)
      → Keeps (handle_tensor_buying t c buyer mint price signature now)
  unfolding handle_tensor_buying
  handle_tensor_buying-Keeps t c buyer mint price signature now =
      let check : M (Unit {0}) = check_collectible mint c in
      let own : M (Unit {0}) = check >> modify (set_owner_of mint buyer now) in
      let sale : M (Unit {0}) =
        λ s. create_tensor_sale price signature now (find_listing mint s) s in
      let sell : M (Unit {0}) = own >> sale in
      Keeps-in_transaction (sell >> close_listing mint now) (
        Keeps-then sell (close_listing mint now)
          (Keeps-then own sale
            (Keeps-then check (modify (set_owner_of mint buyer now)) (λ s one. one) (λ s one. one))
            (λ s. create_tensor_sale-Keeps signature price now (find_listing mint s) s))
          (close_listing-Keeps mint now))

  pub upsert_listing-Keeps :
      (t : String) (id : ℕ) (x : TensorListing) (now : ℕ) → Keeps (upsert_listing t id x now)
  unfolding upsert_listing
  upsert_listing-Keeps t id x now s one =
      if_both (λ (m : Result AuctionError (Unit {0}) × Book). OneOpen a b m.1)
        (any (is_listing x.mint 0) s.listings) _ _ relisted
        (create_listing-Keeps (tensor_listing_of t id x now) s one)
    where
      relisted :
          OneOpen a b
            (record s { listings = update_where (is_listing x.mint 0) (relist t x now) s.listings })
      relisted = ground (
        arith,
        count_where-update_where (is_listing a 0) (is_listing x.mint 0) (relist t x now) s.listings
            (λ l k n. n),
      )

  pub handle_tensor_listing-Keeps :
      (t : String) (c : Catalog) (id : ℕ) (x : TensorListing) (now : ℕ)
      → Keeps (handle_tensor_listing t c id x now)
  unfolding handle_tensor_listing
  handle_tensor_listing-Keeps t c id x now =
      Keeps-then (check_collectible x.mint c) (upsert_listing t id x now) (λ s one. one)
        (upsert_listing-Keeps t id x now)

  pub sync_tensor_listings-Keeps :
      (t : String) (xs : List TensorItem) (now : ℕ) → Keeps (sync_tensor_listings t xs now)
  unfolding sync_tensor_listings
  sync_tensor_listings-Keeps t [] now = λ s one. one
  sync_tensor_listings-Keeps t (x ∷ xs) now =
      Keeps-then _ (sync_tensor_listings t xs now)
        (λ s one.
          if_both (λ (m : Result AuctionError (Unit {0}) × Book). OneOpen a b m.1) (is_tensor x)
            (log_error (upsert_listing t x.id x.listing now) s) (pure tt s)
            (upsert_listing-Keeps t x.id x.listing now s one) one)
        (sync_tensor_listings-Keeps t xs now)
