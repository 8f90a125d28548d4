-- ===== src/Auction/Events/Tensor.antt =====
-- Listings of Tensor: `handleTensorBuying`, `handleCancelTensorListing` and `handleTensorListing` of
-- src/webhooks/helius/helius.service.ts, and `syncTensorListings` of
-- src/auction-house/auction-house.service.ts. The name that
-- helius-sdk gives this source, `Source.TENSOR`, is the argument `t`.
use d_reader_backend.Auction.Events.{
  find_listing, update_where, set_owner_of, modify, is_listing, some, in_transaction, ◌∷◌, any, not,
  throw, log_error,
}
use d_reader_backend.Base.{
  nat_eq, update_where, modify, [], string_eq, is_some, ◌||◌, not, ◌∷◌, any, throw, Option,
  throw_if, if◌then◌else◌, ◌==◌, pure, ◌>>◌, none, List, ℕ, String, Bool,
}
use d_reader_backend.Auction.Orders.{
  find_listing, has_house, is_listing, in_transaction, create_listing, close_listing,
}
use d_reader_backend.Auction.Model.{unique_violation, M, Listing, Sale, record_not_found}
use d_reader_backend.Auction.Trading.Assets.{find_collectible, Catalog}

-- the program of Tensor
abbrev tcomp_program_id : String
tcomp_program_id = "TCMPhJdwDryooaGtiocG1u3xcYbRpiJzb283XfCZsDp"

abbrev pub check_collectible : String → Catalog → M (Unit {0})
check_collectible mint c = throw_if (not (is_some (find_collectible mint c))) record_not_found

abbrev pub tensor_sale_of : ℕ → String → ℕ → Listing → Sale
tensor_sale_of price signature now l = record {
  auction_house = tcomp_program_id;
  sold_at = now;
  signature = signature;
  price = price;
  listing_id = l.id;
  bid_id = none;
}

-- `sale: { create }` of the listing
unfoldable pub create_tensor_sale : ℕ → String → ℕ → Option Listing → M (Unit {0})
create_tensor_sale price signature now none s = throw record_not_found s
create_tensor_sale price signature now (some l) s =
    if not (has_house tcomp_program_id s)
    then throw record_not_found s
    else if any (λ x. x.listing_id == l.id) s.sales
    then throw unique_violation s
    else modify (λ s. record s { sales = tensor_sale_of price signature now l ∷ s.sales }) s

-- `handleTensorBuying`: one nested update, so that all of it is stored or nothing, and an exception
-- is logged
unfoldable pub handle_tensor_buying :
    String → Catalog → String → String → ℕ → String → ℕ → M (Unit {0})
unfolding create_tensor_sale close_listing
handle_tensor_buying t c buyer mint price signature now = log_error (
    in_transaction (
      check_collectible mint c
      >> modify (set_owner_of mint buyer now)
      >> (λ s. create_tensor_sale price signature now (find_listing mint s) s)
      >> close_listing mint now))

-- `handleCancelTensorListing`
unfoldable pub handle_cancel_tensor_listing : String → ℕ → M (Unit {0})
unfolding close_listing
handle_cancel_tensor_listing mint now = close_listing mint now

-- what a listing of Tensor says
pub record TensorListing : Type 0 where
  pub mint : String
  pub price : ℕ
  pub seller : String
  pub signature : String

abbrev pub tensor_listing_of : String → ℕ → TensorListing → ℕ → Listing
tensor_listing_of t id x now = record {
  id = id;
  asset_address = x.mint;
  price = x.price;
  seller_address = x.seller;
  signature = x.signature;
  created_at = now;
  closed_at = 0;
  source = t;
  auction_house = tcomp_program_id;
}

-- the house of a listing that is open stays
abbrev pub relist : String → TensorListing → ℕ → Listing → Listing
relist t x now l = record l {
  price = x.price;
  seller_address = x.seller;
  signature = x.signature;
  created_at = now;
  source = t;
}

-- `upsert` of the open listing of the asset
unfoldable pub upsert_listing : String → ℕ → TensorListing → ℕ → M (Unit {0})
unfolding create_listing
upsert_listing t id x now s =
    if any (is_listing x.mint 0) s.listings
    then modify
        (λ s. record s {
          listings = update_where (is_listing x.mint 0) (relist t x now) s.listings;
        })
        s
    else create_listing (tensor_listing_of t id x now) s

-- `handleTensorListing`
unfoldable pub handle_tensor_listing : String → Catalog → ℕ → TensorListing → ℕ → M (Unit {0})
unfolding upsert_listing
handle_tensor_listing t c id x now = check_collectible x.mint c >> upsert_listing t id x now

-- an item of the list of Tensor, with its own name of the source
pub record TensorItem : Type 0 where
  pub id : ℕ  -- the key of the listing, should one be created
  pub source : String
  pub listing : TensorListing

abbrev pub is_tensor : TensorItem → Bool
is_tensor x = (x.source == "TENSORSWAP") || (x.source == "TCOMP")

-- `syncTensorListings`: an item of another source is passed over, an exception is logged
unfoldable pub sync_tensor_listings : String → List TensorItem → ℕ → M (Unit {0})
unfolding upsert_listing
sync_tensor_listings t [] now = pure tt
sync_tensor_listings t (x ∷ xs) now =
    (λ s. if is_tensor x then log_error (upsert_listing t x.id x.listing now) s else pure tt s)
    >> sync_tensor_listings t xs now
