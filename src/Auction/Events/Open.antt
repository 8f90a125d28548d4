-- ===== src/Auction/Events/Open.antt =====
-- At most one open listing of an asset, and one open bid of a bidder for it, whatever events
-- src/webhooks/helius/helius.service.ts handles, those of Tensor included: the one that
-- `find_listing` and `find_bid` return is the one that there is.
use d_reader_backend.Auction.Trading.Assets.{Catalog}
use d_reader_backend.Auction.Events.Tensor.{
  TensorListing, TensorItem, handle_cancel_tensor_listing, sync_tensor_listings,
  handle_tensor_listing, handle_tensor_buying,
}
use d_reader_backend.Auction.Events.Instructions.{
  Instruction, handle_instruction, listed, timed_listed, listing_cancelled, repriced, bid_placed,
  bid_cancelled, sold, transferred,
}
use d_reader_backend.Base.{ℕ, String, List, [], ◌∷◌, nat_eq, string_eq}
use d_reader_backend.Auction.Model.{Book, M}
use d_reader_backend.Auction.Orders.{find_listing, find_bid, create_listing, create_bid}
use d_reader_backend.Auction.Events.{
  listing_of, handle_asset_listing, handle_asset_timed_listing, handle_cancel_listing,
  handle_asset_bid, bid_on_listing, handle_cancel_bid, handle_asset_sale, handle_asset_transfer,
}
use d_reader_backend.Auction.Events.Keeping.{
  Keeps-then, create_listing-Keeps, create_bid-Keeps, close_listing-Keeps, close_bid-Keeps,
  handle_listing_reprice-Keeps, bid_on_listing-Keeps, settle-Keeps, transfer-Keeps,
  handle_tensor_buying-Keeps, handle_tensor_listing-Keeps, sync_tensor_listings-Keeps, OneOpen,
  Keeps,
}

-- one event of the chain, or one of Tensor
pub data Event : Type 0 where
  instructed : Instruction → Event
  tensor_bought :
      (t : String) (c : Catalog) (buyer mint : String) (price : ℕ) (signature : String) (now : ℕ)
      → Event
  tensor_cancelled : (mint : String) (now : ℕ) → Event
  tensor_listed : (t : String) (c : Catalog) (id : ℕ) (x : TensorListing) (now : ℕ) → Event
  tensor_synced : (t : String) (xs : List TensorItem) (now : ℕ) → Event

-- the handler of an event: those of `handleInstruction`, and those of Tensor
abbrev pub handle : Event → M (Unit {0})
handle (instructed i) = handle_instruction i
handle (tensor_bought t c buyer mint price signature now) =
    handle_tensor_buying t c buyer mint price signature now
handle (tensor_cancelled mint now) = handle_cancel_tensor_listing mint now
handle (tensor_listed t c id x now) = handle_tensor_listing t c id x now
handle (tensor_synced t xs now) = sync_tensor_listings t xs now

-- the events in their order, each whatever became of those before
abbrev pub handle_all : List Event → Book → Book
handle_all [] s = s
handle_all (e ∷ es) s = handle_all es (handle e s).1

handle_instruction-Keeps : (a b : String) (i : Instruction) → Keeps a b (handle_instruction i)
unfolding handle_asset_listing handle_asset_timed_listing handle_cancel_listing handle_asset_bid
    handle_cancel_bid handle_asset_sale handle_asset_transfer
handle_instruction-Keeps a b (listed id sell signature now) =
    create_listing-Keeps a b (listing_of id sell signature now)
handle_instruction-Keeps a b (timed_listed id sell terms signature now) =
    Keeps-then a b (create_listing (listing_of id (record sell { price = 0 }) signature now)) _
      (create_listing-Keeps a b (listing_of id (record sell { price = 0 }) signature now))
      (λ s one. one)
handle_instruction-Keeps a b (listing_cancelled asset now) = close_listing-Keeps a b asset now
handle_instruction-Keeps a b (repriced asset price) = handle_listing_reprice-Keeps a b asset price
handle_instruction-Keeps a b (bid_placed bid) =
    Keeps-then a b (create_bid bid) (λ s. bid_on_listing (find_listing bid.asset_address s) bid s)
      (create_bid-Keeps a b bid)
      (λ s. bid_on_listing-Keeps a b (find_listing bid.asset_address s) bid s)
handle_instruction-Keeps a b (bid_cancelled bidder asset now) = close_bid-Keeps a b asset bidder now
handle_instruction-Keeps a b (sold house asset buyer signature now) =
    λ s. settle-Keeps a b house asset buyer signature now (find_bid asset buyer s) s
handle_instruction-Keeps a b (transferred address owner now) = transfer-Keeps a b address owner now

handle-Keeps : (a b : String) (e : Event) → Keeps a b (handle e)
unfolding handle_tensor_buying handle_cancel_tensor_listing handle_tensor_listing
handle-Keeps a b (instructed i) = handle_instruction-Keeps a b i
handle-Keeps a b (tensor_bought t c buyer mint price signature now) =
    handle_tensor_buying-Keeps a b t c buyer mint price signature now
handle-Keeps a b (tensor_cancelled mint now) = close_listing-Keeps a b mint now
handle-Keeps a b (tensor_listed t c id x now) = handle_tensor_listing-Keeps a b t c id x now
handle-Keeps a b (tensor_synced t xs now) = sync_tensor_listings-Keeps a b t xs now

-- whatever events are handled, in whatever order and with whatever result, an asset has at most one
-- open listing and a bidder at most one open bid for it, if that is so at the start.
pub handle_all-OneOpen :
    (asset bidder : String) (events : List Event) (s : Book)
    → OneOpen asset bidder s
    → OneOpen asset bidder (handle_all events s)
handle_all-OneOpen asset bidder [] s one = one
handle_all-OneOpen asset bidder (e ∷ es) s one =
    handle_all-OneOpen asset bidder es (handle e s).1 (handle-Keeps asset bidder e s one)
