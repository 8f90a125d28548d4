-- ===== src/Auction/Events/Instructions.antt =====
-- The instructions on listings, bids and sales, and the transfers of assets, as `handleInstruction` of
-- src/webhooks/helius/helius.service.ts hands them to the handlers.
use d_reader_backend.Base.{ℕ, String, List, [], ◌∷◌}
use d_reader_backend.Auction.Model.{Book, M, Bid}
use d_reader_backend.Auction.Events.{
  Sell, Terms, handle_asset_listing, handle_asset_timed_listing, handle_cancel_listing,
  handle_listing_reprice, handle_asset_bid, handle_cancel_bid, handle_asset_sale,
  handle_asset_transfer,
}

pub data Instruction : Type 0 where
  listed : (id : ℕ) (sell : Sell) (signature : String) (now : ℕ) → Instruction
  timed_listed : (id : ℕ) (sell : Sell) (terms : Terms) (signature : String) (now : ℕ) → Instruction
  listing_cancelled : (asset : String) (now : ℕ) → Instruction
  repriced : (asset : String) (price : ℕ) → Instruction
  bid_placed : Bid → Instruction
  bid_cancelled : (bidder asset : String) (now : ℕ) → Instruction
  sold : (house asset buyer signature : String) (now : ℕ) → Instruction
  transferred : (address owner : String) (now : ℕ) → Instruction

abbrev pub handle_instruction : Instruction → M (Unit {0})
handle_instruction (listed id sell signature now) = handle_asset_listing id sell signature now
handle_instruction (timed_listed id sell terms signature now) =
    handle_asset_timed_listing id sell terms signature now
handle_instruction (listing_cancelled asset now) = handle_cancel_listing asset now
handle_instruction (repriced asset price) = handle_listing_reprice asset price
handle_instruction (bid_placed bid) = handle_asset_bid bid
handle_instruction (bid_cancelled bidder asset now) = handle_cancel_bid bidder asset now
handle_instruction (sold house asset buyer signature now) =
    handle_asset_sale house asset buyer signature now
handle_instruction (transferred address owner now) = handle_asset_transfer address owner now

-- the instructions in their order, each whatever became of those before
abbrev pub handle_instructions : List Instruction → Book → Book
handle_instructions [] s = s
handle_instructions (i ∷ is) s = handle_instructions is (handle_instruction i s).1
