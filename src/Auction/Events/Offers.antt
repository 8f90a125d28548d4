-- ===== src/Auction/Events/Offers.antt =====
-- The open listing of an asset, which `list`, the offers that are shown and `instantBuy` read, as the
-- instructions that src/webhooks/helius/helius.service.ts handled tell it.
pub mod Changes
pub mod Replay
use d_reader_backend.Auction.Orders.{
  find_bid, is_listing, close_listing, create_listing, find_listing, close_bid,
}
use d_reader_backend.Auction.Events.{
  handle_asset_transfer, find_bid, set_owner_of, err, listing_of, update_where, Terms,
  handle_cancel_bid, none, ok, find_config, is_listing, ListingConfig, Sell, handle_cancel_listing,
  Bid, AuctionError, some, transfer, handle_asset_bid, handle_asset_listing, bid_on_listing,
  handle_listing_reprice, handle_asset_sale, raise_highest, handle_asset_timed_listing,
}
use d_reader_backend.Auction.Events.Instructions.{
  Instruction, handle_instruction, handle_instructions, listed, timed_listed, listing_cancelled,
  repriced, bid_placed, bid_cancelled, sold, transferred,
}
use d_reader_backend.Auction.Events.Settlement.{settled, settle-both}
use d_reader_backend.Base.{
  find_first-none, false, eq_iff, refl, ap, update_where, true, none, ◌∙◌, ◌≡◌, ◌==◌, some, Option,
  find_first, if◌then◌else◌, Bool, Result, ◌≢◌, ℕ, String, List, [], ◌∷◌, nat_eq, string_eq, All,
  arith,
}
use d_reader_backend.Auction.Model.{ListingConfig, Bid, AuctionError, Book, Listing}

abbrev pub is_ok : Result AuctionError (Unit {0}) → Bool
is_ok (ok u) = true
is_ok (err e) = false

-- whether the handler of an instruction did not throw; that of a transfer catches what is thrown
abbrev pub was_handled : Instruction → Book → Bool
was_handled (transferred address owner now) s = is_ok (transfer address owner now s).0
was_handled i s = is_ok (handle_instruction i s).0

-- the instructions that were handled
abbrev pub handled : List Instruction → Book → List Instruction
handled [] s = []
handled (i ∷ is) s =
    let rest = handled is (handle_instruction i s).1 in if was_handled i s then i ∷ rest else rest

-- the offer of an asset after an instruction about an asset
abbrev pub offer_of : (asset about : String) → (changed offer : Option Listing) → Option Listing
offer_of asset about changed offer = if about == asset then changed else offer

abbrev pub at_price : ℕ → Listing → Listing
at_price price l = record l { price = price }

abbrev pub with_price : ℕ → Option Listing → Option Listing
with_price price none = none
with_price price (some l) = some (at_price price l)

-- The offer of an asset after an instruction: a listing opens it, a timed one at the price 0, a
-- reprice changes its price, and a sale, a transfer and a cancelled listing end it.
abbrev pub offer_after : String → Instruction → Option Listing → Option Listing
offer_after asset (listed id sell signature now) o =
    offer_of asset sell.asset (some (listing_of id sell signature now)) o
offer_after asset (timed_listed id sell terms signature now) o =
    offer_of asset sell.asset (some (listing_of id (record sell { price = 0 }) signature now)) o
offer_after asset (listing_cancelled about now) o = offer_of asset about none o
offer_after asset (repriced about price) o = offer_of asset about (with_price price o) o
offer_after asset (bid_placed bid) o = o
offer_after asset (bid_cancelled bidder about now) o = o
offer_after asset (sold house about buyer signature now) o = offer_of asset about none o
offer_after asset (transferred about owner now) o = offer_of asset about none o

abbrev pub offer : String → List Instruction → Option Listing → Option Listing
offer asset [] o = o
offer asset (i ∷ is) o = offer asset is (offer_after asset i o)

-- an instant at which an order is closed is not the epoch
abbrev pub IsStamped : Instruction → Type 0
IsStamped (listing_cancelled asset now) = now ≢ 0
IsStamped (sold house asset buyer signature now) = now ≢ 0
IsStamped (transferred address owner now) = now ≢ 0
IsStamped _ = Unit
