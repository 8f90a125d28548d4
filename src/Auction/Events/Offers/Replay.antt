-- ===== src/Auction/Events/Offers/Replay.antt =====
-- The open listing of an asset after the instructions that src/webhooks/helius/helius.service.ts
-- handled, against the offer that they tell.
use d_reader_backend.Auction.Events.Offers.{
  is_ok, was_handled, handled, offer_after, offer, IsStamped,
}
use d_reader_backend.Auction.Events.Offers.Changes.{
  create_listing-offer, timed_listing-offer, close_listing-offer, reprice-offer, sale-offer,
  transfer-offer, handle_asset_bid-listings, close_bid-listings,
}
use d_reader_backend.Auction.Orders.{is_listing, find_listing}
use d_reader_backend.Auction.Events.{
  handle_asset_transfer, listing_of, handle_cancel_bid, is_listing, handle_cancel_listing,
  handle_asset_bid, handle_asset_listing,
}
use d_reader_backend.Auction.Events.Instructions.{
  Instruction, handle_instruction, handle_instructions, listed, timed_listed, listing_cancelled,
  repriced, bid_placed, bid_cancelled, sold, transferred,
}
use d_reader_backend.Base.{
  false, refl, ap, true, ◌∙◌, ◌≡◌, Option, find_first, if◌then◌else◌, Bool, String, List, [], ◌∷◌,
  nat_eq, string_eq, All,
}
use d_reader_backend.Auction.Model.{Book, Listing}

same_either : {o o' : Option Listing} (b : Bool) → o ≡ o' → o ≡ (if b then o' else o')
same_either true h = h
same_either false h = h

-- an instruction changes the open listing as its offer, if it was handled, and else not at all
handle_instruction-offer :
    (asset : String) (i : Instruction) (s : Book)
    → IsStamped i
    → find_listing asset (handle_instruction i s).1 ≡ (
        if was_handled i s
        then offer_after asset i (find_listing asset s)
        else find_listing asset s)
unfolding handle_asset_listing handle_cancel_listing handle_cancel_bid handle_asset_transfer
handle_instruction-offer asset (listed id sell signature now) s h =
    create_listing-offer asset (listing_of id sell signature now) s refl
handle_instruction-offer asset (timed_listed id sell terms signature now) s h =
    timed_listing-offer asset id sell terms signature now s
handle_instruction-offer asset (listing_cancelled about now) s h =
    close_listing-offer asset about now s h
handle_instruction-offer asset (repriced about price) s h = reprice-offer asset about price s
handle_instruction-offer asset (bid_placed bid) s h =
    same_either (is_ok (handle_asset_bid bid s).0)
      (ap (λ ls. find_first (is_listing asset 0) ls) (handle_asset_bid-listings bid s))
handle_instruction-offer asset (bid_cancelled bidder about now) s h =
    same_either (is_ok (handle_cancel_bid bidder about now s).0)
      (ap (λ ls. find_first (is_listing asset 0) ls) (close_bid-listings about bidder now s))
handle_instruction-offer asset (sold house about buyer signature now) s h =
    sale-offer asset house about buyer signature now s h
handle_instruction-offer asset (transferred about owner now) s h =
    transfer-offer asset about owner now s h

offer-handled :
    (asset : String) (b : Bool) (i : Instruction) (rest : List Instruction) (o : Option Listing)
    → offer asset rest (if b then offer_after asset i o else o)
      ≡ offer asset (if b then i ∷ rest else rest) o
offer-handled asset true i rest o = refl
offer-handled asset false i rest o = refl

-- Whatever instructions of the auction program on listings, bids and sales, and transfers of assets,
-- the webhook handles one after another, in whatever order and whichever of them fail, where no
-- order is closed at the epoch: the open listing of an asset is the one that the instructions that
-- did not fail leave of it, told without the database: a listing opens it, a timed one at the price
-- 0, a reprice changes its price, a sale, a transfer and a cancelled listing end it, and bids and
-- instructions about other assets leave it.
pub find_listing-handle_instructions :
    (asset : String) (is : List Instruction) (s : Book)
    → All IsStamped is
    → find_listing asset (handle_instructions is s)
      ≡ offer asset (handled is s) (find_listing asset s)
find_listing-handle_instructions asset [] s h = refl
find_listing-handle_instructions asset (i ∷ is) s (h, hs) =
    find_listing-handle_instructions asset is (handle_instruction i s).1 hs
    ∙ ap (offer asset (handled is (handle_instruction i s).1))
        (handle_instruction-offer asset i s h)
    ∙ offer-handled asset (was_handled i s) i (handled is (handle_instruction i s).1)
        (find_listing asset s)
