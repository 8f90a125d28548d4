-- ===== src/Auction/Events/Settlement.antt =====
-- A sale in src/webhooks/helius/helius.service.ts: all of it is stored, or nothing.
use d_reader_backend.Base.{
  ap, sym, subst, continue, inr, ◌⊎◌, inl, eq_refl, ℕ, ◌≡◌, ◌≢◌, refl, String, false, not, ◌&&◌,
  Option, none, some, List, [], ◌∷◌, ◌==◌, nat_eq, string_eq, arith, any, find_first, update_where,
  Result, ok, err, if_both,
}
use d_reader_backend.Auction.Model.{
  type_error, unique_violation, foreign_key_violation, Book, Listing, Bid, Asset, AuctionError,
}
use d_reader_backend.Auction.Orders.{
  is_listing, is_bid, find_listing, find_bid, sale_of, create_sale, close_listing, close_bid,
  update_owner, roll_back, set_closed, set_bid_closed, set_owner,
}
use d_reader_backend.Auction.Events.{type_error, record_not_found, M, settle, handle_asset_sale}

abbrev pub IsOwnedBy : String → String → Book → Type 0
IsOwnedBy asset owner s =
    any (λ a. (a.address == asset) && not (a.owner_address == owner)) s.assets ≡ false

module _ (house asset buyer signature : String) (now : ℕ) (s : Book) where
  -- nothing changed, or the sale of the open listing is stored at the amount of the open bid of the
  -- buyer, neither is open any more, and the asset is the buyer's
  abbrev pub Settles : Result AuctionError (Unit {0}) × Book → Type 0
  Settles (err e, s') = s' ≡ s
  Settles (ok u, s') =
      (listing : Listing) × (bid : Bid) × (find_listing asset s ≡ some listing)
      × (find_bid asset buyer s ≡ some bid)
      × (s'.sales ≡ sale_of house signature now listing bid ∷ s.sales)
      × (find_listing asset s' ≡ none)
      × (find_bid asset buyer s' ≡ none)
      × IsOwnedBy asset buyer s'

find_listing-set_closed :
    (asset : String) (now : ℕ) (ls : List Listing)
    → now ≢ 0
    → find_first
        (is_listing asset 0)
        (update_where (is_listing asset 0) (λ l. record l { closed_at = now }) ls)
      ≡ none
find_listing-set_closed asset now [] h = refl
find_listing-set_closed asset now (l ∷ ls) h =
    ground (arith, find_listing-set_closed asset now ls h)

find_bid-set_bid_closed :
    (asset bidder : String) (now : ℕ) (bs : List Bid)
    → now ≢ 0
    → find_first
        (is_bid asset bidder 0)
        (update_where (is_bid asset bidder 0) (λ b. record b { closed_at = now }) bs)
      ≡ none
find_bid-set_bid_closed asset bidder now [] h = refl
find_bid-set_bid_closed asset bidder now (b ∷ bs) h =
    ground (arith, find_bid-set_bid_closed asset bidder now bs h)

set_owner-IsOwnedBy :
    (asset owner : String) (xs : List Asset)
    → any
        (λ a. (a.address == asset) && not (a.owner_address == owner))
        (update_where (λ a. a.address == asset) (λ a. record a { owner_address = owner }) xs)
      ≡ false
set_owner-IsOwnedBy asset owner [] = refl
set_owner-IsOwnedBy asset owner (x ∷ xs) =
    ground (arith, set_owner-IsOwnedBy asset owner xs, eq_refl owner)

-- a run that throws, or returns and leaves the book as given
abbrev Leads : Book → Result AuctionError (Unit {0}) × Book → Type 0
Leads t m = ((e : AuctionError) × (m.0 ≡ err e)) ⊎ (m ≡ (ok tt, t))

Leads-then :
    (k : M (Unit {0})) (m : Result AuctionError (Unit {0}) × Book) (t u : Book)
    → Leads t m
    → Leads u (k t)
    → Leads u (continue (λ _. k) m)
Leads-then k (err e, s) t u h n = inl (e, refl)
Leads-then k (ok v, s) t u (inl (e, p)) n = absurd (cc)
Leads-then k (ok v, s) t u (inr q) n = subst (λ x. Leads u (k x)) (sym (ap (λ m. m.1) q)) n

create_sale-Leads :
    (house signature : String) (now : ℕ) (listing : Listing) (bid : Bid) (s : Book)
    → Leads
        (record s { sales = sale_of house signature now listing bid ∷ s.sales })
        (create_sale house signature now (some listing) bid s)
unfolding create_sale
create_sale-Leads house signature now listing bid s =
    if_both (Leads _) _ _ _ (inl (record_not_found, refl))
      (if_both (Leads _) _ _ _ (inl (unique_violation, refl)) (inr refl))

create_sale-Leads_of :
    (house signature asset : String) (now : ℕ) (listing : Listing) (bid : Bid) (s : Book)
    → find_listing asset s ≡ some listing
    → Leads
        (record s { sales = sale_of house signature now listing bid ∷ s.sales })
        (create_sale house signature now (find_listing asset s) bid s)
create_sale-Leads_of house signature asset now listing bid s l =
    rw l (create_sale-Leads house signature now listing bid s)

close_listing-Leads :
    (asset : String) (now : ℕ) (s : Book)
    → Leads (set_closed asset now s) (close_listing asset now s)
unfolding close_listing
close_listing-Leads asset now s =
    if_both (Leads _) _ _ _ (inl (record_not_found, refl))
      (if_both (Leads _) _ _ _ (inl (unique_violation, refl)) (inr refl))

close_bid-Leads :
    (asset bidder : String) (now : ℕ) (s : Book)
    → Leads (set_bid_closed asset bidder now s) (close_bid asset bidder now s)
unfolding close_bid
close_bid-Leads asset bidder now s =
    if_both (Leads _) _ _ _ (inl (record_not_found, refl))
      (if_both (Leads _) _ _ _ (inl (unique_violation, refl)) (inr refl))

update_owner-Leads :
    (asset owner : String) (s : Book) → Leads (set_owner asset owner s) (update_owner asset owner s)
unfolding update_owner
update_owner-Leads asset owner s =
    if_both (Leads _) _ _ _ (inl (foreign_key_violation, refl)) (inr refl)

roll_back-both :
    (P : Result AuctionError (Unit {0}) × Book → Type 0) (s t : Book)
    (m : Result AuctionError (Unit {0}) × Book)
    → Leads t m
    → ((e : AuctionError) → P (err e, s))
    → P (ok tt, t)
    → P (roll_back s m)
roll_back-both P s t (err e, s') h k n = k e
roll_back-both P s t (ok v, s') (inl (e, p)) k n = absurd (cc)
roll_back-both P s t (ok v, s') (inr q) k n = subst P (sym q) n

-- what a sale stores
abbrev pub settled : String → String → String → String → ℕ → Listing → Bid → Book → Book
settled house asset buyer signature now listing bid s = set_bid_closed asset buyer now (
    set_owner asset buyer (
      set_closed asset now
        (record s { sales = sale_of house signature now listing bid ∷ s.sales })))

-- a sale throws and changes nothing, or stores all of it
pub settle-both :
    (P : Result AuctionError (Unit {0}) × Book → Type 0) (house asset buyer signature : String)
    (now : ℕ) (s : Book) (listing : Option Listing) (bid : Option Bid)
    → find_listing asset s ≡ listing
    → find_bid asset buyer s ≡ bid
    → ((e : AuctionError) → P (err e, s))
    → ((l : Listing) (b : Bid)
        → find_listing asset s ≡ some l
        → find_bid asset buyer s ≡ some b
        → P (ok tt, settled house asset buyer signature now l b s))
    → P (settle house asset buyer signature now bid s)
unfolding settle
settle-both P house asset buyer signature now s listing none l b fails stores = fails type_error
settle-both P house asset buyer signature now s none (some bid) l b fails stores =
    subst P (sym (rw l refl)) (fails record_not_found)
settle-both P house asset buyer signature now s (some listing) (some bid) l b fails stores =
    let sold : Book = record s { sales = sale_of house signature now listing bid ∷ s.sales } in
    let closed : Book = set_closed asset now sold in
    let owned : Book = set_owner asset buyer closed in
    let paid : Book = set_bid_closed asset buyer now owned in
    roll_back-both P s paid _
      (Leads-then (close_bid asset buyer now) _ owned paid
        (Leads-then (update_owner asset buyer) _ closed owned
          (Leads-then (close_listing asset now) _ sold closed
            (create_sale-Leads_of house signature asset now listing bid s l)
            (close_listing-Leads asset now sold))
          (update_owner-Leads asset buyer closed))
        (close_bid-Leads asset buyer now owned))
      fails (stores listing bid l b)

-- A sale that the webhook handles changes nothing, whatever fails on the way, or it stores the sale
-- of the open listing of the asset at the amount of the open bid of the buyer, after which neither
-- is open and the asset is the buyer's.
pub handle_asset_sale-Settles :
    (house asset buyer signature : String) (now : ℕ) (s : Book)
    → now ≢ 0
    → Settles house asset buyer signature now s
        (handle_asset_sale house asset buyer signature now s)
unfolding handle_asset_sale
handle_asset_sale-Settles house asset buyer signature now s h =
    settle-both (Settles house asset buyer signature now s) house asset buyer signature now s
      (find_listing asset s) (find_bid asset buyer s) refl refl (λ e. refl)
      (λ listing bid l b. (
        listing,
        bid,
        l,
        b,
        refl,
        find_listing-set_closed asset now s.listings h,
        find_bid-set_bid_closed asset buyer now s.bids h,
        set_owner-IsOwnedBy asset buyer s.assets,
      ))
