-- ===== src/Auction/Trading/Lifecycle.antt =====
-- A listing from `list` to its end: how the services of
-- src/auction-house/auction-house.service.ts fit the events of
-- src/webhooks/helius/helius.service.ts.
use d_reader_backend.Auction.Orders.{is_listing, find_listing}
use d_reader_backend.Base.{
  find_first-update_where, any-found, eq_iff, sym, find_first-holds, find_first_unique, find_first,
  ap, ◌∙◌, false, none, string_eq, Result, arith, Option, eq_refl, ◌≤◌, ◌==◌, refl, some, ◌≡◌,
  count_where, ℕ, ◌∷◌, String,
}
use d_reader_backend.Auction.Events.{
  listing_of, Sell, handle_asset_listing, handle_listing_reprice, d_reader_auction,
}
use d_reader_backend.Auction.Trading.{
  find_machine, find_first, err, currency_unsupported, Result, Option, some, ok, find_listing, ℕ,
  ◌∷◌, get_auction_house, String, Tensor, SellTransaction, list, instant_buy, from_house, house_of,
  BuyTransaction, buy_from_house, find_house,
}
use d_reader_backend.Auction.Trading.Assets.{
  find_one_of_one, find_edition, find_machine, find_collectible, of_collectible, asset_not_found,
  currency_unsupported, Catalog, get_basic_asset_data, found, ◌and_then◌, BasicData, TradeError,
}
use d_reader_backend.Auction.Model.{Book, House, Listing}

-- the key of a house is its address
abbrev pub UniqueHouses : Book → Type 0
UniqueHouses s = (a : String) → count_where (λ h. h.address == a) s.houses ≤ 1

-- the instruction that a sale transaction of the house becomes
abbrev pub sell_of : SellTransaction → Sell
sell_of tx = record { asset = tx.asset; house = tx.house; seller = tx.seller; price = tx.price }

abbrev pub bought_of : SellTransaction → String → String → BuyTransaction
bought_of tx buyer currency = record {
  house = tx.house;
  asset = tx.asset;
  buyer = buyer;
  seller = tx.seller;
  treasury_mint = currency;
  price = tx.price;
  collection = tx.collection;
}

-- what `list` found
record Lists (asset : String) (price : ℕ) (currency : String) (c : Catalog) (s : Book)
    (tx : SellTransaction) : Type 0 where
  pub house : House
  pub basic : BasicData
  pub house_found : find_house currency s ≡ some house
  pub basic_found : get_basic_asset_data asset c s ≡ ok basic
  pub is_transaction : tx ≡ record {
    house = house.address;
    asset = asset;
    seller = basic.seller;
    price = price;
    collection = basic.collection;
  }

list-Lists :
    (asset : String) (price : ℕ) (currency : String) (c : Catalog) (s : Book) (tx : SellTransaction)
    → list asset price currency c s ≡ ok tx
    → Lists asset price currency c s tx
unfolding list get_auction_house
list-Lists asset price currency c s tx e =
    of_both (find_house currency s) (get_basic_asset_data asset c s) refl refl e
  where
    of_both :
        (h : Option House) (b : Result TradeError BasicData)
        → find_house currency s ≡ h
        → get_basic_asset_data asset c s ≡ b
        → (found h currency_unsupported and_then λ house. b and_then λ basic. ok (record {
          house = house.address;
          asset = asset;
          seller = basic.seller;
          price = price;
          collection = basic.collection;
        }))
          ≡ ok tx
        → Lists asset price currency c s tx
    of_both none b hh bb e = absurd (cc)
    of_both (some h) (err x) hh bb e = absurd (cc)
    of_both (some h) (ok b) hh bb e = record {
      house = h;
      basic = b;
      house_found = hh;
      basic_found = bb;
      is_transaction = cc;
    }

abbrev with_listing : Listing → Book → Book
with_listing l s = record s { listings = l ∷ s.listings }

handle_asset_listing-with_listing :
    (id : ℕ) (sell : Sell) (signature : String) (now : ℕ) (s : Book)
    → (handle_asset_listing id sell signature now s).0 ≡ ok tt
    → (handle_asset_listing id sell signature now s).1
      ≡ with_listing (listing_of id sell signature now) s
unfolding handle_asset_listing
handle_asset_listing-with_listing id sell signature now s e = ground arith

get_basic_asset_data-kept :
    (asset : String) (c : Catalog) (s u : Book)
    → u.assets ≡ s.assets
    → get_basic_asset_data asset c u ≡ get_basic_asset_data asset c s
unfolding get_basic_asset_data
get_basic_asset_data-kept asset c s u e =
    ap
      (λ x. found (find_first (λ a. a.address == asset) x) asset_not_found and_then λ a.
        of_collectible a.owner_address (find_collectible asset c) (find_machine asset c)
          (find_edition asset c) (find_one_of_one asset c))
      e

find_listing-with_listing :
    (id : ℕ) (sell : Sell) (signature : String) (now : ℕ) (s : Book)
    → find_listing sell.asset (with_listing (listing_of id sell signature now) s)
      ≡ some (listing_of id sell signature now)
find_listing-with_listing id sell signature now s = rw (eq_refl sell.asset) refl

-- the house of a listing of the house that has a currency
house_of-listed :
    (currency : String) (h : House) (l : Listing) (s : Book)
    → UniqueHouses s
    → find_house currency s ≡ some h
    → l.auction_house ≡ h.address
    → house_of l s ≡ some h
house_of-listed currency h l s unique found same =
    ap (λ a. find_first (λ x. x.address == a) s.houses) same
    ∙ find_first_unique (λ x. x.treasury_mint == currency) (λ x. x.address == h.address) s.houses h
        found (eq_refl h.address) (unique h.address)

buy_from_house-found :
    (l : Listing) (buyer : String) (h : House) (b : BasicData) (c : Catalog) (s : Book)
    → house_of l s ≡ some h
    → get_basic_asset_data l.asset_address c s ≡ ok b
    → buy_from_house l buyer c s
      ≡ ok (
          from_house (record {
            house = h.address;
            asset = l.asset_address;
            buyer = buyer;
            seller = l.seller_address;
            treasury_mint = h.treasury_mint;
            price = l.price;
            collection = b.collection;
          }))
buy_from_house-found l buyer h b c s p q = rw (p, q) refl

find_house-mint :
    (currency : String) (s : Book) (h : House)
    → find_house currency s ≡ some h
    → h.treasury_mint ≡ currency
find_house-mint currency s h e =
    (eq_iff h.treasury_mint currency).0
      (find_first-holds (λ x. x.treasury_mint == currency) s.houses h e)

buy_from_house-Lists :
    (asset : String) (price : ℕ) (currency buyer : String) (c : Catalog) (s u : Book)
    (tx : SellTransaction) (l : Listing)
    → UniqueHouses s
    → Lists asset price currency c s tx
    → u.houses ≡ s.houses
    → u.assets ≡ s.assets
    → l.asset_address ≡ asset
    → l.seller_address ≡ tx.seller
    → l.auction_house ≡ tx.house
    → buy_from_house l buyer c u
      ≡ ok (from_house (bought_of (record tx { price = l.price }) buyer currency))
buy_from_house-Lists asset price currency buyer c s u tx l unique k hs xs a sel h =
    let t = k.is_transaction in
    let same_house : l.auction_house ≡ k.house.address = h ∙ ap (λ x. x.house) t in
    let house = house_of-listed currency k.house l s unique k.house_found same_house in
    let basic = k.basic_found in
    let mint = find_house-mint currency s k.house k.house_found in
    buy_from_house-found l buyer k.house k.basic c u
      (ap (λ x. find_first (λ y. y.address == l.auction_house) x) hs ∙ house)
      (get_basic_asset_data-kept l.asset_address c s u xs
        ∙ ap (λ x. get_basic_asset_data x c s) a
        ∙ basic)
    ∙ ground arith

instant_buy-found :
    (t : Tensor) (asset buyer : String) (c : Catalog) (s : Book) (l : Listing)
    → find_listing asset s ≡ some l
    → (l.source == t.source) ≡ false
    → instant_buy t asset buyer c s ≡ buy_from_house l buyer c s
unfolding instant_buy
instant_buy-found t asset buyer c s l p q = rw (p, q) refl

-- After `list` returned a transaction and the webhook handled the listing that it makes,
-- `instantBuy` of the asset returns the transaction that buys it from the seller, at the price and
-- in the currency that were listed.
pub instant_buy-list :
    (t : Tensor) (asset : String) (price : ℕ) (currency buyer : String) (id now : ℕ)
    (signature : String) (c : Catalog) (s : Book) (tx : SellTransaction)
    → UniqueHouses s
    → (d_reader_auction == t.source) ≡ false
    → list asset price currency c s ≡ ok tx
    → (handle_asset_listing id (sell_of tx) signature now s).0 ≡ ok tt
    → instant_buy t asset buyer c (handle_asset_listing id (sell_of tx) signature now s).1
      ≡ ok (from_house (bought_of tx buyer currency))
instant_buy-list t asset price currency buyer id now signature c s tx unique other listed stored =
    let k = list-Lists asset price currency c s tx listed in
    let l = listing_of id (sell_of tx) signature now in
    let u = with_listing l s in
    let same : tx.asset ≡ asset = ap (λ x. x.asset) k.is_transaction in
    let in_book = handle_asset_listing-with_listing id (sell_of tx) signature now s stored in
    ap (λ x. instant_buy t asset buyer c x) in_book
    ∙ instant_buy-found t asset buyer c u l
        (ap (λ a. find_listing a u) (sym same)
          ∙ find_listing-with_listing id (sell_of tx) signature now s)
        other
    ∙ buy_from_house-Lists asset price currency buyer c s u tx l unique k refl refl same refl refl

find_listing-reprice :
    (asset : String) (price : ℕ) (s : Book) (l : Listing)
    → find_listing asset s ≡ some l
    → find_listing asset (handle_listing_reprice asset price s).1
      ≡ some (record l { price = price })
unfolding handle_listing_reprice
find_listing-reprice asset price s l e = ground (
  arith,
  any-found (is_listing asset 0) (is_listing asset 0) s.listings l,
  find_first-holds (is_listing asset 0) s.listings l,
  find_first-update_where (is_listing asset 0) (is_listing asset 0)
      (λ x. record x { price = price }) s.listings l (λ x. refl),
)

reprice-rest :
    (asset : String) (price : ℕ) (s : Book)
    → ((handle_listing_reprice asset price s).1.houses ≡ s.houses)
      × ((handle_listing_reprice asset price s).1.assets ≡ s.assets)
unfolding handle_listing_reprice
reprice-rest asset price s = ground arith

-- After the webhook handled a new price of a listing that was made with `list`, `instantBuy` returns the same
-- transaction as before, but for the price, which is the new one.
pub instant_buy-handle_listing_reprice :
    (t : Tensor) (asset : String) (price : ℕ) (currency buyer : String) (id now : ℕ)
    (signature : String) (c : Catalog) (s : Book) (tx : SellTransaction) (new_price : ℕ)
    → UniqueHouses s
    → (d_reader_auction == t.source) ≡ false
    → list asset price currency c s ≡ ok tx
    → (handle_asset_listing id (sell_of tx) signature now s).0 ≡ ok tt
    → instant_buy t asset buyer c
        (handle_listing_reprice asset new_price
          (handle_asset_listing id (sell_of tx) signature now s).1).1
      ≡ ok (from_house (record (bought_of tx buyer currency) { price = new_price }))
instant_buy-handle_listing_reprice t asset price currency buyer id now signature c s tx new_price
      unique other listed stored =
    let k = list-Lists asset price currency c s tx listed in
    let l = listing_of id (sell_of tx) signature now in
    let v = with_listing l s in
    let u = (handle_listing_reprice asset new_price v).1 in
    let same : tx.asset ≡ asset = ap (λ x. x.asset) k.is_transaction in
    let in_book = handle_asset_listing-with_listing id (sell_of tx) signature now s stored in
    let open_before =
      ap (λ a. find_listing a v) (sym same)
      ∙ find_listing-with_listing id (sell_of tx) signature now s in
    ap (λ x. instant_buy t asset buyer c (handle_listing_reprice asset new_price x).1) in_book
    ∙ instant_buy-found t asset buyer c u (record l { price = new_price })
        (find_listing-reprice asset new_price v l open_before) other
    ∙ buy_from_house-Lists asset price currency buyer c s u tx (record l { price = new_price })
        unique k (reprice-rest asset new_price v).0 (reprice-rest asset new_price v).1 same refl
        refl
