-- ===== src/Auction/Trading/Stats.antt =====
-- The market of a comic issue: `getComicIssueTotalVolume` and `findCollectionStats` of
-- src/auction-house/auction-house.service.ts.
use d_reader_backend.Base.{
  ◌∙◌, sym, inr, refl, inl, arith, true, false, ◌⊎◌, ◌≤◌, ◌≡◌, all, string_eq, ◌+◌, [], nat_eq, ltb,
  if◌then◌else◌, ◌∷◌, ◌&&◌, find_many, sum_of, none, count_where, ◌==◌, any, some, String, Option,
  List, Bool, ℕ,
}
use d_reader_backend.Auction.Model.{Book, Listing, Sale}
use d_reader_backend.Auction.Trading.Assets.{Catalog}

-- `CollectibleComicCollection`
pub record ComicCollection : Type 0 where
  pub address : String
  pub comic_issue_id : ℕ

-- `CandyMachineReceipt`, with the addresses of its collectible comics
pub record MintReceipt : Type 0 where
  pub price : ℕ
  pub collectibles : List String

-- the tables besides those of the orders
pub record Market : Type 0 where
  pub catalog : Catalog
  pub collections : List ComicCollection
  pub receipts : List MintReceipt
  pub supplies : List (String × ℕ)  -- a candy machine's collection, and its supply

abbrev of_issue : ℕ → Market → String → Bool
of_issue issue m collection =
    any (λ x. (x.address == collection) && (x.comic_issue_id == issue)) m.collections

-- the asset is a collectible comic of the issue
abbrev pub is_of_issue : ℕ → Market → String → Bool
is_of_issue issue m asset =
    any (λ x. (x.address == asset) && of_issue issue m x.collection_address) m.catalog.collectibles

abbrev sale_asset : Sale → Book → String → Bool
sale_asset x s asset = any (λ l. (l.id == x.listing_id) && (l.asset_address == asset)) s.listings

abbrev is_sale_of_issue : ℕ → Market → Book → Sale → Bool
is_sale_of_issue issue m s x =
    any (λ l. (l.id == x.listing_id) && is_of_issue issue m l.asset_address) s.listings

-- `getComicIssueTotalVolume`
unfoldable pub get_comic_issue_total_volume : ℕ → Market → Book → ℕ
get_comic_issue_total_volume issue m s =
    sum_of (λ x. x.price) (find_many (is_sale_of_issue issue m s) s.sales)
    + sum_of (λ r. r.price) (find_many (λ r. all (is_of_issue issue m) r.collectibles) m.receipts)

abbrev pub is_open_of_issue : ℕ → Market → Listing → Bool
is_open_of_issue issue m l = (l.closed_at == 0) && is_of_issue issue m l.asset_address

abbrev cheaper : Listing → Option Listing → Listing
cheaper l none = l
cheaper l (some k) = if ltb k.price l.price then k else l

-- `findFirst` in the order of the price
unfoldable pub cheapest : List Listing → Option Listing
cheapest [] = none
cheapest (l ∷ ls) = some (cheaper l (cheapest ls))

-- `CollectonMarketplaceStats`
pub record MarketStats : Type 0 where
  pub total_volume : ℕ
  pub items_listed : ℕ
  pub floor_price : ℕ
  pub supply : ℕ

abbrev price_of : Option Listing → ℕ
price_of none = 0
price_of (some l) = l.price

-- `findCollectionStats`
unfoldable pub find_collection_stats : ℕ → Market → Book → MarketStats
unfolding get_comic_issue_total_volume cheapest
find_collection_stats issue m s = record {
  total_volume = get_comic_issue_total_volume issue m s;
  items_listed = count_where (is_open_of_issue issue m) s.listings;
  floor_price = price_of (cheapest (find_many (is_open_of_issue issue m) s.listings));
  supply = sum_of (λ x. x.1) (find_many (λ x. of_issue issue m x.0) m.supplies);
}

-- a bound of the cheapest is a bound of all
cheapest-bounds :
    (n : ℕ) (ls : List Listing) → n ≤ price_of (cheapest ls) → any (λ l. ltb l.price n) ls ≡ false
unfolding cheapest
cheapest-bounds n [] h = refl
cheapest-bounds n (l ∷ []) h = ground arith
cheapest-bounds n (l ∷ k ∷ ks) h = ground (arith, cheapest-bounds n (k ∷ ks))

cheapest-reached :
    (l : Listing) (ls : List Listing)
    → any (λ x. x.price == price_of (cheapest (l ∷ ls))) (l ∷ ls) ≡ true
unfolding cheapest
cheapest-reached l [] = ground arith
cheapest-reached l (k ∷ ks) = ground (arith, cheapest-reached k ks)

any-find_many :
    (p q : Listing → Bool) (ls : List Listing) → any q (find_many p ls) ≡ any (λ l. p l && q l) ls
any-find_many p q [] = refl
any-find_many p q (l ∷ ls) = ground (arith, any-find_many p q ls)

count_where-find_many_none :
    (p : Listing → Bool) (ls : List Listing) → find_many p ls ≡ [] → count_where p ls ≡ 0
count_where-find_many_none p [] h = refl
count_where-find_many_none p (l ∷ ls) h = ground (arith, count_where-find_many_none p ls)

-- the price n is a floor of the listings that the test accepts
abbrev pub IsFloor : (Listing → Bool) → ℕ → List Listing → Type 0
IsFloor p n ls =
    (any (λ l. p l && ltb l.price n) ls ≡ false)
    × ((count_where p ls ≡ 0) ⊎ (any (λ l. p l && (l.price == n)) ls ≡ true))

cheapest-IsFloor :
    (p : Listing → Bool) (ls : List Listing) → IsFloor p (price_of (cheapest (find_many p ls))) ls
cheapest-IsFloor p ls = (
  sym (any-find_many p (λ l. ltb l.price (price_of (cheapest (find_many p ls)))) ls)
      ∙ cheapest-bounds (price_of (cheapest (find_many p ls))) (find_many p ls) (omega arith),
  of_rows (find_many p ls) refl,
)
  where
    of_rows :
        (fs : List Listing)
        → find_many p ls ≡ fs
        → (count_where p ls ≡ 0)
          ⊎ (any (λ l. p l && (l.price == price_of (cheapest (find_many p ls)))) ls ≡ true)
    of_rows [] e = inl (count_where-find_many_none p ls e)
    of_rows (x ∷ xs) e = inr (
        sym (any-find_many p (λ l. l.price == price_of (cheapest (find_many p ls))) ls)
        ∙ rw e (cheapest-reached x xs))

-- The floor price that `findCollectionStats` returns for a comic issue is a lower bound of the
-- prices of its open listings, and the price of one of them if it has any.
pub find_collection_stats-IsFloor :
    (issue : ℕ) (m : Market) (s : Book)
    → let stats = find_collection_stats issue m s in
      IsFloor (is_open_of_issue issue m) stats.floor_price s.listings
unfolding find_collection_stats
find_collection_stats-IsFloor issue m s = cheapest-IsFloor (is_open_of_issue issue m) s.listings
