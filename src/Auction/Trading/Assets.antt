-- ===== src/Auction/Trading/Assets.antt =====
-- The assets that are traded: `getBasicAssetData` of
-- src/auction-house/auction-house.service.ts, and the rows of prisma/schema.prisma that it reads.
use d_reader_backend.Base.{
  ◌&&◌, string_eq, ◌==◌, if◌then◌else◌, any, false, none, true, some, find_first, err, ok, Option,
  Result, String, List, Bool,
}
use d_reader_backend.Mint.Model.{TokenStandard, core}
use d_reader_backend.Auction.Model.{Book, Asset}

pub data TradeError : Type 0 where
  asset_not_found asset_unsupported standard_unsupported : TradeError
  currency_unsupported bad_dates : TradeError
  listing_not_found listing_closed bid_not_found : TradeError
  tensor_failed buying_failed : TradeError
  type_error : TradeError  -- a field of `null` is read

-- `CollectibleComic`, with the collection of its metadata
pub record Collectible : Type 0 where
  pub address : String
  pub collection_address : String

-- `CandyMachine`
pub record Machine : Type 0 where
  pub address : String
  pub collection_address : String
  pub standard : TokenStandard

-- `PrintEdition`
pub record Edition : Type 0 where
  pub address : String
  pub collection_address : String

pub record OneOfOne : Type 0 where
  pub address : String
  pub collection_address : Option String

-- the tables of the kinds of assets
pub record Catalog : Type 0 where
  pub collectibles : List Collectible
  pub machines : List Machine
  pub editions : List Edition
  pub one_of_ones : List OneOfOne

abbrev pub found : {A : Type 0} → Option A → TradeError → Result TradeError A
found none e = err e
found (some a) e = ok a

infixr 4 ◌and_then◌
abbrev pub ◌and_then◌ :
    {A B : Type 0} → Result TradeError A → (A → Result TradeError B) → Result TradeError B
(ok a) and_then f = f a
(err e) and_then f = err e

abbrev pub find_asset : String → Book → Option Asset
find_asset address s = find_first (λ a. a.address == address) s.assets

abbrev pub find_collectible : String → Catalog → Option Collectible
find_collectible address c = find_first (λ x. x.address == address) c.collectibles

abbrev pub find_edition : String → Catalog → Option Edition
find_edition address c = find_first (λ x. x.address == address) c.editions

abbrev pub find_one_of_one : String → Catalog → Option OneOfOne
find_one_of_one address c = find_first (λ x. x.address == address) c.one_of_ones

-- a machine of a collection that the metadata of the collectible with this address belongs to
abbrev pub find_machine : String → Catalog → Option Machine
find_machine address c =
    find_first
      (λ m.
        any (λ x. (x.address == address) && (x.collection_address == m.collection_address))
          c.collectibles)
      c.machines

-- what `getBasicAssetData` returns besides the address
pub record BasicData : Type 0 where
  pub seller : String
  pub collection : Option String

abbrev pub is_core : TokenStandard → Bool
is_core core = true
is_core _ = false

abbrev of_machine : String → Option Machine → Result TradeError BasicData
of_machine owner none = err standard_unsupported
of_machine owner (some m) =
    if is_core m.standard
    then ok (record { seller = owner; collection = some m.collection_address })
    else err standard_unsupported

abbrev of_one_of_one : String → Option OneOfOne → Result TradeError BasicData
of_one_of_one owner none = err asset_unsupported
of_one_of_one owner (some x) = ok (record { seller = owner; collection = x.collection_address })

abbrev of_edition : String → Option Edition → Option OneOfOne → Result TradeError BasicData
of_edition owner none o = of_one_of_one owner o
of_edition owner (some x) o = ok (record { seller = owner; collection = some x.collection_address })

abbrev pub of_collectible :
    String
    → Option Collectible
    → Option Machine
    → Option Edition
    → Option OneOfOne
    → Result TradeError BasicData
of_collectible owner none m e o = of_edition owner e o
of_collectible owner (some x) m e o = of_machine owner m

-- `getBasicAssetData`
unfoldable pub get_basic_asset_data : String → Catalog → Book → Result TradeError BasicData
get_basic_asset_data address c s = found (find_asset address s) asset_not_found and_then λ a.
    of_collectible a.owner_address (find_collectible address c) (find_machine address c)
      (find_edition address c) (find_one_of_one address c)
