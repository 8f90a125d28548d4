-- ===== src/Prints/Model.antt =====
-- The rows of the sale of print editions (prisma/schema.prisma).

use d_reader_backend.Base.{
  string_eq, none, some, ◌==◌, Bool, find_first, err, ok, Option, String, List, Action, Result, ℕ,
}

pub data ShopError : Type 0 where
  not_active not_started ended sold_out not_on_sale : ShopError
  bad_dates currency_unsupported not_verified : ShopError
  chain_error : ShopError  -- a call of the chain throws
  invalid_data : ShopError  -- a value that the database needs is not given
  type_error : ShopError  -- a field of `null` is read
  record_not_found : ShopError  -- a `connect` or an `update` finds no row
  unique_violation : ShopError  -- a row with the same unique key exists

-- `PrintEditionSaleConfig`
pub record SaleConfig : Type 0 where
  pub collection_address : String
  pub start_date : Option ℕ
  pub end_date : Option ℕ
  pub mint_price : ℕ
  pub currency_mint : String
  pub items_minted : ℕ
  pub supply : ℕ
  pub is_active : Bool

-- `PrintEditionCollection`
pub record Collection : Type 0 where
  pub address : String
  pub verified_at : Option ℕ

-- `PrintEdition`
pub record Edition : Type 0 where
  pub address : String
  pub collection_address : String
  pub number : ℕ

-- `DigitalAsset`
pub record Asset : Type 0 where
  pub address : String
  pub owner_address : String
  pub owner_changed_at : ℕ
  pub is_burned : Bool

-- the tables; of a wallet and of a token only the address counts
pub record Shop : Type 0 where
  pub collections : List Collection
  pub configs : List SaleConfig
  pub editions : List Edition
  pub assets : List Asset
  pub wallets : List String
  pub spl_tokens : List String

abbrev pub M : Type 0 → Type 0
M = Action Shop ShopError

abbrev pub find_collection : String → Shop → Option Collection
find_collection address s = find_first (λ c. c.address == address) s.collections

abbrev pub find_config : String → Shop → Option SaleConfig
find_config address s = find_first (λ c. c.collection_address == address) s.configs

abbrev pub find_asset : String → Shop → Option Asset
find_asset address s = find_first (λ a. a.address == address) s.assets

abbrev pub found : {A : Type 0} → Option A → ShopError → Result ShopError A
found none e = err e
found (some a) e = ok a

infixr 4 ◌and_then◌
abbrev pub ◌and_then◌ :
    {A B : Type 0} → Result ShopError A → (A → Result ShopError B) → Result ShopError B
(ok a) and_then f = f a
(err e) and_then f = err e
