-- ===== src/Chain/Model.antt =====
-- The rows that follow the collectible comics of the chain (prisma/schema.prisma).
use d_reader_backend.Base.{string_eq, ◌==◌, Option, any, Action, List, Bool, String, ℕ}
use d_reader_backend.Nonce.{Nonces}
use d_reader_backend.Mint.Items.{Rarity}
use d_reader_backend.Mint.Model.{TransactionStatus}

pub data ChainError : Type 0 where
  chain_error : ChainError  -- a call of the chain or of the network throws
  unsupported_trait : ChainError
  invalid_data : ChainError  -- a value that the database needs is not given
  type_error : ChainError  -- a field of `null` is read
  record_not_found : ChainError  -- a `connect` or an `update` finds no row
  unique_violation : ChainError  -- a row with the same unique key exists
  unverified : ChainError

pub record Wallet : Type 0 where
  pub address : String
  pub user_id : Option ℕ

-- `DigitalAsset`
pub record Asset : Type 0 where
  pub address : String
  pub owner_address : String
  pub owner_changed_at : ℕ

-- `CollectibleComic`
pub record Comic : Type 0 where
  pub address : String
  pub name : String
  pub uri : String
  pub machine : String
  pub receipt_id : Option ℕ

-- what the traits of a comic say
pub record Traits : Type 0 where
  pub is_used : Bool
  pub is_signed : Bool
  pub rarity : Rarity

-- `CollectibleComicMetadata`
pub record Metadata : Type 0 where
  pub uri : String
  pub collection_name : String
  pub collection_address : String
  pub traits : Traits

-- `CollectibleComicCollection`
pub record Collection : Type 0 where
  pub address : String
  pub comic_issue_id : ℕ

-- `StatefulCover`
pub record Cover : Type 0 where
  pub comic_issue_id : ℕ
  pub traits : Traits
  pub image : String

-- `CandyMachine`
pub record Machine : Type 0 where
  pub address : String
  pub items_minted : ℕ
  pub items_remaining : ℕ

-- `CandyMachineReceipt`
pub record Receipt : Type 0 where
  pub id : ℕ
  pub signature : String
  pub status : TransactionStatus
  pub timestamp : ℕ
  pub user_id : Option ℕ

-- the tables, and the addresses that the webhook is subscribed to
pub record Index : Type 0 where
  pub wallets : List Wallet
  pub assets : List Asset
  pub comics : List Comic
  pub metadatas : List Metadata
  pub collections : List Collection
  pub covers : List Cover
  pub machines : List Machine
  pub receipts : List Receipt
  pub nonces : Nonces
  pub subscriptions : List String

abbrev pub M : Type 0 → Type 0
M = Action Index ChainError

abbrev pub has_comic : String → Index → Bool
has_comic a s = any (λ x. x.address == a) s.comics

abbrev pub has_asset : String → Index → Bool
has_asset a s = any (λ x. x.address == a) s.assets

abbrev pub has_metadata : String → Index → Bool
has_metadata uri s = any (λ x. x.uri == uri) s.metadatas

abbrev pub has_collection : String → Index → Bool
has_collection a s = any (λ x. x.address == a) s.collections

abbrev pub has_wallet : String → Index → Bool
has_wallet a s = any (λ x. x.address == a) s.wallets
