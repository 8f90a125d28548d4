-- ===== src/Chain/Metadata.antt =====
-- The traits of the metadata off chain (src/utils/nft-metadata.ts), and the row of them.
use d_reader_backend.Base.{
  modify, throw, any, pure, [], ◌∷◌, none, false, ok, true, some, string_eq, nat_eq, ◌&&◌, ◌==◌,
  List, Option, err, not, if◌then◌else◌, Bool, String, Result, ℕ,
}
use d_reader_backend.Mint.Items.{legendary, epic, rare, uncommon, common, no_rarity, Rarity}
use d_reader_backend.Chain.Model.{
  record_not_found, has_collection, unique_violation, has_metadata, invalid_data, unsupported_trait,
  ChainError, M, Traits, Metadata,
}

-- `JsonMetadata`, with the attributes as pairs of the type and the value of a trait
pub record Json : Type 0 where
  pub name : String
  pub collection_name : String
  pub attributes : List (String × String)

-- `findTrait`
unfoldable pub find_trait : String → List (String × String) → Result ChainError String
find_trait trait [] = err unsupported_trait
find_trait trait (a ∷ rest_attributes) =
    let rest = find_trait trait rest_attributes in if a.0 == trait then ok a.1 else rest

-- `ComicRarity[value]`, which is undefined for another value
abbrev rarity_of : String → Option Rarity
rarity_of v =
    if v == "None"
    then some no_rarity
    else if v == "Common"
    then some common
    else if v == "Uncommon"
    then some uncommon
    else if v == "Rare"
    then some rare
    else if v == "Epic"
    then some epic
    else if v == "Legendary"
    then some legendary
    else none

abbrev with_traits : String → String → Rarity → Traits
with_traits used signed rarity = record {
  is_used = used == "true";
  is_signed = signed == "true";
  rarity = rarity;
}

abbrev with_rarity : String → String → Option Rarity → Result ChainError Traits
with_rarity used signed none = err invalid_data
with_rarity used signed (some r) = ok (with_traits used signed r)

abbrev collect :
    Result ChainError String
    → Result ChainError String
    → Result ChainError String
    → Result ChainError Traits
collect (err e) s r = err e
collect (ok u) (err e) r = err e
collect (ok u) (ok s) (err e) = err e
collect (ok u) (ok s) (ok r) = with_rarity u s (rarity_of r)

-- `findUsedTrait`, `findSignedTrait` and `findRarityTrait`; the database refuses metadata without a
-- rarity
unfoldable pub find_traits : Json → Result ChainError Traits
unfolding find_trait
find_traits j =
    collect (find_trait "used" j.attributes) (find_trait "signed" j.attributes)
      (find_trait "rarity" j.attributes)

abbrev rarity_number : Rarity → ℕ
rarity_number no_rarity = 0
rarity_number common = 1
rarity_number uncommon = 2
rarity_number rare = 3
rarity_number epic = 4
rarity_number legendary = 5

abbrev same_bool : Bool → Bool → Bool
same_bool true b = b
same_bool false b = not b

abbrev pub same_traits : Traits → Traits → Bool
same_traits t u =
    same_bool t.is_used u.is_used
    && same_bool t.is_signed u.is_signed
    && (rarity_number t.rarity == rarity_number u.rarity)

-- the unique key besides the address
abbrev pub same_key : Metadata → Metadata → Bool
same_key m n = (m.collection_address == n.collection_address) && same_traits m.traits n.traits

-- `connectOrCreate` of the metadata of an address: the traits are unique in a collection
unfoldable pub connect_metadata : Metadata → M (Unit {0})
connect_metadata m s =
    if has_metadata m.uri s
    then pure tt s
    else if any (same_key m) s.metadatas
    then throw unique_violation s
    else if not (has_collection m.collection_address s)
    then throw record_not_found s
    else modify (λ s. record s { metadatas = m ∷ s.metadatas }) s
