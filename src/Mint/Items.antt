-- ===== src/Mint/Items.antt =====
-- The items that are loaded into a candy machine: `batchInsertCoreItems` and `insertCoreItems` of
-- src/utils/candy-machine.ts, with the shares of rarities of src/constants.ts. The address of the
-- machine and the sending of the transactions are left out; a transaction is the index and the
-- items that it inserts.
pub mod Placement
use d_reader_backend.Base.{
  ℕ, zero, suc, ◌+◌, ◌-◌, ◌*◌, ◌/◌, String, Bool, true, false, not, ◌&&◌, Option, none, some, List,
  [], ◌∷◌, ◌++◌, ◌==◌, nat_eq, length, find_many, find_first, min, if◌then◌else◌,
}

pub data Rarity : Type 0 where
  no_rarity common uncommon rare epic legendary : Rarity

pub record RarityShare : Type 0 where
  pub rarity : Rarity
  pub value : ℕ

abbrev share : Rarity → ℕ → RarityShare
share rarity value = record { rarity = rarity; value = value }

abbrev pub one_rarity_share : List RarityShare
one_rarity_share = share common 100 ∷ []

abbrev pub three_rarities_share : List RarityShare
three_rarities_share = share common 70 ∷ share rare 25 ∷ share legendary 5 ∷ []

abbrev pub five_rarities_share : List RarityShare
five_rarities_share =
    share common 60 ∷ share uncommon 25 ∷ share rare 10 ∷ share epic 3 ∷ share legendary 2 ∷ []

-- `none` is the exception for any other number
unfoldable pub get_rarity_share_table : ℕ → Option (List RarityShare)
get_rarity_share_table n =
    if n == 3
    then some three_rarities_share
    else if n == 5
    then some five_rarities_share
    else if n == 1
    then some one_rarity_share
    else none

-- `ItemMetadata`
pub record ItemMetadata : Type 0 where
  pub uri : String
  pub is_used : Bool
  pub is_signed : Bool
  pub rarity : Rarity

-- `rarityConfigs`, without the rarity
pub record Config : Type 0 where
  pub supply : ℕ
  pub uri : String

abbrev pub rarity_number : Rarity → ℕ
rarity_number no_rarity = 0
rarity_number common = 1
rarity_number uncommon = 2
rarity_number rare = 3
rarity_number epic = 4
rarity_number legendary = 5

abbrev pub of_rarity : Rarity → ItemMetadata → Bool
of_rarity rarity item = rarity_number item.rarity == rarity_number rarity

abbrev cons_config : Option ItemMetadata → ℕ → Option (List Config) → Option (List Config)
cons_config none supply rest = none
cons_config (some item) supply none = none
cons_config (some item) supply (some rest) =
    some (record { supply = supply; uri = item.uri } ∷ rest)

-- The last share takes what is left. `none` is the exception where a rarity has no metadata.
unfoldable pub rarity_configs : List ItemMetadata → ℕ → ℕ → List RarityShare → Option (List Config)
rarity_configs metadatas total left [] = some []
rarity_configs metadatas total left (x ∷ []) =
    cons_config (find_first (of_rarity x.rarity) metadatas) left (some [])
rarity_configs metadatas total left (x ∷ y ∷ shares) =
    let supply = total * x.value / 100 in
    cons_config (find_first (of_rarity x.rarity) metadatas) supply
      (rarity_configs metadatas total (left - supply) (y ∷ shares))

-- an item is named by its number
pub record Item : Type 0 where
  pub uri : String
  pub number : ℕ

pub record InsertItems : Type 0 where
  pub index : ℕ
  pub items : List Item

-- `itemsInserted`, with `nameIndex` counted up before each name
unfoldable pub numbered_items : String → ℕ → ℕ → List Item
numbered_items uri name_index zero = []
numbered_items uri name_index (suc n) =
    record { uri = uri; number = suc name_index } ∷ numbered_items uri (suc name_index) n

-- the loop over the chunks, with `transitionIndex`
unfoldable pub insert_chunks : ℕ → List (List Item) → List InsertItems
insert_chunks transition_index [] = []
insert_chunks transition_index (items ∷ chunks) =
    record { index = transition_index; items = items }
    ∷ insert_chunks (transition_index + length items) chunks

abbrev insert_chunk_size : ℕ
insert_chunk_size = 8

abbrev batch : ℕ
batch = 200

-- `unusedUnsignedMetadatas`
unfoldable pub unused_unsigned : List ItemMetadata → List ItemMetadata
unused_unsigned = find_many (λ item. not item.is_used && not item.is_signed)

-- `chunk` is umi's.
module _ (chunk : List Item → ℕ → List (List Item)) (current_supply : ℕ) where
  unfoldable pub insert_core_items : ℕ → String → ℕ → List InsertItems
  unfolding numbered_items insert_chunks
  insert_core_items index uri supply =
      insert_chunks index
        (chunk (numbered_items uri (current_supply + index) supply) insert_chunk_size)

  -- `while (config.supply)`; the fuel is the supply at the start
  unfoldable pub insert_batches : ℕ → ℕ → String → ℕ → List InsertItems
  unfolding insert_core_items
  insert_batches zero index uri left = []
  insert_batches (suc fuel) index uri zero = []
  insert_batches (suc fuel) index uri (suc left) =
      let supply = min batch (suc left) in
      insert_core_items index uri supply
      ++ insert_batches fuel (index + supply) uri (suc left - supply)

  unfoldable pub insert_configs : ℕ → List Config → List InsertItems
  unfolding insert_batches
  insert_configs index [] = []
  insert_configs index (c ∷ configs) =
      insert_batches c.supply index c.uri c.supply ++ insert_configs (index + c.supply) configs

  abbrev insert_some : Option (List Config) → Option (List InsertItems)
  insert_some none = none
  insert_some (some configs) = some (insert_configs 0 configs)

  abbrev insert_shares :
      List ItemMetadata → ℕ → Option (List RarityShare) → Option (List InsertItems)
  insert_shares metadatas supply none = none
  insert_shares metadatas supply (some shares) =
      insert_some (rarity_configs metadatas supply supply shares)

  unfoldable pub batch_insert_core_items : List ItemMetadata → ℕ → Option (List InsertItems)
  unfolding insert_configs
  batch_insert_core_items item_metadatas supply =
      insert_shares (unused_unsigned item_metadatas) supply
        (get_rarity_share_table (length (unused_unsigned item_metadatas)))
