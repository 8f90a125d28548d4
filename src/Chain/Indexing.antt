-- ===== src/Chain/Indexing.antt =====
-- `indexCoreAssets`, `reIndexAsset`, `indexAsset` and the subscriptions of
-- src/webhooks/helius/helius.service.ts.
use d_reader_backend.Base.{
  nat_eq, ◌&&◌, find_many, some, gets, none, string_eq, ◌++◌, not, ◌∷◌, throw, ◌>>=◌, throw_if,
  ◌==◌, [], modify, find_first, ◌>>◌, ok, any, err, pure, lift, update_where, or_throw,
  if◌then◌else◌, Option, List, String, Result, ℕ,
}
use d_reader_backend.Chain.Model.{
  record_not_found, has_comic, unique_violation, type_error, has_asset, has_wallet, Cover,
  ChainError, Index, M, Traits, Metadata, Comic,
}
use d_reader_backend.Chain.Metadata.{same_traits, Json, find_traits, connect_metadata}

-- the outcome of the calls of Helius, which may throw
abbrev pub Reply : Type 0 → Type 0
Reply A = Result ChainError A

-- `subscribeTo`: an exception is logged, and an address may be there already
unfoldable pub subscribe_to : Reply (Unit {0}) → String → M (Unit {0})
subscribe_to (err e) address s = (ok tt, s)
subscribe_to (ok u) address s =
    modify (λ s. record s { subscriptions = s.subscriptions ++ (address ∷ []) }) s

-- `removeSubscription`
unfoldable pub remove_subscription : Reply (Unit {0}) → String → M (Unit {0})
remove_subscription reply address =
    lift reply
    >> modify
        (λ s. record s { subscriptions = find_many (λ x. not (x == address)) s.subscriptions })

-- what `getAsset` gives for an account
pub record DasAsset : Type 0 where
  pub uri : String
  pub name : String
  pub owner_address : String

-- `owner: { connectOrCreate }`
abbrev pub with_wallet : String → Index → Index
with_wallet a s = record s {
  wallets =
      if has_wallet a s then s.wallets else record { address = a; user_id = none } ∷ s.wallets;
}

abbrev pub connect_wallet : String → M (Unit {0})
connect_wallet a = modify (with_wallet a)

abbrev pub with_asset : String → String → ℕ → Index → Index
with_asset address owner now s = record s {
  assets = record { address = address; owner_address = owner; owner_changed_at = now } ∷ s.assets;
}

abbrev pub roll_back : {A : Type 0} → Index → Reply A × Index → Reply A × Index
roll_back s (ok a, t) = (ok a, t)
roll_back s (err e, t) = (err e, s)

-- the writes of one nested call: all of them, or none
abbrev pub in_transaction : {A : Type 0} → M A → M A
in_transaction m s = roll_back s (m s)

abbrev pub set_comic : String → (Comic → Comic) → Index → Index
set_comic a f s = record s { comics = update_where (λ x. x.address == a) f s.comics }

-- a new asset with its wallet, as `digitalAsset: { create }`
unfoldable pub create_asset : String → String → ℕ → M (Unit {0})
create_asset address owner now s =
    if has_asset address s
    then throw unique_violation s
    else modify (λ s. with_asset address owner now (with_wallet owner s)) s

unfoldable pub create_comic : Comic → M (Unit {0})
create_comic c s =
    if any (λ m. m.address == c.machine) s.machines
    then (if has_comic c.address s
        then throw unique_violation s
        else modify (λ s. record s { comics = c ∷ s.comics }) s)
    else throw record_not_found s

abbrev pub metadata_of : String → String → Traits → String → Metadata
metadata_of name uri traits collection = record {
  uri = uri;
  collection_name = name;
  collection_address = collection;
  traits = traits;
}

-- the comic of a mint: the owner of an asset that is there stays
abbrev pub write_comic : String → String → DasAsset → String → ℕ → ℕ → M (Unit {0})
write_comic uri address asset machine receipt now s =
    if has_comic address s
    then modify (set_comic address (λ c. record c { uri = uri; receipt_id = some receipt })) s
    else (create_asset address asset.owner_address now
          >> create_comic (record {
            address = address;
            name = asset.name;
            uri = uri;
            machine = machine;
            receipt_id = some receipt;
          }))
        s

-- `collectibleComic.upsert` of `indexCoreAssets`
unfoldable pub upsert_comic : Metadata → String → DasAsset → String → ℕ → ℕ → M (Unit {0})
unfolding connect_metadata create_asset create_comic
upsert_comic m address asset machine receipt now = in_transaction (
    (λ s. throw_if (not (any (λ r. r.id == receipt) s.receipts)) record_not_found s)
    >> (connect_metadata m >> write_comic m.uri address asset machine receipt now))

-- what the calls of the chain give for an account
pub record Account : Type 0 where
  pub address : String
  pub asset : Reply (Option DasAsset)
  pub json : Reply Json
  pub subscribed : Reply (Unit {0})

abbrev pub find_metadata : String → Index → Option Metadata
find_metadata uri s = find_first (λ m. m.uri == uri) s.metadatas

abbrev pub find_cover : ℕ → Traits → Index → Option Cover
find_cover issue t s =
    find_first (λ c. (c.comic_issue_id == issue) && same_traits c.traits t) s.covers

-- the cover that the notice of the mint shows
abbrev pub image_of : String → Traits → M String
image_of uri traits = (λ s. or_throw (find_metadata uri s) type_error s) >>= λ m.
    (λ s. or_throw (find_first (λ c. c.address == m.collection_address) s.collections) type_error s)
    >>= λ c. (λ s. or_throw (find_cover c.comic_issue_id traits s) type_error s) >>= λ cover.
        pure cover.image

abbrev pub owner_user : String → Index → Option ℕ
owner_user address s = elim (find_first (λ a. a.address == address) s.assets) [
  | none ↦ none
  | some a ↦ elim (find_first (λ w. w.address == a.owner_address) s.wallets) [
    | none ↦ none
    | some w ↦ w.user_id
  ]
]

-- a comic as `indexCoreAssets` returns it
pub record Indexed : Type 0 where
  pub address : String
  pub user_id : Option ℕ
  pub image : String

-- one round of `indexCoreAssets`, of an asset that the chain has
unfoldable pub index_core_asset : Account → DasAsset → String → String → ℕ → ℕ → M Indexed
unfolding upsert_comic find_traits subscribe_to
index_core_asset account asset machine collection receipt now = lift account.json >>= λ json.
    lift (find_traits json) >>= λ traits.
    upsert_comic (metadata_of json.name asset.uri traits collection) account.address asset machine
      receipt now
    >> gets (owner_user account.address)
    >>= λ user. image_of asset.uri traits >>= λ image.
        subscribe_to account.subscribed account.address
        >> pure (record { address = account.address; user_id = user; image = image })

abbrev pub index_found : Option DasAsset → Account → String → String → ℕ → ℕ → M (List Indexed)
index_found none a machine collection receipt now = pure []
index_found (some asset) a machine collection receipt now =
    index_core_asset a asset machine collection receipt now >>= λ x. pure (x ∷ [])

-- `indexCoreAssets`: an account with no asset is passed over
unfoldable pub index_core_assets : List Account → String → String → ℕ → ℕ → M (List Indexed)
unfolding index_core_asset
index_core_assets [] machine collection receipt now = pure []
index_core_assets (a ∷ rest) machine collection receipt now = lift a.asset >>= λ found.
    index_found found a machine collection receipt now >>= λ here.
    index_core_assets rest machine collection receipt now >>= λ others. pure (here ++ others)
