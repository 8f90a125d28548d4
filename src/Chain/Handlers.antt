-- ===== src/Chain/Handlers.antt =====
-- The events of collectible comics in src/webhooks/helius/helius.service.ts.
use d_reader_backend.Base.{
  ◌&&◌, [], nat_eq, not, update_where, string_eq, ◌∷◌, or_throw, zero, suc, ◌==◌, modify, throw_if,
  none, any, ◌*◌, if◌then◌else◌, err, ◌>>=◌, throw, some, Bool, ◌>>◌, pure, find_first, ok, lift,
  List, String, ◌-◌, Option, ℕ,
}
use d_reader_backend.Nonce.{update_nonce, DurableNonce}
use d_reader_backend.Mint.Model.{confirmed}
use d_reader_backend.Chain.Model.{
  unverified, has_collection, has_asset, record_not_found, type_error, has_comic, Index, M,
  Metadata, Receipt, Machine,
}
use d_reader_backend.Chain.Metadata.{Json, find_traits, connect_metadata}
use d_reader_backend.Chain.Indexing.{
  in_transaction, set_comic, metadata_of, subscribe_to, connect_wallet, DasAsset, create_comic,
  create_asset, remove_subscription, Reply, Account, Indexed, index_core_assets,
}

-- an exception is logged, and what was written before stays
abbrev pub log_error : {A : Type 0} → M A → M (Unit {0})
log_error m s = (ok tt, (m s).1)

-- the indexing of a mint, up to the user of the first comic; an exception is logged
abbrev pub user_of : List Indexed → Reply (Option ℕ)
user_of [] = err type_error
user_of (x ∷ xs) = ok x.user_id

abbrev pub index_minted : Option Receipt → List Account → String → String → ℕ → M (Option ℕ)
index_minted none accounts machine collection now = throw type_error
index_minted (some r) accounts machine collection now =
    index_core_assets accounts machine collection r.id now >>= λ xs. lift (user_of xs)

abbrev pub caught : Reply (Option ℕ) × Index → Reply (Option ℕ) × Index
caught (ok u, s) = (ok u, s)
caught (err e, s) = (ok none, s)

abbrev pub or_none : M (Option ℕ) → M (Option ℕ)
or_none m s = caught (m s)

-- `if (userId)`
abbrev pub set_user : Option ℕ → Option ℕ → Option ℕ
set_user old none = old
set_user old (some zero) = old
set_user old (some (suc n)) = some (suc n)

abbrev pub confirm : Option ℕ → ℕ → Receipt → Receipt
confirm user seconds r = record r {
  timestamp = seconds * 1000;
  status = confirmed;
  user_id = set_user r.user_id user;
}

-- the items of the candy machine on chain
pub record MachineItems : Type 0 where
  pub available : ℕ
  pub redeemed : ℕ

abbrev pub count_items : MachineItems → Machine → Machine
count_items items m = record m {
  items_remaining = items.available - items.redeemed;
  items_minted = items.redeemed;
}

abbrev pub update_machine : String → MachineItems → M (Unit {0})
update_machine address items s =
    if any (λ m. m.address == address) s.machines
    then modify
        (λ s. record s {
          machines = update_where (λ m. m.address == address) (count_items items) s.machines;
        })
        s
    else throw record_not_found s

abbrev pub confirm_receipt : Option Receipt → Option ℕ → ℕ → M (Unit {0})
confirm_receipt none user seconds = throw type_error
confirm_receipt (some r) user seconds = modify (λ s. record s {
  receipts = update_where (λ x. x.id == r.id) (confirm user seconds) s.receipts;
})

-- nobody waits for the end of the subscription
abbrev pub count_minted : String → Reply (Unit {0}) → MachineItems → M (Unit {0})
count_minted machine removed items = update_machine machine items >> λ s.
    if items.available - items.redeemed == 0
    then log_error (remove_subscription removed machine) s
    else pure tt s

-- the second `try` of the mint
abbrev pub settle_mint :
    Option Receipt → Option ℕ → ℕ → String → Reply MachineItems → Reply (Unit {0}) → M (Unit {0})
settle_mint r user seconds machine fetched removed =
    confirm_receipt r user seconds >> lift fetched >>= count_minted machine removed

-- what a mint says, with the outcome of the calls of the chain
pub record Mint : Type 0 where
  pub signature : String
  pub machine : String
  pub collection : String
  pub seconds : ℕ
  pub accounts : List Account
  pub items : Reply MachineItems
  pub removed : Reply (Unit {0})

-- `handleCoreCollectibleComicMintEvent`, of the receipt that it finds
unfoldable pub mint_of : Option Receipt → Mint → ℕ → M (Unit {0})
unfolding index_core_assets remove_subscription
mint_of r x now = or_none (index_minted r x.accounts x.machine x.collection now) >>= λ user.
    log_error (settle_mint r user x.seconds x.machine x.items x.removed)

abbrev pub find_receipt : String → Index → Option Receipt
find_receipt signature s = find_first (λ r. r.signature == signature) s.receipts

unfoldable pub handle_core_mint : Mint → ℕ → M (Unit {0})
unfolding mint_of
handle_core_mint x now s = mint_of (find_receipt x.signature s) x now s

-- the nonce of the transaction is renewed, with the value that its account has; an exception is
-- logged
abbrev pub renew_found : Option DurableNonce → String → ℕ → M (Unit {0})
renew_found none value now s = (ok tt, s)
renew_found (some n) value now s =
    (ok tt, record s { nonces = (update_nonce n.address value now s.nonces).1 })

abbrev pub renew_nonce : Reply String → String → ℕ → M (Unit {0})
renew_nonce (err e) value now s = (ok tt, s)
renew_nonce (ok blockhash) value now s =
    renew_found (find_first (λ n. n.nonce == blockhash) s.nonces) value now s

-- the new metadata of a comic, as one update
unfoldable pub update_metadata : String → Metadata → M (Unit {0})
unfolding connect_metadata
update_metadata mint m s =
    if has_comic mint s
    then (connect_metadata m >> modify (set_comic mint (λ c. record c { uri = m.uri }))) s
    else throw record_not_found s

abbrev pub change_state : String → String → Reply Json → Reply String → M (Unit {0})
change_state mint uri json authority = lift json >>= λ j. lift authority >>= λ collection.
    lift (find_traits j) >>= λ traits.
    update_metadata mint (metadata_of j.collection_name uri traits collection)

abbrev pub change_if_given : Option String → String → Reply Json → Reply String → M (Unit {0})
change_if_given none mint json authority s = pure tt s
change_if_given (some uri) mint json authority s =
    if uri == "" then pure tt s else change_state mint uri json authority s

-- `handleChangeCoreCollectibleComicState`
unfoldable pub handle_core_state :
    Reply String → String → Option String → String → Reply Json → Reply String → ℕ → M (Unit {0})
unfolding find_traits update_metadata update_nonce
handle_core_state blockhash value uri mint json authority now =
    renew_nonce blockhash value now >> log_error (change_if_given uri mint json authority)

-- the metadata that the chain has of a legacy asset
pub record LegacyMetadata : Type 0 where
  pub uri : String
  pub mint : String
  pub collection : String
  pub verified : Bool

-- `handleChangeLegacyCollectibleComicState`, of an instruction that changes a state, with
-- `verifyMetadataAccount`
unfoldable pub handle_legacy_state : Reply LegacyMetadata → Reply Json → M (Unit {0})
unfolding find_traits update_metadata
handle_legacy_state account json = log_error (
    lift account >>= λ x.
    (λ s. throw_if (not (x.verified && has_collection x.collection s)) unverified s)
    >> change_state x.mint x.uri json (ok x.collection))

abbrev pub set_owner : String → String → ℕ → M (Unit {0})
set_owner address owner now =
    connect_wallet owner
    >> modify (λ s. record s {
      assets =
          update_where (λ a. a.address == address)
            (λ a. record a { owner_address = owner; owner_changed_at = now }) s.assets;
    })

-- `handleLegacyCollectibleComicTransfer`
unfoldable pub handle_legacy_transfer : String → String → Reply (Unit {0}) → ℕ → M (Unit {0})
handle_legacy_transfer address owner is_confirmed now = log_error (
    lift is_confirmed >> λ s.
    if has_comic address s then set_owner address owner now s else throw record_not_found s)

-- what Helius gives of an asset that is indexed again; its collection is found in the grouping
pub record GroupedAsset : Type 0 where
  pub address : String
  pub asset : DasAsset
  pub collection : Option String

-- the digital asset of `indexAsset` and of a new one of `reIndexAsset`
abbrev pub create_indexed : String → DasAsset → Metadata → String → ℕ → M (Unit {0})
create_indexed address asset m machine now =
    connect_metadata m
    >> (create_asset address asset.owner_address now
        >> create_comic (record {
          address = address;
          name = asset.name;
          uri = m.uri;
          machine = machine;
          receipt_id = none;
        }))

-- `digitalAsset.upsert` of `reIndexAsset`
abbrev pub upsert_asset : String → DasAsset → Metadata → String → ℕ → M (Unit {0})
upsert_asset address asset m machine now s =
    if has_asset address s
    then (set_owner address asset.owner_address now >> update_metadata address m) s
    else create_indexed address asset m machine now s

-- `reIndexAsset`: the calls of the chain that hand the asset over are caught
unfoldable pub re_index_asset :
    GroupedAsset → Reply Json → String → Reply (Unit {0}) → ℕ → M (Unit {0})
unfolding find_traits update_metadata connect_metadata create_asset create_comic subscribe_to
re_index_asset x json machine subscribed now = or_throw x.collection type_error >>= λ collection.
    lift json >>= λ j. lift (find_traits j) >>= λ traits.
    in_transaction (
      upsert_asset x.address x.asset (metadata_of j.collection_name x.asset.uri traits collection)
        machine now)
    >> subscribe_to subscribed x.address

-- `indexAsset`: an asset that is there is refused
unfoldable pub index_asset :
    String → DasAsset → String → Json → String → Reply (Unit {0}) → ℕ → M (Unit {0})
unfolding find_traits connect_metadata create_asset create_comic subscribe_to
index_asset address asset collection json machine subscribed now =
    lift (find_traits json) >>= λ traits.
    in_transaction (
      create_indexed address asset (metadata_of json.collection_name asset.uri traits collection)
        machine now)
    >> subscribe_to subscribed address
