-- ===== src/Chain/Linked/All.antt =====
-- What refers to what among the rows of collectible comics, whatever
-- src/webhooks/helius/helius.service.ts handles.
use d_reader_backend.Nonce.{DurableNonce}
use d_reader_backend.Chain.Metadata.{Json, find_traits}
use d_reader_backend.Chain.Indexing.{in_transaction, metadata_of, DasAsset, Reply}
use d_reader_backend.Base.{
  ◌&&◌, nat_eq, not, Keeps-or_throw, Keeps-check, find_first, string_eq, ◌==◌, none, [], Result,
  Keeps-bind, err, some, if_both, Keeps-lift, ◌∷◌, ok, List, String, Option, ℕ,
}
use d_reader_backend.Chain.Model.{
  unverified, has_collection, has_comic, type_error, Index, M, ChainError,
}
use d_reader_backend.Chain.Linked.{has_collection, has_comic, Linked}
use d_reader_backend.Chain.Linked.Kept.{
  upsert_asset-Linked, create_indexed-Linked, in_transaction-Linked, set_owner-Linked,
  update_metadata-Linked, subscribe_to-Linked, KeepsLinked,
}
use d_reader_backend.Chain.Handlers.{
  upsert_asset, create_indexed, renew_found, change_if_given, GroupedAsset, change_state,
  LegacyMetadata, index_asset, handle_legacy_state, handle_legacy_transfer, handle_core_state,
  re_index_asset, renew_nonce, Mint, handle_core_mint,
}
use d_reader_backend.Chain.Linked.Minted.{handle_core_mint-Linked}

change_state-Linked :
    (mint uri : String) (json : Reply Json) (authority : Reply String)
    → KeepsLinked (change_state mint uri json authority)
change_state-Linked mint uri json authority = Keeps-lift Linked json _ (λ j _.
    Keeps-lift Linked authority _ (λ collection _. Keeps-lift Linked (find_traits j) _ (λ traits _.
      update_metadata-Linked mint (metadata_of j.collection_name uri traits collection))))

change_if_given-Linked :
    (uri : Option String) (mint : String) (json : Reply Json) (authority : Reply String)
    → KeepsLinked (change_if_given uri mint json authority)
change_if_given-Linked none mint json authority s h = h
change_if_given-Linked (some uri) mint json authority s h =
    if_both (λ (r : Result ChainError (Unit {0}) × Index). Linked r.1) (uri == "") _ _ h
      (change_state-Linked mint uri json authority s h)

renew_nonce-Linked :
    (blockhash : Reply String) (value : String) (now : ℕ)
    → KeepsLinked (renew_nonce blockhash value now)
renew_nonce-Linked (err e) value now s h = h
renew_nonce-Linked (ok b) value now s h = of_found (find_first (λ n. n.nonce == b) s.nonces)
  where
    of_found : (n : Option DurableNonce) → Linked (renew_found n value now s).1
    of_found none = h
    of_found (some n) = h

handle_core_state-Linked :
    (blockhash : Reply String) (value : String) (uri : Option String) (mint : String)
    (json : Reply Json) (authority : Reply String) (now : ℕ)
    → KeepsLinked (handle_core_state blockhash value uri mint json authority now)
unfolding handle_core_state
handle_core_state-Linked blockhash value uri mint json authority now =
    Keeps-bind Linked (renew_nonce blockhash value now) _ (renew_nonce-Linked blockhash value now)
      (λ _ s h. change_if_given-Linked uri mint json authority s h)

handle_legacy_state-Linked :
    (account : Reply LegacyMetadata) (json : Reply Json)
    → KeepsLinked (handle_legacy_state account json)
unfolding handle_legacy_state
handle_legacy_state-Linked account json = Keeps-lift Linked account _ (λ x _.
    Keeps-check Linked (λ s. not (x.verified && has_collection x.collection s)) unverified
      (change_state x.mint x.uri json (ok x.collection))
      (λ s _ h. change_state-Linked x.mint x.uri json (ok x.collection) s h))

handle_legacy_transfer-Linked :
    (address owner : String) (is_confirmed : Reply (Unit {0})) (now : ℕ)
    → KeepsLinked (handle_legacy_transfer address owner is_confirmed now)
unfolding handle_legacy_transfer
handle_legacy_transfer-Linked address owner (err e) now s h = h
handle_legacy_transfer-Linked address owner (ok u) now s h =
    if_both (λ (r : Result ChainError (Unit {0}) × Index). Linked r.1) (has_comic address s) _ _
      (set_owner-Linked address owner now s h) h

re_index_asset-Linked :
    (x : GroupedAsset) (json : Reply Json) (machine : String) (subscribed : Reply (Unit {0}))
    (now : ℕ)
    → KeepsLinked (re_index_asset x json machine subscribed now)
unfolding re_index_asset
re_index_asset-Linked x json machine subscribed now =
    Keeps-or_throw Linked x.collection type_error _ (λ collection. Keeps-lift Linked json _ (λ j _.
      Keeps-lift Linked (find_traits j) _ (λ traits _.
        let m = metadata_of j.collection_name x.asset.uri traits collection in
        Keeps-bind Linked (in_transaction (upsert_asset x.address x.asset m machine now)) _
          (in_transaction-Linked (upsert_asset x.address x.asset m machine now)
            (upsert_asset-Linked x.address x.asset m machine now))
          (λ _. subscribe_to-Linked subscribed x.address))))

index_asset-Linked :
    (address : String) (asset : DasAsset) (collection : String) (json : Json) (machine : String)
    (subscribed : Reply (Unit {0})) (now : ℕ)
    → KeepsLinked (index_asset address asset collection json machine subscribed now)
unfolding index_asset
index_asset-Linked address asset collection json machine subscribed now =
    Keeps-lift Linked (find_traits json) _ (λ traits _.
      let m = metadata_of json.collection_name asset.uri traits collection in
      Keeps-bind Linked (in_transaction (create_indexed address asset m machine now)) _
        (in_transaction-Linked (create_indexed address asset m machine now)
          (create_indexed-Linked address asset m machine now))
        (λ _. subscribe_to-Linked subscribed address))

-- one event, with what the chain and the network give
pub data Event : Type 0 where
  minted : (x : Mint) (now : ℕ) → Event
  state_changed :
      (blockhash : Reply String) (value : String) (uri : Option String) (mint : String)
      (json : Reply Json) (authority : Reply String) (now : ℕ)
      → Event
  legacy_state_changed : (account : Reply LegacyMetadata) (json : Reply Json) → Event
  legacy_transferred : (address owner : String) (is_confirmed : Reply (Unit {0})) (now : ℕ) → Event
  indexed_again :
      (x : GroupedAsset) (json : Reply Json) (machine : String) (subscribed : Reply (Unit {0}))
      (now : ℕ)
      → Event
  indexed :
      (address : String) (asset : DasAsset) (collection : String) (json : Json) (machine : String)
      (subscribed : Reply (Unit {0})) (now : ℕ)
      → Event

abbrev pub handle : Event → M (Unit {0})
handle (minted x now) = handle_core_mint x now
handle (state_changed blockhash value uri mint json authority now) =
    handle_core_state blockhash value uri mint json authority now
handle (legacy_state_changed account json) = handle_legacy_state account json
handle (legacy_transferred address owner is_confirmed now) =
    handle_legacy_transfer address owner is_confirmed now
handle (indexed_again x json machine subscribed now) = re_index_asset x json machine subscribed now
handle (indexed address asset collection json machine subscribed now) =
    index_asset address asset collection json machine subscribed now

-- the events in their order, each whatever became of those before
abbrev pub handle_all : List Event → Index → Index
handle_all [] s = s
handle_all (e ∷ es) s = handle_all es (handle e s).1

handle-Linked : (e : Event) → KeepsLinked (handle e)
handle-Linked (minted x now) = handle_core_mint-Linked x now
handle-Linked (state_changed blockhash value uri mint json authority now) =
    handle_core_state-Linked blockhash value uri mint json authority now
handle-Linked (legacy_state_changed account json) = handle_legacy_state-Linked account json
handle-Linked (legacy_transferred address owner is_confirmed now) =
    handle_legacy_transfer-Linked address owner is_confirmed now
handle-Linked (indexed_again x json machine subscribed now) =
    re_index_asset-Linked x json machine subscribed now
handle-Linked (indexed address asset collection json machine subscribed now) =
    index_asset-Linked address asset collection json machine subscribed now

-- Whatever events of collectible comics are handled, in whatever order, with whatever answers of the
-- chain and with whatever result: an asset, a comic and a metadata row are there once, a comic is an asset
-- and has metadata, metadata are of a collection that exists, and an owner has a wallet, if that is so at
-- the start.
pub Linked-handle_all : (events : List Event) (s : Index) → Linked s → Linked (handle_all events s)
Linked-handle_all [] s h = h
Linked-handle_all (e ∷ es) s h = Linked-handle_all es (handle e s).1 (handle-Linked e s h)
