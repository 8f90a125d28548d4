-- ===== src/Chain/Linked/Minted.antt =====
-- What refers to what among the rows of collectible comics after a mint that
-- src/webhooks/helius/helius.service.ts handles.
use d_reader_backend.Chain.Metadata.{find_traits}
use d_reader_backend.Chain.Indexing.{
  subscribe_to, find_cover, owner_user, metadata_of, find_metadata, upsert_comic, index_found,
  image_of, DasAsset, Account, Reply, index_core_asset, index_core_assets, remove_subscription,
}
use d_reader_backend.Base.{
  nat_eq, pure, ◌-◌, lift, find_first, string_eq, Keeps-find, gets, ◌>>◌, ◌==◌, any, none, or_throw,
  [], Result, Keeps-bind, err, some, if_both, Keeps-lift, ◌∷◌, ok, List, String, Option, ℕ,
}
use d_reader_backend.Chain.Model.{type_error, Traits, Receipt, Index, M, ChainError}
use d_reader_backend.Chain.Linked.{Linked}
use d_reader_backend.Chain.Linked.Kept.{subscribe_to-Linked, upsert_comic-Linked, KeepsLinked}
use d_reader_backend.Chain.Handlers.{
  log_error, count_minted, find_receipt, caught, settle_mint, update_machine, confirm_receipt,
  index_minted, MachineItems, or_none, Mint, handle_core_mint,
}

image_of-Linked : (uri : String) (traits : Traits) → KeepsLinked (image_of uri traits)
image_of-Linked uri traits =
    Keeps-bind Linked (λ s. or_throw (find_metadata uri s) type_error s) _
      (Keeps-find Linked (find_metadata uri) type_error)
      (λ m.
        Keeps-bind Linked
          (λ s.
            or_throw (find_first (λ c. c.address == m.collection_address) s.collections) type_error
              s)
          _
          (Keeps-find Linked
            (λ s. find_first (λ c. c.address == m.collection_address) s.collections) type_error)
          (λ c.
            Keeps-bind Linked (λ s. or_throw (find_cover c.comic_issue_id traits s) type_error s) _
              (Keeps-find Linked (find_cover c.comic_issue_id traits) type_error) (λ k s h. h)))

index_core_asset-Linked :
    (account : Account) (asset : DasAsset) (machine collection : String) (receipt now : ℕ)
    → KeepsLinked (index_core_asset account asset machine collection receipt now)
unfolding index_core_asset
index_core_asset-Linked account asset machine collection receipt now =
    Keeps-lift Linked account.json _ (λ json _. Keeps-lift Linked (find_traits json) _ (λ traits _.
      let upsert : M (Unit {0}) =
        upsert_comic (metadata_of json.name asset.uri traits collection) account.address asset
          machine receipt now in
      let user : M (Option ℕ) = upsert >> gets (owner_user account.address) in
      Keeps-bind Linked user _
        (Keeps-bind Linked upsert (λ _. gets (owner_user account.address))
          (upsert_comic-Linked (metadata_of json.name asset.uri traits collection) account.address
            asset machine receipt now)
          (λ _ s h. h))
        (λ u.
          Keeps-bind Linked (image_of asset.uri traits) _ (image_of-Linked asset.uri traits)
            (λ image.
              Keeps-bind Linked (subscribe_to account.subscribed account.address) _
                (subscribe_to-Linked account.subscribed account.address) (λ _ s h. h)))))

index_found-Linked :
    (o : Option DasAsset) (a : Account) (machine collection : String) (receipt now : ℕ)
    → KeepsLinked (index_found o a machine collection receipt now)
index_found-Linked none a machine collection receipt now = λ s h. h
index_found-Linked (some asset) a machine collection receipt now =
    Keeps-bind Linked (index_core_asset a asset machine collection receipt now) _
      (index_core_asset-Linked a asset machine collection receipt now) (λ x s h. h)

index_core_assets-Linked :
    (xs : List Account) (machine collection : String) (receipt now : ℕ)
    → KeepsLinked (index_core_assets xs machine collection receipt now)
unfolding index_core_assets
index_core_assets-Linked [] machine collection receipt now = λ s h. h
index_core_assets-Linked (a ∷ rest) machine collection receipt now =
    Keeps-lift Linked a.asset _ (λ o _.
      Keeps-bind Linked (index_found o a machine collection receipt now) _
        (index_found-Linked o a machine collection receipt now)
        (λ here.
          Keeps-bind Linked (index_core_assets rest machine collection receipt now) _
            (index_core_assets-Linked rest machine collection receipt now) (λ others s h. h)))

index_minted-Linked :
    (r : Option Receipt) (xs : List Account) (machine collection : String) (now : ℕ)
    → KeepsLinked (index_minted r xs machine collection now)
index_minted-Linked none xs machine collection now = λ s h. h
index_minted-Linked (some r) xs machine collection now =
    Keeps-bind Linked (index_core_assets xs machine collection r.id now) _
      (index_core_assets-Linked xs machine collection r.id now) (λ ys s h. h)

or_none-Linked : (m : M (Option ℕ)) → KeepsLinked m → KeepsLinked (or_none m)
or_none-Linked m k s h = of_run (m s) (k s h)
  where
    of_run : (r : Reply (Option ℕ) × Index) → Linked r.1 → Linked (caught r).1
    of_run (ok u, t) l = l
    of_run (err e, t) l = l

remove_subscription-Linked :
    (reply : Reply (Unit {0})) (a : String) → KeepsLinked (remove_subscription reply a)
unfolding remove_subscription
remove_subscription-Linked (ok u) a s h = h
remove_subscription-Linked (err e) a s h = h

confirm_receipt-Linked :
    (r : Option Receipt) (user : Option ℕ) (seconds : ℕ)
    → KeepsLinked (confirm_receipt r user seconds)
confirm_receipt-Linked none user seconds s h = h
confirm_receipt-Linked (some r) user seconds s h = h

update_machine-Linked : (a : String) (items : MachineItems) → KeepsLinked (update_machine a items)
update_machine-Linked a items s h =
    if_both (λ (r : Result ChainError (Unit {0}) × Index). Linked r.1)
      (any (λ m. m.address == a) s.machines) _ _ h h

count_minted-Linked :
    (machine : String) (removed : Reply (Unit {0})) (items : MachineItems)
    → KeepsLinked (count_minted machine removed items)
count_minted-Linked machine removed items =
    Keeps-bind Linked (update_machine machine items) _ (update_machine-Linked machine items)
      (λ _ s h.
        if_both (λ (r : Result ChainError (Unit {0}) × Index). Linked r.1)
          (items.available - items.redeemed == 0)
          (log_error (remove_subscription removed machine) s) (pure tt s)
          (remove_subscription-Linked removed machine s h) h)

settle_mint-Linked :
    (r : Option Receipt) (user : Option ℕ) (seconds : ℕ) (machine : String)
    (items : Reply MachineItems) (removed : Reply (Unit {0}))
    → KeepsLinked (settle_mint r user seconds machine items removed)
settle_mint-Linked r user seconds machine items removed =
    let fetch : M MachineItems = confirm_receipt r user seconds >> lift items in
    Keeps-bind Linked fetch (count_minted machine removed)
      (Keeps-bind Linked (confirm_receipt r user seconds) (λ _. lift items)
        (confirm_receipt-Linked r user seconds) (λ _ s h. h))
      (count_minted-Linked machine removed)

pub handle_core_mint-Linked : (x : Mint) (now : ℕ) → KeepsLinked (handle_core_mint x now)
unfolding handle_core_mint
handle_core_mint-Linked x now s =
    let r : Option Receipt = find_receipt x.signature s in
    let index : M (Option ℕ) = or_none (index_minted r x.accounts x.machine x.collection now) in
    Keeps-bind Linked index _
      (or_none-Linked (index_minted r x.accounts x.machine x.collection now)
        (index_minted-Linked r x.accounts x.machine x.collection now))
      (λ user t h. settle_mint-Linked r user x.seconds x.machine x.items x.removed t h) s
