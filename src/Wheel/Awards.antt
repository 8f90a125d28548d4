-- ===== src/Wheel/Awards.antt =====
-- The receipts of a spin and the transfers from the vault: `createReceiptForNoReward`,
-- `sendPhysicalClaimEmail`, `transferFungibleFromVault`, `transferCollectibleFromVault` and the
-- three `create…DropReceipt` of src/wheel/wheel.service.ts. `later` is the instant of the
-- `new Date()` calls that stamp what is written.
pub mod Receipts
use d_reader_backend.Base.{
  List, Result, ℕ, String, Bool, true, false, not, ◌&&◌, Option, none, some, ◌∷◌, ◌==◌, nat_eq,
  string_eq, if◌then◌else◌, any, find_first, update_where, pure, throw_if, gets, or_throw, lift,
  modify, ◌>>=◌, ◌>>◌,
}
use d_reader_backend.Wheel.Model.{
  Wallet, M, Store, Outside, Error, Receipt, Drop, PhysicalItem, SplToken, Asset, Transfer,
  RewardType, nothing, type_error, record_not_found,
}
use d_reader_backend.Wheel.Vault.{validate_wallet_balance}

abbrev is_nothing : RewardType → Bool
is_nothing nothing = true
is_nothing _ = false

abbrev add_receipt : Receipt → Store → Store
add_receipt r s = record s { receipts = r ∷ s.receipts }

-- `handleActivityNotification`, with the type `WheelSpun`
abbrev notify : ℕ → ℕ → String → Store → Store
notify user_id target_id title s = record s {
  notifications =
      record { user_id = user_id; target_id = target_id; target_title = title } ∷ s.notifications;
}

-- `connectOrCreate` of a wallet, which is created without a user
abbrev connect_or_create_wallet : String → List Wallet → List Wallet
connect_or_create_wallet address wallets =
    if any (λ w. w.address == address) wallets
    then wallets
    else record { address = address; user_id = none; connected_at = none } ∷ wallets

abbrev set_owner : String → String → ℕ → Store → Store
set_owner address owner later s = record s {
  digital_assets =
      update_where (λ a. a.address == address)
        (λ a. record a { owner_address = owner; owner_changed_at = later }) s.digital_assets;
}

-- `digitalAsset.update` with `connectOrCreate`, which throws where there is no such asset
abbrev pub update_owner : String → String → ℕ → M (Unit {0})
update_owner address owner later = do
  known ← gets (λ s. any (λ a. a.address == address) s.digital_assets)
  throw_if (not known) record_not_found
  modify (λ s. record s { wallets = connect_or_create_wallet owner s.wallets })
  modify (set_owner address owner later)

-- `digitalAsset.update` with `connect`, which throws where there is no such wallet either
abbrev pub connect_owner : String → String → ℕ → M (Unit {0})
connect_owner address owner later = do
  known ← gets (λ s. any (λ a. a.address == address) s.digital_assets)
  has_wallet ← gets (λ s. any (λ w. w.address == owner) s.wallets)
  throw_if (not (known && has_wallet)) record_not_found
  modify (set_owner address owner later)

module _ (wheel_id user_id later : ℕ) where
  abbrev no_reward_receipt : ℕ → Receipt
  no_reward_receipt reward_id = record {
    wheel_id = wheel_id;
    reward_id = reward_id;
    user_id = user_id;
    wallet_address = none;
    transaction_signature = none;
    drop_id = none;
    drop_name = "";
    amount = 0;
    claimed_at = some later;
    created_at = later;
  }

  unfoldable pub create_receipt_for_no_reward : M Receipt
  create_receipt_for_no_reward = do
    found ← gets (λ s. find_first (λ r. (r.wheel_id == wheel_id) && is_nothing r.type) s.rewards)
    no_reward ← or_throw found type_error
    modify (add_receipt (no_reward_receipt no_reward.id))
    modify (notify user_id no_reward.id no_reward.name)
    pure (no_reward_receipt no_reward.id)

  -- the receipt of a drop, as the three awards create it
  abbrev drop_receipt : Drop → String → Option String → Option String → Option ℕ → Receipt
  drop_receipt d name wallet signature claimed = record {
    wheel_id = wheel_id;
    reward_id = d.reward_id;
    user_id = user_id;
    wallet_address = wallet;
    transaction_signature = signature;
    drop_id = some d.id;
    drop_name = name;
    amount = d.amount;
    claimed_at = claimed;
    created_at = later;
  }

  unfoldable pub send_physical_item : Drop → Option PhysicalItem → M Receipt
  unfolding create_receipt_for_no_reward
  send_physical_item d none = create_receipt_for_no_reward
  send_physical_item d (some item) = do
    modify (add_receipt (drop_receipt d item.name none none none))
    modify (notify user_id d.reward_id item.name)
    pure (drop_receipt d item.name none none none)

  unfoldable pub send_physical_claim_email : Drop → M Receipt
  unfolding send_physical_item
  send_physical_claim_email d = do
    item ← gets (λ s. find_first (λ i. i.id == d.item_id) s.physical_items)
    send_physical_item d item

module _ (out : Outside) (wheel_id user_id later : ℕ) where
  -- `transferFungibleFromVault` once the balance is known to be enough
  unfoldable pub send_fungible : Drop → String → String → String → M Receipt
  send_fungible d wallet token symbol = do
    let transfer =
        if token == out.sol_address
        then Transfer.sol wallet d.amount
        else Transfer.tokens token wallet d.amount
    signature ← lift (out.send transfer)
    modify (
        add_receipt (
          drop_receipt wheel_id user_id later d symbol (some wallet) (some signature) (some later)))
    modify (notify user_id d.reward_id symbol)
    pure (drop_receipt wheel_id user_id later d symbol (some wallet) (some signature) (some later))

  unfoldable pub transfer_token : Drop → String → Option SplToken → M Receipt
  unfolding create_receipt_for_no_reward send_fungible
  transfer_token d wallet none = create_receipt_for_no_reward wheel_id user_id later
  transfer_token d wallet (some token) = do
    enough ← lift (validate_wallet_balance out wallet d.amount token.address)
    if enough
        then send_fungible d wallet token.address token.symbol
        else create_receipt_for_no_reward wheel_id user_id later

  unfoldable pub transfer_fungible_from_vault : Drop → String → M Receipt
  unfolding transfer_token
  transfer_fungible_from_vault d wallet = do
    token ← gets (λ s. find_first (λ t. t.address == d.item_id) s.spl_tokens)
    transfer_token d wallet token

  -- `create…DropReceipt`: the title of the asset is looked up, then the notification is sent
  unfoldable pub create_drop_receipt : RewardType → Receipt → Drop → M Receipt
  create_drop_receipt type receipt d = do
    title ← lift (out.title_of type d.item_id)
    modify (notify receipt.user_id d.reward_id title)
    pure receipt

  -- `transferCollectibleFromVault` from the sending of the transaction on
  unfoldable pub record_transfer :
      Drop → String → RewardType → Asset → Result Error String → M Receipt
  unfolding create_drop_receipt
  record_transfer d wallet type asset sent = do
    signature ← lift sent
    let receipt =
        drop_receipt wheel_id user_id later d asset.name (some wallet) (some signature) (some later)
    modify (add_receipt receipt)
    connect_owner d.item_id wallet later
    create_drop_receipt type receipt d

  unfoldable pub transfer_asset : Drop → String → RewardType → Asset → M Receipt
  unfolding create_receipt_for_no_reward record_transfer
  transfer_asset d wallet type asset =
      if asset.owner == out.treasury
      then record_transfer d wallet type asset
          (out.send (Transfer.asset d.item_id asset.collection wallet))
      else update_owner d.item_id asset.owner later
        >> create_receipt_for_no_reward wheel_id user_id later

  unfoldable pub transfer_collectible_from_vault : Drop → String → RewardType → M Receipt
  unfolding transfer_asset
  transfer_collectible_from_vault d wallet type = do
    asset ← lift (out.fetch_asset d.item_id)
    transfer_asset d wallet type asset
