-- ===== src/Wheel/Awards/Receipts.antt =====
-- What the awards of src/wheel/wheel.service.ts do to the receipts and the drops.
use d_reader_backend.Base.{
  lift, ◌>>=◌, ℕ, String, ◌≡◌, refl, inr, ◌⊎◌, Option, none, some, ◌∷◌, ◌==◌, string_eq, arith,
  ◌>>◌, Result, ok, err, find_first,
}
use d_reader_backend.Wheel.Model.{
  Store, Outside, Receipt, Drop, RewardType, Error, Transfer, Asset, PhysicalItem, SplToken,
}
use d_reader_backend.Wheel.Awards.{
  connect_owner, add_receipt, drop_receipt, create_receipt_for_no_reward, send_physical_claim_email,
  send_fungible, transfer_fungible_from_vault, create_drop_receipt, record_transfer, transfer_asset,
  transfer_token, send_physical_item, transfer_collectible_from_vault,
}

module _ (wheel_id user_id later drop_id : ℕ) where
  -- `r` is a receipt of this spin, for nothing or for the given drop, and is all that is new.
  pub record IsNew (s : Store) (r : Receipt) (s' : Store) : Type 0 where
    pub added : s'.receipts ≡ r ∷ s.receipts
    pub of_wheel : r.wheel_id ≡ wheel_id
    pub of_user : r.user_id ≡ user_id
    pub stamped : r.created_at ≡ later
    pub of_drop : (r.drop_id ≡ none) ⊎ (r.drop_id ≡ some drop_id)

  -- The drops stay; a receipt that is returned is new; an exception leaves the receipts as they
  -- were or comes after the receipt was written.
  abbrev pub Awards : Store → Result Error Receipt × Store → Type 0
  Awards s (ok r, s') = (s'.drops ≡ s.drops) × IsNew s r s'
  Awards s (err e, s') =
      (s'.drops ≡ s.drops) × ((s'.receipts ≡ s.receipts) ⊎ ((r : Receipt) × IsNew s r s'))

  pub no_reward-Awards :
      (s : Store) → Awards s (create_receipt_for_no_reward wheel_id user_id later s)
  unfolding create_receipt_for_no_reward
  no_reward-Awards s = ground arith

-- a step that leaves the receipts and the drops alone, and can return only `r`
abbrev Keeps : Receipt → Store → Result Error Receipt × Store → Type 0
Keeps r s (ok r', s') = (s'.drops ≡ s.drops) × (s'.receipts ≡ s.receipts) × (r' ≡ r)
Keeps r s (err e, s') = (s'.drops ≡ s.drops) × (s'.receipts ≡ s.receipts)

module _ (wheel_id user_id later : ℕ) (d : Drop) (s : Store) where
  Keeps-Awards :
      (r : Receipt) (s' : Store) (m : Result Error Receipt × Store)
      → s'.drops ≡ s.drops
      → IsNew wheel_id user_id later d.id s r s'
      → Keeps r s' m
      → Awards wheel_id user_id later d.id s m
  Keeps-Awards r s' (ok r', s'') same new k = ground arith
  Keeps-Awards r s' (err e, s'') same new k = (cc, inr (r, ground arith))

  send_item-Awards :
      (item : Option PhysicalItem)
      → Awards wheel_id user_id later d.id s (send_physical_item wheel_id user_id later d item s)
  unfolding send_physical_item
  send_item-Awards none = no_reward-Awards wheel_id user_id later d.id s
  send_item-Awards (some item) = ground arith

  pub send_physical-Awards :
      Awards wheel_id user_id later d.id s (send_physical_claim_email wheel_id user_id later d s)
  unfolding send_physical_claim_email
  send_physical-Awards = send_item-Awards (find_first (λ i. i.id == d.item_id) s.physical_items)

module _ (out : Outside) (wheel_id user_id later : ℕ) (d : Drop) (s : Store) where
  send_fungible-Awards :
      (wallet token symbol : String)
      → Awards wheel_id user_id later d.id s
          (send_fungible out wheel_id user_id later d wallet token symbol s)
  unfolding send_fungible
  send_fungible-Awards wallet token symbol = ground arith

  transfer_token-Awards :
      (wallet : String) (token : Option SplToken)
      → Awards wheel_id user_id later d.id s
          (transfer_token out wheel_id user_id later d wallet token s)
  unfolding transfer_token
  transfer_token-Awards wallet none = no_reward-Awards wheel_id user_id later d.id s
  transfer_token-Awards wallet (some token) = ground arith

  pub transfer_fungible-Awards :
      (wallet : String)
      → Awards wheel_id user_id later d.id s
          (transfer_fungible_from_vault out wheel_id user_id later d wallet s)
  unfolding transfer_fungible_from_vault
  transfer_fungible-Awards wallet =
      transfer_token-Awards wallet (find_first (λ t. t.address == d.item_id) s.spl_tokens)

  update_title-Keeps :
      (r : Receipt) (type : RewardType) (wallet : String) (s' : Store)
      → Keeps r s' (
          (connect_owner d.item_id wallet later
              >> create_drop_receipt out wheel_id user_id later type r d)
            s')
  unfolding create_drop_receipt
  update_title-Keeps r type wallet s' = ground arith

  signed-Awards :
      (wallet : String) (type : RewardType) (a : Asset) (sent : Result Error String)
      → Awards wheel_id user_id later d.id s
          (record_transfer out wheel_id user_id later d wallet type a sent s)
  unfolding record_transfer
  signed-Awards wallet type a (ok signature) =
      let r =
        drop_receipt wheel_id user_id later d a.name (some wallet) (some signature) (some later) in
      Keeps-Awards wheel_id user_id later d s r (add_receipt r s) _ refl (ground arith)
        (update_title-Keeps r type wallet (add_receipt r s))
  signed-Awards wallet type a (err e) = ground arith

  transfer_asset-Awards :
      (wallet : String) (type : RewardType) (a : Asset)
      → Awards wheel_id user_id later d.id s
          (transfer_asset out wheel_id user_id later d wallet type a s)
  unfolding transfer_asset create_receipt_for_no_reward
  transfer_asset-Awards wallet type a =
      ground (
        arith,
        signed-Awards wallet type a (out.send (Transfer.asset d.item_id a.collection wallet)),
      )

  pub transfer_collectible-Awards :
      (wallet : String) (type : RewardType)
      → Awards wheel_id user_id later d.id s
          (transfer_collectible_from_vault out wheel_id user_id later d wallet type s)
  unfolding transfer_collectible_from_vault
  transfer_collectible-Awards wallet type = fetched (out.fetch_asset d.item_id)
    where
      fetched :
          (found : Result Error Asset)
          → Awards wheel_id user_id later d.id s
              ((lift found >>= transfer_asset out wheel_id user_id later d wallet type) s)
      fetched (ok a) = transfer_asset-Awards wallet type a
      fetched (err e) = ground arith
