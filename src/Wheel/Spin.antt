-- ===== src/Wheel/Spin.antt =====
-- `spin` of src/wheel/wheel.service.ts. `now` is the instant of its first `new Date()`, `later` of
-- those that follow; `roll` and `pick` are the values of `Math.random()` for the spin and for the
-- choice of a drop.
pub mod Once
pub mod Cooldown
use d_reader_backend.Base.{
  ℕ, ◌+◌, String, Bool, true, false, not, ◌&&◌, ◌||◌, Option, none, some, List, [], ◌∷◌, ◌==◌,
  nat_eq, ltb, leb, if◌then◌else◌, find_first, update_where, pure, throw, throw_if, gets, or_throw,
  modify, ◌>>=◌, ◌>>◌,
}
use d_reader_backend.Base.Int.{above}
use d_reader_backend.Wheel.Model.{
  M, Store, Outside, Calendar, Random, Receipt, Drop, Wheel, Wallet, RewardType, collectible_comic,
  print_edition, one_of_one, physical, fungible, nothing, connect_wallet, wheel_not_exists,
  wheel_not_active, wheel_expired, no_spin_left, type_error, record_not_found,
}
use d_reader_backend.Wheel.Dates.{last_eligible_spin_date, get_spin_cooldown_period}
use d_reader_backend.Wheel.Pool.{PoolItem, rewards_of, drop_pool, select_drop, floor_random}
use d_reader_backend.Wheel.Awards.{
  create_receipt_for_no_reward, send_physical_claim_email, transfer_fungible_from_vault,
  transfer_collectible_from_vault,
}

-- Whether the first instant stands before the second in a descending order of the database, which
-- puts `NULL` first.
abbrev precedes : Option ℕ → Option ℕ → Bool
precedes none none = false
precedes none (some _) = true
precedes (some _) none = false
precedes (some a) (some b) = ltb b a

abbrev later_wallet : Wallet → Option Wallet → Option Wallet
later_wallet w none = some w
later_wallet w (some v) = if precedes v.connected_at w.connected_at then some v else some w

abbrev belongs_to : ℕ → Option ℕ → Bool
belongs_to user_id none = false
belongs_to user_id (some owner) = owner == user_id

-- `wallet.findFirst({ where: { userId }, orderBy: { connectedAt: 'desc' } })`
unfoldable pub last_connected_wallet : ℕ → List Wallet → Option Wallet
last_connected_wallet user_id [] = none
last_connected_wallet user_id (w ∷ ws) =
    let rest = last_connected_wallet user_id ws in
    if belongs_to user_id w.user_id then later_wallet w rest else rest

-- `wheel.expiresAt && wheel.expiresAt <= now`
abbrev pub has_expired : Option ℕ → ℕ → Bool
has_expired none now = false
has_expired (some expires_at) now = leb expires_at now

-- the row that `wheelRewardReceipt.findFirst` looks for
abbrev pub is_recent : ℕ → ℕ → ℕ → Receipt → Bool
is_recent since user_id wheel_id r =
    leb since r.created_at && (r.user_id == user_id) && (r.wheel_id == wheel_id)

abbrev set_inactive : ℕ → Store → Store
set_inactive id s = record s {
  drops =
      update_where (λ d. (d.id == id) && d.is_active) (λ d. record d { is_active = false }) s.drops;
}

-- `tx.rewardDrop.update({ where: { id, isActive: true }, data: { isActive: false } })`, of the row
-- that it finds; it throws where there is none
unfoldable deactivate : ℕ → Option Drop → M (Option Drop)
deactivate id none = throw record_not_found
deactivate id (some drop) = do
  modify (set_inactive id)
  pure (some (record drop { is_active = false }))

-- the transaction, of the row that `tx.rewardDrop.findUnique` finds
unfoldable claim_found : ℕ → Option Drop → M (Option Drop)
unfolding deactivate
claim_found id none = throw type_error
claim_found id (some drop) =
    if not drop.is_active
    then pure none
    else gets (λ s. find_first (λ d. (d.id == id) && d.is_active) s.drops) >>= deactivate id

unfoldable pub claim_drop : ℕ → M (Option Drop)
unfolding claim_found
claim_drop id = do found ← gets (λ s. find_first (λ d. d.id == id) s.drops); claim_found id found

module _ (out : Outside) (wheel_id user_id later : ℕ) (wallet : String) where
  -- the `switch` on the type of the reward
  unfoldable pub award : RewardType → Drop → M Receipt
  unfolding create_receipt_for_no_reward send_physical_claim_email transfer_fungible_from_vault
      transfer_collectible_from_vault
  award physical d = send_physical_claim_email wheel_id user_id later d
  award print_edition d =
      transfer_collectible_from_vault out wheel_id user_id later d wallet print_edition
  award one_of_one d =
      transfer_collectible_from_vault out wheel_id user_id later d wallet one_of_one
  award collectible_comic d =
      transfer_collectible_from_vault out wheel_id user_id later d wallet collectible_comic
  award fungible d = transfer_fungible_from_vault out wheel_id user_id later d wallet
  award nothing d = create_receipt_for_no_reward wheel_id user_id later

  unfoldable pub award_claimed : RewardType → Option Drop → M Receipt
  unfolding award
  award_claimed type none = create_receipt_for_no_reward wheel_id user_id later
  award_claimed type (some d) = award type d

  unfoldable pub award_selected : Option PoolItem → M Receipt
  unfolding claim_drop award_claimed
  award_selected none = create_receipt_for_no_reward wheel_id user_id later
  award_selected (some item) = do
    claimed ← claim_drop item.drop.id
    award_claimed item.reward_type claimed

  -- the part of `spin` after its checks
  unfoldable pub play : Random → Random → Wheel → M Receipt
  unfolding award_selected select_drop drop_pool rewards_of
  play roll pick wheel s =
      if above (1 + floor_random roll 100) wheel.win_probability
      then create_receipt_for_no_reward wheel_id user_id later s
      else award_selected (select_drop pick (drop_pool (rewards_of s wheel_id))) s

module _ (cal : Calendar) (wheel_id user_id now later : ℕ) where
  -- `isInCoolDownPeriod`
  abbrev refuse_if_recent : Option Receipt → M (Unit {0})
  refuse_if_recent none = pure tt
  refuse_if_recent (some r) = throw (no_spin_left (get_spin_cooldown_period cal r.created_at later))

  -- the checks of `spin`, in their order, and what they read
  unfoldable pub check_spin : M (Wheel × Wallet)
  unfolding last_connected_wallet last_eligible_spin_date
  check_spin = do
    wallet ← or_throw (← gets (λ s. last_connected_wallet user_id s.wallets)) connect_wallet
    wheel ←
        or_throw (← gets (λ s. find_first (λ w. w.id == wheel_id) s.wheels))
          (wheel_not_exists wheel_id)
    throw_if (not wheel.is_active || ltb now wheel.starts_at) wheel_not_active
    throw_if (has_expired wheel.expires_at now) wheel_expired
    let since = last_eligible_spin_date cal wheel.type now
    refuse_if_recent (← gets (λ s. find_first (is_recent since user_id wheel_id) s.receipts))
    pure (wheel, wallet)

unfoldable pub spin :
    Outside → Calendar → Random → Random → (wheel_id user_id now later : ℕ) → M Receipt
unfolding check_spin play
spin out cal roll pick wheel_id user_id now later = do
  checked ← check_spin cal wheel_id user_id now later
  play out wheel_id user_id later checked.1.address roll pick checked.0
