-- ===== src/Wheel/Spin/Once.antt =====
-- A drop is won at most once, on every path of `spin` of src/wheel/wheel.service.ts.
use d_reader_backend.Base.{
  continue_both, if_both, ap, continue, suc, String, ℕ, ◌+◌, ◌≤◌, ◌≡◌, ◌≢◌, refl, inl, inr, Bool,
  true, false, ◌&&◌, Option, none, some, List, [], ◌∷◌, ◌==◌, nat_eq, arith, if◌then◌else◌, any,
  count_where, find_first, update_where, Result, ok, err, find_first-holds, any-find_first,
}
use d_reader_backend.Wheel.Model.{
  Store, Outside, Calendar, Random, Receipt, Drop, Wheel, RewardType, Error, physical,
  print_edition, one_of_one, collectible_comic, fungible, nothing,
}
use d_reader_backend.Wheel.Pool.{PoolItem, select_drop, drop_pool, rewards_of}
use d_reader_backend.Wheel.Awards.{create_receipt_for_no_reward}
use d_reader_backend.Wheel.Awards.Receipts.{
  IsNew, Awards, no_reward-Awards, send_physical-Awards, transfer_fungible-Awards,
  transfer_collectible-Awards,
}
use d_reader_backend.Wheel.Spin.{
  set_inactive, deactivate, claim_found, claim_drop, award, award_claimed, award_selected, play,
  check_spin, spin,
}

abbrev is_drop : ℕ → Option ℕ → Bool
is_drop id none = false
is_drop id (some other) = other == id

-- the receipts for the drop
abbrev pub won : ℕ → List Receipt → ℕ
won id = count_where (λ r. is_drop id r.drop_id)

-- whether the drop can still be won
abbrev pub is_winnable : ℕ → List Drop → Bool
is_winnable id = any (λ d. (d.id == id) && d.is_active)

-- A drop that can still be won has no receipt, and any other has at most one.
abbrev pub WonOnce : ℕ → Store → Type 0
WonOnce id s = won id s.receipts + (if is_winnable id s.drops then 1 else 0) ≤ 1

is_winnable-set_inactive_self :
    (id : ℕ) (ds : List Drop)
    → is_winnable id
        (update_where (λ d. (d.id == id) && d.is_active) (λ d. record d { is_active = false }) ds)
      ≡ false
is_winnable-set_inactive_self id [] = refl
is_winnable-set_inactive_self id (d ∷ ds) = ground (arith, is_winnable-set_inactive_self id ds)

is_winnable-set_inactive_ne :
    (id x : ℕ) (ds : List Drop)
    → id ≢ x
    → is_winnable x
        (update_where (λ d. (d.id == id) && d.is_active) (λ d. record d { is_active = false }) ds)
      ≡ is_winnable x ds
is_winnable-set_inactive_ne id x [] h = refl
is_winnable-set_inactive_ne id x (d ∷ ds) h = ground (arith, is_winnable-set_inactive_ne id x ds h)

-- a claim gives nothing and changes nothing, or takes the drop out of those that can be won
abbrev Claims : ℕ → Store → Result Error (Option Drop) × Store → Type 0
Claims id s (ok none, s') = s' ≡ s
Claims id s (ok (some d), s') =
    (d.id ≡ id) × (is_winnable id s.drops ≡ true) × (s' ≡ set_inactive id s)
Claims id s (err e, s') = s' ≡ s

deactivate-Claims :
    (id : ℕ) (s : Store) (found : Option Drop)
    → find_first (λ d. (d.id == id) && d.is_active) s.drops ≡ found
    → Claims id s (deactivate id found s)
unfolding deactivate
deactivate-Claims id s none e = refl
deactivate-Claims id s (some d) e = ground (
  arith,
  any-find_first (λ x. (x.id == id) && x.is_active) s.drops d,
  find_first-holds (λ x. (x.id == id) && x.is_active) s.drops d,
)

claim_drop-Claims : (id : ℕ) (s : Store) → Claims id s (claim_drop id s)
unfolding claim_drop
claim_drop-Claims id s = found (find_first (λ d. d.id == id) s.drops)
  where
    found : (o : Option Drop) → Claims id s (claim_found id o s)
    found none = refl
    found (some d) =
        ground
          (arith, deactivate-Claims id s (find_first (λ x. (x.id == id) && x.is_active) s.drops))

module _ (w u t id x : ℕ) (s : Store) where
  IsNew-won :
      (r : Receipt) (s' : Store)
      → IsNew w u t id s r s'
      → won x s'.receipts ≤ won x s.receipts + (if id == x then 1 else 0)
  IsNew-won r s' new = ground arith

  -- An award leaves at most one receipt more for its drop, and the drops as they are.
  Awards-won :
      (m : Result Error Receipt × Store)
      → Awards w u t id s m
      → (m.1.drops ≡ s.drops) × (won x m.1.receipts ≤ won x s.receipts + (if id == x then 1 else 0))
  Awards-won (ok r, s') (same, new) = (same, IsNew-won r s' new)
  Awards-won (err e, s') (same, inl old) = (same, rw old (ground arith))
  Awards-won (err e, s') (same, inr (r, new)) = (same, IsNew-won r s' new)

  -- So it keeps a drop that cannot be won, or is another one, won at most once.
  Awards-WonOnce :
      (m : Result Error Receipt × Store)
      → Awards w u t id s m
      → won x s.receipts + (if id == x then 1 else 0) + (if is_winnable x s.drops then 1 else 0) ≤ 1
      → WonOnce x m.1
  Awards-WonOnce m a h = let (same, le) = Awards-won m a in rw same (omega arith)

set_inactive-load :
    (id x : ℕ) (s : Store)
    → is_winnable id s.drops ≡ true
    → WonOnce x s
    → won x s.receipts
        + (if id == x then 1 else 0)
        + (if is_winnable x (set_inactive id s).drops then 1 else 0)
      ≤ 1
set_inactive-load id x s was h = ground (
  arith,
  is_winnable-set_inactive_self id s.drops,
  is_winnable-set_inactive_ne id x s.drops,
  ap (λ (y : ℕ). is_winnable y s.drops) {x = id} {y = x},
  ap (λ (y : ℕ). is_winnable y (set_inactive id s).drops) {x = id} {y = x},
)

module _ (out : Outside) (w u t : ℕ) (wallet : String) where
  pub award-Awards :
      (type : RewardType) (d : Drop) (s : Store)
      → Awards w u t d.id s (award out w u t wallet type d s)
  unfolding award
  award-Awards physical d s = send_physical-Awards w u t d s
  award-Awards print_edition d s = transfer_collectible-Awards out w u t d s wallet print_edition
  award-Awards one_of_one d s = transfer_collectible-Awards out w u t d s wallet one_of_one
  award-Awards collectible_comic d s =
      transfer_collectible-Awards out w u t d s wallet collectible_comic
  award-Awards fungible d s = transfer_fungible-Awards out w u t d s wallet
  award-Awards nothing d s = no_reward-Awards w u t d.id s

  -- whatever a claim of the drop `id` gave
  claimed-WonOnce :
      (id x : ℕ) (type : RewardType) (s : Store) (m : Result Error (Option Drop) × Store)
      → Claims id s m
      → WonOnce x s
      → WonOnce x (continue (award_claimed out w u t wallet type) m).1
  unfolding award_claimed
  claimed-WonOnce id x type s (ok none, s') c h =
      Awards-WonOnce w u t (suc x) x s' (create_receipt_for_no_reward w u t s')
        (no_reward-Awards w u t (suc x) s') (rw c (ground arith))
  claimed-WonOnce id x type s (ok (some d), s') c h =
      Awards-WonOnce w u t d.id x s' (award out w u t wallet type d s') (award-Awards type d s')
        (rw (c.2, c.0) (set_inactive-load id x s c.1 h))
  claimed-WonOnce id x type s (err e, s') c h = rw c h

  award_selected-WonOnce :
      (x : ℕ) (item : Option PoolItem) (s : Store)
      → WonOnce x s
      → WonOnce x (award_selected out w u t wallet item s).1
  unfolding award_selected
  award_selected-WonOnce x none s h =
      Awards-WonOnce w u t (suc x) x s (create_receipt_for_no_reward w u t s)
        (no_reward-Awards w u t (suc x) s) (ground arith)
  award_selected-WonOnce x (some item) s h =
      claimed-WonOnce item.drop.id x item.reward_type s (claim_drop item.drop.id s)
        (claim_drop-Claims item.drop.id s) h

  play-WonOnce :
      (x : ℕ) (roll pick : Random) (wheel : Wheel) (s : Store)
      → WonOnce x s
      → WonOnce x (play out w u t wallet roll pick wheel s).1
  unfolding play
  play-WonOnce x roll pick wheel s h =
      if_both (λ m. WonOnce x m.1) _ (create_receipt_for_no_reward w u t s) _
        (Awards-WonOnce w u t (suc x) x s _ (no_reward-Awards w u t (suc x) s) (ground arith))
        (award_selected-WonOnce x (select_drop pick (drop_pool (rewards_of s w))) s h)

-- a claim writes no receipt
pub claim_drop-receipts : (id : ℕ) (s : Store) → (claim_drop id s).1.receipts ≡ s.receipts
claim_drop-receipts id s = of_claims (claim_drop id s) (claim_drop-Claims id s)
  where
    of_claims : (m : Result Error (Option Drop) × Store) → Claims id s m → m.1.receipts ≡ s.receipts
    of_claims (ok none, s') c = cc
    of_claims (ok (some d), s') c = ground arith
    of_claims (err e, s') c = cc

-- the checks write nothing
pub check_spin-unchanged :
    (cal : Calendar) (w u now later : ℕ) (s : Store) → (check_spin cal w u now later s).1 ≡ s
unfolding check_spin
check_spin-unchanged cal w u now later s = ground arith

-- A spin, whatever its result, keeps it that a drop that can still be won has no receipt and that
-- no drop has two.
pub spin-WonOnce :
    (out : Outside) (cal : Calendar) (roll pick : Random) (wheel_id user_id now later id : ℕ)
    (s : Store)
    → WonOnce id s
    → WonOnce id (spin out cal roll pick wheel_id user_id now later s).1
unfolding spin
spin-WonOnce out cal roll pick w u now later id s h =
    let kept : WonOnce id (check_spin cal w u now later s).1 =
      rw (check_spin-unchanged cal w u now later s) h in
    continue_both (λ m. WonOnce id m.1) _ (check_spin cal w u now later s)
      (λ checked _. play-WonOnce out w u later checked.1.address id roll pick checked.0 _ kept)
      (λ _ _. kept)
