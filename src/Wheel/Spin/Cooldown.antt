-- ===== src/Wheel/Spin/Cooldown.antt =====
-- The cooldown of `spin` of src/wheel/wheel.service.ts: a spin that gave a receipt keeps the same
-- user from the same wheel until the receipt is older than the period of the wheel.
use d_reader_backend.Base.{
  ap, subst, String, nat_eq, true, ◌==◌, ℕ, ◌≤◌, ◌≡◌, refl, List, ◌∷◌, ◌++◌, Option, some, none,
  arith, any, find_first, Result, ok, err, continue, continue_both, if_both, any-append_right,
  find_first_of_any, err_of_ne_ok,
}
use d_reader_backend.Wheel.Model.{
  RewardType, Store, Outside, Calendar, Random, Receipt, Wheel, Error, Drop, Wallet,
}
use d_reader_backend.Wheel.Pool.{PoolItem, select_drop, drop_pool, rewards_of}
use d_reader_backend.Wheel.Awards.{create_receipt_for_no_reward}
use d_reader_backend.Wheel.Dates.{last_eligible_spin_date}
use d_reader_backend.Wheel.Awards.Receipts.{no_reward-Awards, Awards}
use d_reader_backend.Wheel.Spin.{
  claim_drop, is_recent, award_claimed, award_selected, play, check_spin, spin,
}
use d_reader_backend.Wheel.Spin.Once.{claim_drop-receipts, award-Awards, check_spin-unchanged}

module _ (w u t : ℕ) where
  -- a receipt that is returned is a new one of this spin, stamped with its instant
  abbrev pub Records : Store → Result Error Receipt × Store → Type 0
  Records s (ok r, s') =
      (s'.receipts ≡ r ∷ s.receipts) × (r.wheel_id ≡ w) × (r.user_id ≡ u) × (r.created_at ≡ t)
  Records s (err e, s') = Unit

  Awards-Records :
      (id : ℕ) (s s' : Store) (m : Result Error Receipt × Store)
      → s'.receipts ≡ s.receipts
      → Awards w u t id s' m
      → Records s m
  Awards-Records id s s' (ok r, s'') e a = ground arith
  Awards-Records id s s' (err x, s'') e a = tt

check_spin-recent :
    (cal : Calendar) (w u now later : ℕ) (s : Store) (wheel : Wheel) (checked : Wheel × Wallet)
    → find_first (λ x. x.id == w) s.wheels ≡ some wheel
    → any (is_recent (last_eligible_spin_date cal wheel.type now) u w) s.receipts ≡ true
    → (check_spin cal w u now later s).0 ≡ ok checked
    → ⊥
unfolding check_spin
check_spin-recent cal w u now later s wheel checked found recent passed = ground (
  arith,
  find_first_of_any (is_recent (last_eligible_spin_date cal wheel.type now) u w) s.receipts,
)

module _ (out : Outside) (w u t : ℕ) (wallet : String) where
  claimed-Records :
      (id : ℕ) (type : RewardType) (s : Store) (m : Result Error (Option Drop) × Store)
      → m.1.receipts ≡ s.receipts
      → Records w u t s (continue (award_claimed out w u t wallet type) m)
  unfolding award_claimed
  claimed-Records id type s (ok none, s') e =
      Awards-Records w u t id s s' _ e (no_reward-Awards w u t id s')
  claimed-Records id type s (ok (some d), s') e =
      Awards-Records w u t d.id s s' _ e (award-Awards out w u t wallet type d s')
  claimed-Records id type s (err x, s') e = tt

  selected-Records :
      (item : Option PoolItem) (s : Store)
      → Records w u t s (award_selected out w u t wallet item s)
  unfolding award_selected
  selected-Records none s = Awards-Records w u t 0 s s _ refl (no_reward-Awards w u t 0 s)
  selected-Records (some item) s =
      claimed-Records item.drop.id item.reward_type s (claim_drop item.drop.id s)
        (claim_drop-receipts item.drop.id s)

  play-Records :
      (roll pick : Random) (wheel : Wheel) (s : Store)
      → Records w u t s (play out w u t wallet roll pick wheel s)
  unfolding play
  play-Records roll pick wheel s =
      if_both (Records w u t s) _ (create_receipt_for_no_reward w u t s) _
        (Awards-Records w u t 0 s s _ refl (no_reward-Awards w u t 0 s))
        (selected-Records (select_drop pick (drop_pool (rewards_of s w))) s)

-- A spin that returns has added the receipt that it returns, of this user and wheel and of the
-- instant of the spin, and no other.
pub spin-Records :
    (out : Outside) (cal : Calendar) (roll pick : Random) (w u now later : ℕ) (s : Store)
    → Records w u later s (spin out cal roll pick w u now later s)
unfolding spin
spin-Records out cal roll pick w u now later s =
    continue_both (Records w u later s) _ (check_spin cal w u now later s)
      (λ checked _.
        rw (check_spin-unchanged cal w u now later s)
          (play-Records out w u later checked.1.address roll pick checked.0 s))
      (λ _ _. tt)

-- A user with a receipt for the wheel since the instant that its type gives is refused, and nothing
-- changes.
pub spin_refused :
    (out : Outside) (cal : Calendar) (roll pick : Random) (w u now later : ℕ) (s : Store)
    (wheel : Wheel)
    → find_first (λ x. x.id == w) s.wheels ≡ some wheel
    → any (is_recent (last_eligible_spin_date cal wheel.type now) u w) s.receipts ≡ true
    → (e : Error) × (spin out cal roll pick w u now later s ≡ (err e, s))
unfolding spin
spin_refused out cal roll pick w u now later s wheel found recent =
    let (e, refused) =
      err_of_ne_ok (check_spin cal w u now later s) s
        (λ checked. check_spin-recent cal w u now later s wheel checked found recent)
        (check_spin-unchanged cal w u now later s) in
    (e, ap (continue (λ checked. play out w u later checked.1.address roll pick checked.0)) refused)

-- After a spin that returned a receipt, a spin of the same user at the same wheel is refused and
-- changes nothing, whatever happened between, as long as the receipts of then are still there and
-- the instant from which receipts count, by the type of the wheel, is not after the first spin.
pub spin_cooldown :
    (out out' : Outside) (cal cal' : Calendar) (roll pick roll' pick' : Random)
    (w u now later now' later' : ℕ) (s s' s'' : Store) (r : Receipt) (wheel : Wheel)
    (newer : List Receipt)
    → spin out cal roll pick w u now later s ≡ (ok r, s')
    → s''.receipts ≡ newer ++ s'.receipts
    → find_first (λ x. x.id == w) s''.wheels ≡ some wheel
    → last_eligible_spin_date cal' wheel.type now' ≤ later
    → (e : Error) × (spin out' cal' roll' pick' w u now' later' s'' ≡ (err e, s''))
spin_cooldown out out' cal cal' roll pick roll' pick' w u now later now' later' s s' s'' r wheel
      newer first kept found since =
    let added : Records w u later s (ok r, s') =
      subst (Records w u later s) first (spin-Records out cal roll pick w u now later s) in
    let recent : any (is_recent (last_eligible_spin_date cal' wheel.type now') u w) s''.receipts
        ≡ true =
      rw kept (any-append_right _ newer s'.receipts (ground arith)) in
    spin_refused out' cal' roll' pick' w u now' later' s'' wheel found recent
