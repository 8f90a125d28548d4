-- ===== src/Wheel/Pool.antt =====
-- The weighted pool of drops in `spin` of src/wheel/wheel.service.ts.
pub mod Weights
use d_reader_backend.Base.{
  ℕ, zero, suc, ◌*◌, ◌/◌, Option, List, [], ◌∷◌, ◌++◌, length, get_elem?, find_many, ltb, ◌==◌,
  nat_eq, ◌&&◌,
}
use d_reader_backend.Wheel.Model.{Reward, Drop, RewardType, Store, Random}

pub record PoolItem : Type 0 where
  pub drop : Drop
  pub reward_type : RewardType

-- a reward with its active drops, as the query includes them
pub record WithDrops : Type 0 where
  pub reward : Reward
  pub drops : List Drop

abbrev active_drops_of : Store → Reward → List Drop
active_drops_of s r = find_many (λ d. (d.reward_id == r.id) && d.is_active) s.drops

include_drops : Store → List Reward → List WithDrops
include_drops s [] = []
include_drops s (r ∷ rs) = record { reward = r; drops = active_drops_of s r } ∷ include_drops s rs

-- `wheel.rewards`
unfoldable pub rewards_of : Store → ℕ → List WithDrops
unfolding include_drops
rewards_of s wheel_id = include_drops s (find_many (λ r. r.wheel_id == wheel_id) s.rewards)

unfoldable pub available_rewards : List WithDrops → List WithDrops
available_rewards = find_many (λ r. ltb 0 (length r.drops))

-- `for (let i = 0; i < reward.weight; i++) dropPool.push(…)`
unfoldable pub push_copies : ℕ → PoolItem → List PoolItem → List PoolItem
push_copies zero item pool = pool
push_copies (suc i) item pool = push_copies i item (pool ++ item ∷ [])

unfoldable pub push_drops : Reward → List Drop → List PoolItem → List PoolItem
unfolding push_copies
push_drops r [] pool = pool
push_drops r (d ∷ ds) pool =
    push_drops r ds (push_copies r.weight (record { drop = d; reward_type = r.type }) pool)

unfoldable pub push_rewards : List WithDrops → List PoolItem → List PoolItem
unfolding push_drops
push_rewards [] pool = pool
push_rewards (r ∷ rs) pool = push_rewards rs (push_drops r.reward r.drops pool)

unfoldable pub drop_pool : List WithDrops → List PoolItem
unfolding push_rewards available_rewards
drop_pool rewards = push_rewards (available_rewards rewards) []

-- `Math.floor(Math.random() * n)`
unfoldable pub floor_random : Random → ℕ → ℕ
floor_random r n = r.num * n / r.den

-- `dropPool[Math.floor(Math.random() * dropPool.length)]`
unfoldable pub select_drop : Random → List PoolItem → Option PoolItem
unfolding floor_random
select_drop r pool = get_elem? pool (floor_random r (length pool))
