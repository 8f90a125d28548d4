-- ===== src/Wheel/Pool/Weights.antt =====
-- The weights of the pool of src/wheel/wheel.service.ts, and the choice of a drop from it.
use d_reader_backend.Base.{
  ℕ, zero, suc, ◌+◌, ◌*◌, ◌<◌, ◌≡◌, refl, Bool, some, List, [], ◌∷◌, ◌++◌, arith, length, get_elem?,
  count_where, sum_of, count_where-append, if◌then◌else◌,
}
use d_reader_backend.Wheel.Model.{Reward, Drop, Random}
use d_reader_backend.Wheel.Pool.{
  PoolItem, WithDrops, available_rewards, push_copies, push_drops, push_rewards, drop_pool,
  floor_random, select_drop,
}

abbrev pub item_of : Reward → Drop → PoolItem
item_of r d = record { drop = d; reward_type = r.type }

module _ (p : PoolItem → Bool) where
  -- the share of a reward: its weight for each of its drops that are counted
  abbrev pub share : WithDrops → ℕ
  share r = r.reward.weight * count_where (λ d. p (item_of r.reward d)) r.drops

  push_copies-count :
      (n : ℕ) (item : PoolItem) (pool : List PoolItem)
      → count_where p (push_copies n item pool) ≡ count_where p pool + n * (if p item then 1 else 0)
  unfolding push_copies
  push_copies-count zero item pool = omega arith
  push_copies-count (suc n) item pool =
      grind
        (arith, push_copies-count n item (pool ++ item ∷ []), count_where-append p pool (item ∷ []))

  push_drops-count :
      (r : Reward) (ds : List Drop) (pool : List PoolItem)
      → count_where p (push_drops r ds pool)
        ≡ count_where p pool + r.weight * count_where (λ d. p (item_of r d)) ds
  unfolding push_drops
  push_drops-count r [] pool = omega arith
  push_drops-count r (d ∷ ds) pool = grind (
    arith,
    push_drops-count r ds (push_copies r.weight (item_of r d) pool),
    push_copies-count r.weight (item_of r d) pool,
  )

  push_rewards-count :
      (rs : List WithDrops) (pool : List PoolItem)
      → count_where p (push_rewards rs pool) ≡ count_where p pool + sum_of share rs
  unfolding push_rewards
  push_rewards-count [] pool = omega arith
  push_rewards-count (r ∷ rs) pool = omega (
    arith,
    push_rewards-count rs (push_drops r.reward r.drops pool),
    push_drops-count r.reward r.drops pool,
  )

  available_rewards-share :
      (rs : List WithDrops) → sum_of share (available_rewards rs) ≡ sum_of share rs
  unfolding available_rewards
  available_rewards-share [] = refl
  available_rewards-share (r ∷ rs) = available_or_empty r.drops refl (available_rewards-share rs)
    where
      available_or_empty :
          (ds : List Drop)
          → r.drops ≡ ds
          → sum_of share (available_rewards rs) ≡ sum_of share rs
          → sum_of share (available_rewards (r ∷ rs)) ≡ sum_of share (r ∷ rs)
      available_or_empty [] e ih = rw e (grind (arith, ih))
      available_or_empty (d ∷ ds) e ih = rw e (grind (arith, ih))

  -- Of the items that a test accepts, the pool holds as many as the weights give: for each reward
  -- its weight, for each of its active drops that the test accepts.
  pub drop_pool-count : (rs : List WithDrops) → count_where p (drop_pool rs) ≡ sum_of share rs
  unfolding drop_pool
  drop_pool-count rs =
      omega (arith, push_rewards-count (available_rewards rs) [], available_rewards-share rs)

get_elem?_of_lt {ℓ} :
    {A : Type ℓ} (xs : List A) (i : ℕ) → i < length xs → (a : A) × (get_elem? xs i ≡ some a)
get_elem?_of_lt [] i h = absurd (omega arith)
get_elem?_of_lt (x ∷ xs) zero h = (x, refl)
get_elem?_of_lt (x ∷ xs) (suc i) h = get_elem?_of_lt xs i (omega arith)

pub floor_random-lt : (r : Random) (n : ℕ) → r.num < r.den → 0 < n → floor_random r n < n
unfolding floor_random
floor_random-lt r n h k = grind arith

-- For a random number below 1 and a pool that is not empty, some drop is chosen.
pub select_drop-some :
    (r : Random) (pool : List PoolItem)
    → r.num < r.den
    → 0 < length pool
    → (item : PoolItem) × (select_drop r pool ≡ some item)
unfolding select_drop
select_drop-some r pool h k =
    get_elem?_of_lt pool (floor_random r (length pool)) (floor_random-lt r (length pool) h k)
