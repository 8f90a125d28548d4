-- ===== src/Wheel/Admin/Reachable.antt =====
-- Whatever requests the wheel service of src/wheel/wheel.service.ts serves, in whatever order, no
-- drop is won twice.
use d_reader_backend.Base.{
  inr, inl, Bool-cases, if◌then◌else◌, not, dec_lt, ℕ, suc, ◌+◌, ◌≤◌, ◌<◌, ◌≡◌, refl, List, [], ◌∷◌,
  ◌++◌, ◌==◌, nat_eq, arith, any, find_many, Bool, true, false,
}
use d_reader_backend.Wheel.Model.{Store, Outside, Calendar, Random, Drop}
use d_reader_backend.Wheel.Spin.{spin}
use d_reader_backend.Wheel.Spin.Once.{WonOnce, won, is_winnable, spin-WonOnce}
use d_reader_backend.Wheel.Admin.{
  NewWheel, NewReward, NewDrop, WheelChanges, RewardChanges, create, add_reward, add_drops,
  remove_drops, update, update_reward, new_drops,
}

-- `fresh` is above every key that a drop has or had: the counter of the database.
abbrev pub IsFresh : ℕ → Store → Type 0
IsFresh fresh s = (id : ℕ) → fresh ≤ id → won id s.receipts ≡ 0

-- one request, with the choices of its environment
pub data Step : Store → Store → Type 0 where
  spins :
      (out : Outside) (cal : Calendar) (roll pick : Random) (wheel_id user_id now later : ℕ)
      (s : Store)
      → Step s (spin out cal roll pick wheel_id user_id now later s).1
  creates :
      (wheel_id reward_id : ℕ) (dto : NewWheel) (s : Store)
      → Step s (create wheel_id reward_id dto s).1
  adds_reward :
      (fresh reward_id wheel_id : ℕ) (dto : NewReward) (s : Store)
      → IsFresh fresh s
      → Step s (add_reward fresh reward_id wheel_id dto s).1
  adds_drops :
      (fresh reward_id : ℕ) (drops : List NewDrop) (s : Store)
      → IsFresh fresh s
      → Step s (add_drops fresh reward_id drops s).1
  removes_drops :
      (reward_id : ℕ) (ids : List ℕ) (s : Store) → Step s (remove_drops reward_id ids s).1
  updates : (id : ℕ) (dto : WheelChanges) (s : Store) → Step s (update id dto s).1
  updates_reward : (id : ℕ) (dto : RewardChanges) (s : Store) → Step s (update_reward id dto s).1

pub data Reach (s : Store) : Store → Type 0 where
  here : Reach s s
  next : {t u : Store} → Reach s t → Step t u → Reach s u

is_winnable-new_drops :
    (fresh r id : ℕ) (l : List NewDrop) (ds : List Drop)
    → id < fresh
    → is_winnable id (new_drops fresh r l ++ ds) ≡ is_winnable id ds
is_winnable-new_drops fresh r id [] ds h = refl
is_winnable-new_drops fresh r id (d ∷ l) ds h =
    ground (arith, is_winnable-new_drops (suc fresh) r id l ds)

is_winnable-find_many :
    (p : Drop → Bool) (id : ℕ) (ds : List Drop)
    → is_winnable id ds ≡ false
    → is_winnable id (find_many p ds) ≡ false
is_winnable-find_many p id [] h = refl
is_winnable-find_many p id (d ∷ ds) h = ground (arith, is_winnable-find_many p id ds)

add_drops-WonOnce :
    (fresh r id : ℕ) (l : List NewDrop) (s : Store)
    → IsFresh fresh s
    → WonOnce id s
    → WonOnce id (record s { drops = new_drops fresh r l ++ s.drops })
add_drops-WonOnce fresh r id l s new h = elim (dec_lt id fresh) [
  | yes old ↦ rw (is_winnable-new_drops fresh r id l s.drops old) h
  | no late ↦ rw (new id (omega arith)) (ground arith)
]

find_many-WonOnce :
    (p : Drop → Bool) (id : ℕ) (s : Store)
    → WonOnce id s
    → WonOnce id (record s { drops = find_many p s.drops })
find_many-WonOnce p id s h = elim (Bool-cases (is_winnable id s.drops)) [
  | inl is ↦ most (is_winnable id (find_many p s.drops)) (rw is at h)
  | inr not ↦ rw (is_winnable-find_many p id s.drops not) (omega arith)
]
  where
    most : (b : Bool) → won id s.receipts + 1 ≤ 1 → won id s.receipts + (if b then 1 else 0) ≤ 1
    most true k = k
    most false k = omega arith

-- One request keeps it that a drop that can be won has no receipt and none has two.
Step-WonOnce : (id : ℕ) {s t : Store} → Step s t → WonOnce id s → WonOnce id t
unfolding create add_reward add_drops remove_drops update update_reward
Step-WonOnce id (spins out cal roll pick w u now later s) h =
    spin-WonOnce out cal roll pick w u now later id s h
Step-WonOnce id (creates w r dto s) h = ground arith
Step-WonOnce id (adds_reward fresh r w dto s new) h =
    ground (arith, add_drops-WonOnce fresh r id dto.drops s new)
Step-WonOnce id (adds_drops fresh r drops s new) h =
    ground (arith, add_drops-WonOnce fresh r id drops s new)
Step-WonOnce id (removes_drops r ids s) h =
    ground (arith, find_many-WonOnce (λ d. not (any (λ i. i == d.id) ids)) id s)
Step-WonOnce id (updates w dto s) h = ground arith
Step-WonOnce id (updates_reward r dto s) h = ground arith

-- Whatever spins, creations, additions, removals and updates happen, in whatever order, no drop is
-- won twice, and one that can still be won was not won, if it is so at the start and new drops get
-- keys that no receipt names.
pub Reach-WonOnce : (id : ℕ) {s t : Store} → WonOnce id s → Reach s t → WonOnce id t
Reach-WonOnce id h here = h
Reach-WonOnce id h (next r step) = Step-WonOnce id step (Reach-WonOnce id h r)
