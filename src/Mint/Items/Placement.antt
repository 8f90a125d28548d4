-- ===== src/Mint/Items/Placement.antt =====
-- Where the items that src/utils/candy-machine.ts loads into a candy machine come to stand.
use d_reader_backend.Base.{
  subst, nat_eq, ◌==◌, All, find_first, if_both, sym, ap, ◌∙◌, ℕ, zero, suc, ◌+◌, ◌-◌, ◌*◌, ◌/◌,
  ◌≤◌, ◌≡◌, refl, String, Option, none, some, List, [], ◌∷◌, ◌++◌, arith, length, sum_of, min,
}
use native.Mathlib.Nat.{add-zero, zero-add, suc-add}
use mathlib.Core.List.{append_assoc}
use mathlib.Core.Path.{ap₂}
use d_reader_backend.Mint.Items.{
  Item, Config, InsertItems, numbered_items, insert_chunks, insert_core_items, insert_batches,
  insert_configs, cons_config, insert_some, unused_unsigned, of_rarity, insert_shares,
  get_rarity_share_table, batch_insert_core_items, rarity_configs, RarityShare, ItemMetadata,
}

-- an item's place in the machine, and the number in its name
abbrev pub place : ℕ → List Item → List (ℕ × ℕ)
place i [] = []
place i (item ∷ items) = (i, item.number) ∷ place (suc i) items

abbrev pub placed : List InsertItems → List (ℕ × ℕ)
placed [] = []
placed (t ∷ ts) = place t.index t.items ++ placed ts

abbrev pub flatten : List (List Item) → List Item
flatten [] = []
flatten (xs ∷ xss) = xs ++ flatten xss

-- the places i, i + 1, … with the numbers that follow the current supply
abbrev pub in_order : ℕ → ℕ → ℕ → List (ℕ × ℕ)
in_order current i zero = []
in_order current i (suc n) = (i, suc (current + i)) ∷ in_order current (suc i) n

place-append :
    (i : ℕ) (xs ys : List Item) → place i (xs ++ ys) ≡ place i xs ++ place (i + length xs) ys
place-append i [] ys = rw add-zero
place-append i (x ∷ xs) ys = ground (arith, place-append (suc i) xs ys)

placed-append : (xs ys : List InsertItems) → placed (xs ++ ys) ≡ placed xs ++ placed ys
placed-append [] ys = refl
placed-append (x ∷ xs) ys = simp (placed-append xs ys, append_assoc)

placed-insert_chunks :
    (i : ℕ) (chunks : List (List Item)) → placed (insert_chunks i chunks) ≡ place i (flatten chunks)
unfolding insert_chunks
placed-insert_chunks i [] = refl
placed-insert_chunks i (c ∷ cs) =
    rw (place-append i c (flatten cs), placed-insert_chunks (i + length c) cs)

place-numbered_items :
    (uri : String) (current i n : ℕ)
    → place i (numbered_items uri (current + i) n) ≡ in_order current i n
unfolding numbered_items
place-numbered_items uri current i zero = refl
place-numbered_items uri current i (suc n) =
    let shift : suc (current + i) ≡ current + suc i = omega arith in
    ap (λ l. (i, suc (current + i)) ∷ l)
      (ap (λ k. place (suc i) (numbered_items uri k n)) shift
        ∙ place-numbered_items uri current (suc i) n)

in_order-add :
    (current i m n : ℕ)
    → in_order current i (m + n) ≡ in_order current i m ++ in_order current (i + m) n
in_order-add current i zero n = rw (zero-add, add-zero)
in_order-add current i (suc m) n = rw suc-add (ground (arith, in_order-add current (suc i) m n))

module _ (chunk : List Item → ℕ → List (List Item)) (current : ℕ)
    (keeps : (xs : List Item) (n : ℕ) → flatten (chunk xs n) ≡ xs) where
  placed-insert_core_items :
      (i : ℕ) (uri : String) (n : ℕ)
      → placed (insert_core_items chunk current i uri n) ≡ in_order current i n
  unfolding insert_core_items
  placed-insert_core_items i uri n =
      let items : List Item = numbered_items uri (current + i) n in
      placed-insert_chunks i (chunk items 8)
      ∙ ap (place i) (keeps items 8)
      ∙ place-numbered_items uri current i n

  placed-insert_batches :
      (fuel i : ℕ) (uri : String) (left : ℕ)
      → left ≤ fuel
      → placed (insert_batches chunk current fuel i uri left) ≡ in_order current i left
  unfolding insert_batches
  placed-insert_batches zero i uri zero h = refl
  placed-insert_batches zero i uri (suc left) h = absurd (omega arith)
  placed-insert_batches (suc fuel) i uri zero h = refl
  placed-insert_batches (suc fuel) i uri (suc left) h =
      let now : ℕ = min 200 (suc left) in
      let whole : now + (suc left - now) ≡ suc left = omega arith in
      placed-append (insert_core_items chunk current i uri now)
        (insert_batches chunk current fuel (i + now) uri (suc left - now))
      ∙ ap₂ (λ a b. a ++ b) (placed-insert_core_items i uri now)
          (placed-insert_batches fuel (i + now) uri (suc left - now) (omega arith))
      ∙ sym (in_order-add current i now (suc left - now))
      ∙ ap (in_order current i) whole

  placed-insert_configs :
      (i : ℕ) (configs : List Config)
      → placed (insert_configs chunk current i configs)
        ≡ in_order current i (sum_of (λ c. c.supply) configs)
  unfolding insert_configs
  placed-insert_configs i [] = refl
  placed-insert_configs i (c ∷ configs) =
      placed-append (insert_batches chunk current c.supply i c.uri c.supply)
        (insert_configs chunk current (i + c.supply) configs)
      ∙ ap₂ (λ a b. a ++ b) (placed-insert_batches c.supply i c.uri c.supply (omega arith))
          (placed-insert_configs (i + c.supply) configs)
      ∙ sym (in_order-add current i c.supply (sum_of (λ x. x.supply) configs))

-- the shares but the last
abbrev shares_but_last : List RarityShare → ℕ
shares_but_last [] = 0
shares_but_last (x ∷ []) = 0
shares_but_last (x ∷ y ∷ shares) = x.value + shares_but_last (y ∷ shares)

cons_config-sum :
    (item : Option ItemMetadata) (supply : ℕ) (rest : Option (List Config)) (configs : List Config)
    → cons_config item supply rest ≡ some configs
    → (r : List Config) × (rest ≡ some r)
      × (sum_of (λ c. c.supply) configs ≡ supply + sum_of (λ c. c.supply) r)
cons_config-sum none supply rest configs e = absurd (cc)
cons_config-sum (some item) supply none configs e = absurd (cc)
cons_config-sum (some item) supply (some r) configs e = (r, refl, ground arith)

-- What is given to the shares adds up to what was left.
rarity_configs-sum :
    (metadatas : List ItemMetadata) (total left : ℕ) (x : RarityShare) (shares : List RarityShare)
    (configs : List Config)
    → total * shares_but_last (x ∷ shares) ≤ left * 100
    → rarity_configs metadatas total left (x ∷ shares) ≡ some configs
    → sum_of (λ c. c.supply) configs ≡ left
unfolding rarity_configs
rarity_configs-sum metadatas total left x [] configs h e =
    let (r, none_left, sum) = cons_config-sum _ _ _ configs e in ground arith
rarity_configs-sum metadatas total left x (y ∷ shares) configs h e =
    let given : ℕ = total * x.value / 100 in
    let (r, rest, sum) = cons_config-sum _ given _ configs e in
    let ih = rarity_configs-sum metadatas total (left - given) y shares r (omega arith) rest in
    omega arith

abbrev HasMetadata : List ItemMetadata → RarityShare → Type 0
HasMetadata metadatas x =
    (item : ItemMetadata) × (find_first (of_rarity x.rarity) metadatas ≡ some item)

rarity_configs-some :
    (metadatas : List ItemMetadata) (total left : ℕ) (shares : List RarityShare)
    → All (HasMetadata metadatas) shares
    → (configs : List Config) × (rarity_configs metadatas total left shares ≡ some configs)
unfolding rarity_configs
rarity_configs-some metadatas total left [] h = ([], refl)
rarity_configs-some metadatas total left (x ∷ []) ((item, e), h) =
    (record { supply = left; uri = item.uri } ∷ [], ap (λ o. cons_config o left (some [])) e)
rarity_configs-some metadatas total left (x ∷ y ∷ shares) ((item, e), h) =
    let given : ℕ = total * x.value / 100 in
    let (configs, k) = rarity_configs-some metadatas total (left - given) (y ∷ shares) h in
    (record { supply = given; uri = item.uri } ∷ configs, ap₂ (λ o r. cons_config o given r) e k)

-- a table of shares, of 100 in all
abbrev IsTable : List RarityShare → Type 0
IsTable [] = ⊥
IsTable (x ∷ shares) = shares_but_last (x ∷ shares) ≤ 100

abbrev IsTable? : Option (List RarityShare) → Type 0
IsTable? none = Unit
IsTable? (some shares) = IsTable shares

get_rarity_share_table-IsTable : (n : ℕ) → IsTable? (get_rarity_share_table n)
unfolding get_rarity_share_table
get_rarity_share_table-IsTable n =
    if_both IsTable? (n == 3) _ _ (omega arith)
      (if_both IsTable? (n == 5) _ _ (omega arith) (if_both IsTable? (n == 1) _ _ (omega arith) tt))

module _ (chunk : List Item → ℕ → List (List Item)) (current supply : ℕ) where
  shares-in_order :
      (metadatas : List ItemMetadata) (shares : List RarityShare)
      → ((xs : List Item) (n : ℕ) → flatten (chunk xs n) ≡ xs)
      → IsTable shares
      → All (HasMetadata metadatas) shares
      → (inserted : List InsertItems) × (insert_shares chunk current metadatas supply (some shares)
          ≡ some inserted)
        × (placed inserted ≡ in_order current 0 supply)
  shares-in_order metadatas [] keeps t h = absurd t
  shares-in_order metadatas (x ∷ shares) keeps t h =
      let (configs, e) = rarity_configs-some metadatas supply supply (x ∷ shares) h in
      let sum = rarity_configs-sum metadatas supply supply x shares configs (grind arith) e in
      (
        insert_configs chunk current 0 configs,
        ap (insert_some chunk current) e,
        placed-insert_configs chunk current keeps 0 configs ∙ ap (in_order current 0) sum,
      )

  -- Where there is a table of shares for the number of the unused and unsigned metadata, and one of
  -- them for each of its rarities, the items are loaded, and they fill the places 0, 1, … of the
  -- machine up to the supply, without gap or overlap, and are numbered on from the current
  -- supply, for any function that cuts a list into chunks and loses nothing.
  pub batch_insert-in_order :
      (metadatas : List ItemMetadata) (shares : List RarityShare)
      → ((xs : List Item) (n : ℕ) → flatten (chunk xs n) ≡ xs)
      → get_rarity_share_table (length (unused_unsigned metadatas)) ≡ some shares
      → All (HasMetadata (unused_unsigned metadatas)) shares
      → (inserted : List InsertItems) × (batch_insert_core_items chunk current metadatas supply
          ≡ some inserted)
        × (placed inserted ≡ in_order current 0 supply)
  unfolding batch_insert_core_items
  batch_insert-in_order metadatas shares keeps e h =
      let table : IsTable? (some shares) =
        subst IsTable? e (get_rarity_share_table-IsTable (length (unused_unsigned metadatas))) in
      rw e (shares-in_order (unused_unsigned metadatas) shares keeps table h)
