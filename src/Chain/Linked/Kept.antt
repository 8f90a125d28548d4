-- ===== src/Chain/Linked/Kept.antt =====
-- Each handler of collectible comics in src/webhooks/helius/helius.service.ts keeps what refers to
-- what.
use d_reader_backend.Chain.Handlers.{set_owner, upsert_asset, create_indexed, update_metadata}
use d_reader_backend.Chain.Metadata.{same_key, connect_metadata}
use d_reader_backend.Base.{
  Keeps-bind, nat_eq, after_check, throw_if, modify, some, string_eq, inr, err, ok, inl, ◌∙◌,
  Bool-cases, ap, ◌==◌, refl, eq_refl, arith, not, ◌∷◌, none, any, if_cases, ◌>>◌, true, ◌≡◌,
  continue, Result, Keeps, String, ℕ,
}
use d_reader_backend.Chain.Model.{
  record_not_found, has_comic, has_collection, has_wallet, has_asset, has_metadata, Index, M,
  ChainError, Metadata, Comic,
}
use d_reader_backend.Chain.Indexing.{
  Reply, subscribe_to, set_comic, write_comic, DasAsset, roll_back, upsert_comic, in_transaction,
  with_asset, create_comic, with_wallet, create_asset,
}
use d_reader_backend.Chain.Linked.{
  set_comic-Linked, own-Linked, add_comic-Linked, has_comic, add_asset-Linked, add_metadata-Linked,
  has_collection, add_wallet-Linked, has_asset, has_metadata, has_wallet, Linked,
}

abbrev pub KeepsLinked : {A : Type 0} → M A → Type 0
KeepsLinked m = Keeps Linked m

-- what follows a part that leads to one of two ends
abbrev After : {A B : Type 0} → (A → M B) → Result ChainError A × Index → Type 0
After k r = Linked (continue k r).1

with_wallet-Linked : (a : String) (s : Index) → Linked s → Linked (with_wallet a s)
with_wallet-Linked a s h = elim (Bool-cases (has_wallet a s)) [
  | inl known ↦ rw known h
  | inr fresh ↦ rw fresh (add_wallet-Linked (record { address = a; user_id = none }) s h)
]

has_wallet-with_wallet : (a : String) (s : Index) → has_wallet a (with_wallet a s) ≡ true
has_wallet-with_wallet a s = ground (arith, eq_refl a)

connect_metadata-then :
    {B : Type 0} (m : Metadata) (k : M B) (s : Index)
    → Linked s
    → ((t : Index) → Linked t → has_metadata m.uri t ≡ true → Linked (k t).1)
    → Linked ((connect_metadata m >> k) s).1
unfolding connect_metadata
connect_metadata-then {B = B} m k s h n =
    if_cases (λ (r : Result ChainError (Unit {0}) × Index). Linked (continue (λ _. k) r).1)
      (has_metadata m.uri s) _ _ (λ known. n s h known)
      (λ fresh.
        if_cases (λ (r : Result ChainError (Unit {0}) × Index). Linked (continue (λ _. k) r).1)
          (any (same_key m) s.metadatas) _ _ (λ _. h)
          (λ free.
            if_cases (λ (r : Result ChainError (Unit {0}) × Index). Linked (continue (λ _. k) r).1)
              (not (has_collection m.collection_address s)) _ _ (λ _. h)
              (λ known.
                n (record s { metadatas = m ∷ s.metadatas })
                  (add_metadata-Linked m s h fresh (ground arith))
                  (ground (arith, eq_refl m.uri)))))

create_asset-then :
    {B : Type 0} (address owner : String) (now : ℕ) (k : M B) (s : Index)
    → Linked s
    → ((t : Index)
        → Linked t
        → has_asset address t ≡ true
        → t.metadatas ≡ s.metadatas
        → Linked (k t).1)
    → Linked ((create_asset address owner now >> k) s).1
unfolding create_asset
create_asset-then {B = B} address owner now k s h n =
    if_cases (λ (r : Result ChainError (Unit {0}) × Index). Linked (continue (λ _. k) r).1)
      (has_asset address s) _ _ (λ _. h)
      (λ fresh.
        n (with_asset address owner now (with_wallet owner s))
          (add_asset-Linked
            (record { address = address; owner_address = owner; owner_changed_at = now })
            (with_wallet owner s) (with_wallet-Linked owner s h) fresh
            (has_wallet-with_wallet owner s))
          (ground (arith, eq_refl address)) refl)

create_comic-Linked :
    (c : Comic) (s : Index)
    → Linked s
    → has_asset c.address s ≡ true
    → has_metadata c.uri s ≡ true
    → Linked (create_comic c s).1
unfolding create_comic
create_comic-Linked c s h an_asset known =
    if_cases (λ (r : Result ChainError (Unit {0}) × Index). Linked r.1)
      (any (λ m. m.address == c.machine) s.machines) _ _
      (λ _.
        if_cases (λ (r : Result ChainError (Unit {0}) × Index). Linked r.1) (has_comic c.address s)
          _ _ (λ _. h) (λ fresh. add_comic-Linked c s h fresh an_asset known))
      (λ _. h)

pub in_transaction-Linked : {A : Type 0} (m : M A) → KeepsLinked m → KeepsLinked (in_transaction m)
in_transaction-Linked {A = A} m h s one = rolled (m s) (h s one)
  where
    rolled : (r : Result ChainError A × Index) → Linked r.1 → Linked (roll_back s r).1
    rolled (ok a, t) k = k
    rolled (err e, t) k = one

-- a new comic whose metadata is there
new_comic-Linked :
    (c : Comic) (owner : String) (now : ℕ) (s : Index)
    → Linked s
    → has_metadata c.uri s ≡ true
    → Linked ((create_asset c.address owner now >> create_comic c) s).1
new_comic-Linked c owner now s h known =
    create_asset-then c.address owner now (create_comic c) s h
      (λ t l x e. create_comic-Linked c t l x (ap (λ ms. any (λ m. m.uri == c.uri) ms) e ∙ known))

write_comic-Linked :
    (uri address : String) (asset : DasAsset) (machine : String) (receipt now : ℕ) (s : Index)
    → Linked s
    → has_metadata uri s ≡ true
    → Linked (write_comic uri address asset machine receipt now s).1
write_comic-Linked uri address asset machine receipt now s h known =
    let c : Comic = record {
      address = address;
      name = asset.name;
      uri = uri;
      machine = machine;
      receipt_id = some receipt;
    } in
    if_cases (λ (r : Result ChainError (Unit {0}) × Index). Linked r.1) (has_comic address s) _ _
      (λ _.
        set_comic-Linked address uri (λ c. record c { uri = uri; receipt_id = some receipt }) s
          (λ c. (refl, refl)) h known)
      (λ _. new_comic-Linked c asset.owner_address now s h known)

pub upsert_comic-Linked :
    (m : Metadata) (address : String) (asset : DasAsset) (machine : String) (receipt now : ℕ)
    → KeepsLinked (upsert_comic m address asset machine receipt now)
unfolding upsert_comic
upsert_comic-Linked m address asset machine receipt now =
    let write : M (Unit {0}) = write_comic m.uri address asset machine receipt now in
    let connect : M (Unit {0}) = connect_metadata m >> write in
    let check : M (Unit {0}) =
      λ s. throw_if (not (any (λ r. r.id == receipt) s.receipts)) record_not_found s in
    in_transaction-Linked (check >> connect) (λ s h.
      after_check Linked (not (any (λ r. r.id == receipt) s.receipts)) record_not_found connect s h
        (λ _.
          connect_metadata-then m write s h
            (λ t l known. write_comic-Linked m.uri address asset machine receipt now t l known)))

pub update_metadata-Linked : (mint : String) (m : Metadata) → KeepsLinked (update_metadata mint m)
unfolding update_metadata
update_metadata-Linked mint m s h =
    let f : Comic → Comic = λ c. record c { uri = m.uri } in
    if_cases (λ (r : Result ChainError (Unit {0}) × Index). Linked r.1) (has_comic mint s) _ _
      (λ _.
        connect_metadata-then m (modify (set_comic mint f)) s h
          (λ t l known. set_comic-Linked mint m.uri f t (λ c. (refl, refl)) l known))
      (λ _. h)

pub set_owner-Linked :
    (address owner : String) (now : ℕ) → KeepsLinked (set_owner address owner now)
set_owner-Linked address owner now s h =
    own-Linked address owner now (with_wallet owner s) (with_wallet-Linked owner s h)
      (has_wallet-with_wallet owner s)

pub create_indexed-Linked :
    (address : String) (asset : DasAsset) (m : Metadata) (machine : String) (now : ℕ)
    → KeepsLinked (create_indexed address asset m machine now)
create_indexed-Linked address asset m machine now s h =
    let c : Comic = record {
      address = address;
      name = asset.name;
      uri = m.uri;
      machine = machine;
      receipt_id = none;
    } in
    connect_metadata-then m (create_asset address asset.owner_address now >> create_comic c) s h
      (λ t l known. new_comic-Linked c asset.owner_address now t l known)

pub upsert_asset-Linked :
    (address : String) (asset : DasAsset) (m : Metadata) (machine : String) (now : ℕ)
    → KeepsLinked (upsert_asset address asset m machine now)
upsert_asset-Linked address asset m machine now s h =
    let own : M (Unit {0}) = set_owner address asset.owner_address now in
    if_cases (λ (r : Result ChainError (Unit {0}) × Index). Linked r.1) (has_asset address s) _ _
      (λ _.
        Keeps-bind Linked own (λ _. update_metadata address m)
          (set_owner-Linked address asset.owner_address now) (λ _. update_metadata-Linked address m)
          s h)
      (λ _. create_indexed-Linked address asset m machine now s h)

pub subscribe_to-Linked :
    (reply : Reply (Unit {0})) (a : String) → KeepsLinked (subscribe_to reply a)
unfolding subscribe_to
subscribe_to-Linked (err e) a s h = h
subscribe_to-Linked (ok u) a s h = h
