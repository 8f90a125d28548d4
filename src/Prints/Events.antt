-- ===== src/Prints/Events.antt =====
-- The rows of the sale of print editions, whatever src/webhooks/helius/helius.service.ts handles.
use d_reader_backend.Base.{
  ap, count_where-none, ◌||◌, none, eq_iff, nat_eq, if_cases, refl, some, string_eq, [], ok, false,
  sym, ◌∙◌, err, ◌≡◌, Bool, true, Option, ◌≤◌, update_where, count_where, is_some, ◌==◌, arith, not,
  ◌∷◌, any, ℕ, List, Result, String,
}
use d_reader_backend.Prints.Model.{find_collection, Asset, ShopError, Shop, M, SaleConfig}
use d_reader_backend.Prints.{
  new_config, with_edition, renew, find_collection, ShopError, String, Result, any, ℕ, List,
  InitSale, handle_init_edition_sale, handle_buy_edition, handle_asset_burn,
}

-- one event of the chain, with what the calls of the chain give
pub data Event : Type 0 where
  sale_opened : (x : InitSale) (fetched : Result ShopError (Option ℕ)) → Event
  edition_bought :
      (address owner collection : String) (fetched : Result ShopError ℕ) (now : ℕ) → Event
  burned : (address : String) → Event

abbrev pub handle : Event → M (Unit {0})
handle (sale_opened x fetched) = handle_init_edition_sale x fetched
handle (edition_bought address owner collection fetched now) =
    handle_buy_edition address owner collection fetched now
handle (burned address) = handle_asset_burn address

-- the events in their order, each whatever became of those before
abbrev pub handle_all : List Event → Shop → Shop
handle_all [] s = s
handle_all (e ∷ es) s = handle_all es (handle e s).1

-- no sale counts a minted item
abbrev pub NothingCounted : Shop → Type 0
NothingCounted s = any (λ c. not (c.items_minted == 0)) s.configs ≡ false

pub record WellFormed (s : Shop) : Type 0 where
  pub once_asset : (a : String) → count_where (λ x. x.address == a) s.assets ≤ 1
  pub once_edition : (a : String) → count_where (λ x. x.address == a) s.editions ≤ 1
  pub once_config : (a : String) → count_where (λ x. x.collection_address == a) s.configs ≤ 1
  pub edition_is_asset :
      (a : String)
      → any (λ x. x.address == a) s.editions ≡ true
      → any (λ x. x.address == a) s.assets ≡ true
  pub edition_of_collection :
      (a : String)
      → any (λ x. x.collection_address == a) s.editions ≡ true
      → is_some (find_collection a s) ≡ true
  pub config_of_collection :
      (a : String)
      → any (λ x. x.collection_address == a) s.configs ≡ true
      → is_some (find_collection a s) ≡ true
  pub owner_has_wallet :
      (w : String)
      → any (λ x. x.owner_address == w) s.assets ≡ true
      → any (λ x. x == w) s.wallets ≡ true

-- a new sale of a collection keeps which collections have sales
module _ (a : String) (x : InitSale) (supply : ℕ) where
  count_where-renew :
      (cs : List SaleConfig)
      → count_where
          (λ c. c.collection_address == a)
          (update_where (λ c. c.collection_address == x.collection) (renew x supply) cs)
        ≡ count_where (λ c. c.collection_address == a) cs
  count_where-renew [] = refl
  count_where-renew (c ∷ cs) = ground (arith, count_where-renew cs)

  any-renew :
      (cs : List SaleConfig)
      → any
          (λ c. c.collection_address == a)
          (update_where (λ c. c.collection_address == x.collection) (renew x supply) cs)
        ≡ any (λ c. c.collection_address == a) cs
  any-renew [] = refl
  any-renew (c ∷ cs) = ground (arith, any-renew cs)

renewed-WellFormed :
    (x : InitSale) (supply : ℕ) (s : Shop)
    → WellFormed s
    → WellFormed (record s {
      configs = update_where (λ c. c.collection_address == x.collection) (renew x supply) s.configs;
    })
renewed-WellFormed x supply s h = record {
  once_asset = h.once_asset;
  once_edition = h.once_edition;
  once_config = λ a. ground (arith, h.once_config a, count_where-renew a x supply s.configs);
  edition_is_asset = h.edition_is_asset;
  edition_of_collection = h.edition_of_collection;
  config_of_collection = λ a p. h.config_of_collection a (sym (any-renew a x supply s.configs) ∙ p);
  owner_has_wallet = h.owner_has_wallet;
}

created-WellFormed :
    (x : InitSale) (supply : ℕ) (s : Shop)
    → WellFormed s
    → is_some (find_collection x.collection s) ≡ true
    → any (λ c. c.collection_address == x.collection) s.configs ≡ false
    → WellFormed (record s { configs = new_config x supply ∷ s.configs })
created-WellFormed x supply s h known fresh = record {
  once_asset = h.once_asset;
  once_edition = h.once_edition;
  once_config = λ a. ground (
    arith,
    h.once_config a,
    eq_iff x.collection a,
    count_where-none (λ c. c.collection_address == x.collection) s.configs,
  );
  edition_is_asset = h.edition_is_asset;
  edition_of_collection = h.edition_of_collection;
  config_of_collection = λ a p. ground (
    arith,
    h.config_of_collection a,
    eq_iff x.collection a,
    ap (λ b. is_some (find_collection b s)) {x = x.collection} {y = a},
  );
  owner_has_wallet = h.owner_has_wallet;
}

handle_init_edition_sale-WellFormed :
    (x : InitSale) (fetched : Result ShopError (Option ℕ)) (s : Shop)
    → WellFormed s
    → WellFormed (handle_init_edition_sale x fetched s).1
unfolding handle_init_edition_sale
handle_init_edition_sale-WellFormed x (err e) s h = h
handle_init_edition_sale-WellFormed x (ok none) s h = h
handle_init_edition_sale-WellFormed x (ok (some supply)) s h =
    if_cases (λ (m : Result ShopError (Unit {0}) × Shop). WellFormed m.1)
      (not (is_some (find_collection x.collection s))) _ _ (λ _. h)
      (λ known.
        if_cases (λ (m : Result ShopError (Unit {0}) × Shop). WellFormed m.1)
          (any (λ c. c.collection_address == x.collection) s.configs) _ _
          (λ _. renewed-WellFormed x supply s h)
          (λ fresh. created-WellFormed x supply s h (ground arith) fresh))

with_edition-WellFormed :
    (address owner collection : String) (number now : ℕ) (s : Shop)
    → WellFormed s
    → any (λ a. a.address == address) s.assets ≡ false
    → any (λ e. e.address == address) s.editions ≡ false
    → is_some (find_collection collection s) ≡ true
    → WellFormed (with_edition address owner collection number now s)
with_edition-WellFormed address owner collection number now s h no_asset no_edition known = record {
  once_asset = λ a. ground (
    arith,
    h.once_asset a,
    eq_iff address a,
    count_where-none (λ c. c.address == address) s.assets,
  );
  once_edition = λ a. ground (
    arith,
    h.once_edition a,
    eq_iff address a,
    count_where-none (λ c. c.address == address) s.editions,
  );
  once_config = h.once_config;
  edition_is_asset = λ a p. ground (arith, h.edition_is_asset a);
  edition_of_collection = λ a p. ground (
    arith,
    h.edition_of_collection a,
    eq_iff collection a,
    ap (λ b. is_some (find_collection b s)) {x = collection} {y = a},
  );
  config_of_collection = h.config_of_collection;
  owner_has_wallet = λ w p. ground (arith, h.owner_has_wallet w, eq_iff owner w);
}

handle_buy_edition-WellFormed :
    (address owner collection : String) (fetched : Result ShopError ℕ) (now : ℕ) (s : Shop)
    → WellFormed s
    → WellFormed (handle_buy_edition address owner collection fetched now s).1
unfolding handle_buy_edition
handle_buy_edition-WellFormed address owner collection (err e) now s h = h
handle_buy_edition-WellFormed address owner collection (ok number) now s h =
    if_cases (λ (m : Result ShopError (Unit {0}) × Shop). WellFormed m.1)
      (any (λ a. a.address == address) s.assets || any (λ e. e.address == address) s.editions) _ _
      (λ _. h)
      (λ free.
        if_cases (λ (m : Result ShopError (Unit {0}) × Shop). WellFormed m.1)
          (not (is_some (find_collection collection s))) _ _ (λ _. h)
          (λ known.
            with_edition-WellFormed address owner collection number now s h (ground arith)
              (ground arith) (ground arith)))

-- a burned asset stays
module _ (address : String) where
  count_where-burn :
      (a : String) (xs : List Asset)
      → count_where
          (λ x. x.address == a)
          (update_where (λ x. x.address == address) (λ x. record x { is_burned = true }) xs)
        ≡ count_where (λ x. x.address == a) xs
  count_where-burn a [] = refl
  count_where-burn a (x ∷ xs) = ground (arith, count_where-burn a xs)

  any-burn :
      (p : Asset → Bool) (xs : List Asset)
      → ((x : Asset) → p (record x { is_burned = true }) ≡ p x)
      → any p (update_where (λ x. x.address == address) (λ x. record x { is_burned = true }) xs)
        ≡ any p xs
  any-burn p [] k = refl
  any-burn p (x ∷ xs) k = ground (arith, any-burn p xs k, k x)

handle_asset_burn-WellFormed :
    (address : String) (s : Shop) → WellFormed s → WellFormed (handle_asset_burn address s).1
unfolding handle_asset_burn
handle_asset_burn-WellFormed address s h = record {
  once_asset = λ a. ground (arith, h.once_asset a, count_where-burn address a s.assets);
  once_edition = h.once_edition;
  once_config = h.once_config;
  edition_is_asset =
      λ a p. any-burn address (λ x. x.address == a) s.assets (λ x. refl) ∙ h.edition_is_asset a p;
  edition_of_collection = h.edition_of_collection;
  config_of_collection = h.config_of_collection;
  owner_has_wallet = λ w p.
      h.owner_has_wallet w
        (sym (any-burn address (λ x. x.owner_address == w) s.assets (λ x. refl)) ∙ p);
}

handle-WellFormed : (e : Event) (s : Shop) → WellFormed s → WellFormed (handle e s).1
handle-WellFormed (sale_opened x fetched) s h = handle_init_edition_sale-WellFormed x fetched s h
handle-WellFormed (edition_bought address owner collection fetched now) s h =
    handle_buy_edition-WellFormed address owner collection fetched now s h
handle-WellFormed (burned address) s h = handle_asset_burn-WellFormed address s h

-- Whatever events of print editions are handled, in whatever order and with whatever result: an
-- asset, an edition and a sale are there once, an edition is an asset, an edition and a sale are of
-- a collection that exists, and an owner has a wallet, if that is so at the start.
pub WellFormed-handle_all :
    (events : List Event) (s : Shop) → WellFormed s → WellFormed (handle_all events s)
WellFormed-handle_all [] s h = h
WellFormed-handle_all (e ∷ es) s h =
    WellFormed-handle_all es (handle e s).1 (handle-WellFormed e s h)
