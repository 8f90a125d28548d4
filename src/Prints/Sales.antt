-- ===== src/Prints/Sales.antt =====
-- How the sales that src/webhooks/helius/helius.service.ts stores are seen by `buyPrintEdition` of
-- src/auction-house/auction-house.service.ts.
use d_reader_backend.Base.{
  ltb, inl, inr, Bool-cases, eq_iff, find_first-update_where, ◌≢◌, find_first-holds, ◌∙◌, ◌≤◌,
  any-find_first, find_first_of_any, ◌*◌, true, eq_refl, ◌<◌, Result, refl, none, nat_eq, ap,
  string_eq, find_first, arith, update_where, false, ◌≡◌, ◌==◌, some, [], String, ok, not, any, ◌∷◌,
  err, Option, Bool, ℕ, List,
}
use d_reader_backend.Prints.Model.{
  ended, not_started, not_active, find_asset, ◌and_then◌, type_error, ShopError, find_config,
  find_collection, found, sold_out, Shop, SaleConfig, Collection, Asset,
}
use d_reader_backend.Prints.{
  ended, not_started, not_active, milliseconds, date_or_zero, find_asset, ShopError, type_error,
  find_config, find_collection, found, sold_out, buy_on_sale, ℕ, assert_print_edition_sale_config,
  List, InitSale, handle_init_edition_sale, handle_buy_edition, handle_asset_burn,
  buy_print_edition, new_config, renew,
}
use d_reader_backend.Prints.Events.{
  burned, edition_bought, sale_opened, Event, handle, handle_all, NothingCounted,
}

renew-uncounted :
    (x : InitSale) (supply : ℕ) (cs : List SaleConfig)
    → any
        (λ c. not (c.items_minted == 0))
        (update_where (λ c. c.collection_address == x.collection) (renew x supply) cs)
      ≡ any (λ c. not (c.items_minted == 0)) cs
renew-uncounted x supply [] = refl
renew-uncounted x supply (c ∷ cs) = ground (arith, renew-uncounted x supply cs)

handle-NothingCounted : (e : Event) (s : Shop) → NothingCounted s → NothingCounted (handle e s).1
unfolding handle_init_edition_sale handle_buy_edition handle_asset_burn
handle-NothingCounted (sale_opened x (err e)) s h = h
handle-NothingCounted (sale_opened x (ok none)) s h = h
handle-NothingCounted (sale_opened x (ok (some supply))) s h =
    ground (arith, renew-uncounted x supply s.configs)
handle-NothingCounted (edition_bought address owner collection (err e) now) s h = h
handle-NothingCounted (edition_bought address owner collection (ok n) now) s h = ground arith
handle-NothingCounted (burned address) s h = h

handle_all-NothingCounted :
    (events : List Event) (s : Shop) → NothingCounted s → NothingCounted (handle_all events s)
handle_all-NothingCounted [] s h = h
handle_all-NothingCounted (e ∷ es) s h =
    handle_all-NothingCounted es (handle e s).1 (handle-NothingCounted e s h)

uncounted-zero :
    (p : SaleConfig → Bool) (cs : List SaleConfig) (c : SaleConfig)
    → any (λ c. not (c.items_minted == 0)) cs ≡ false
    → find_first p cs ≡ some c
    → c.items_minted ≡ 0
uncounted-zero p [] c h e = absurd (cc)
uncounted-zero p (x ∷ xs) c h e =
    ground (arith, uncounted-zero p xs c, ap (λ k. k.items_minted) {x = x} {y = c})

sold_out-supply :
    (collection : Collection) (c : Option SaleConfig) (buyer : String) (now : ℕ) (s : Shop)
    → ((k : SaleConfig) → c ≡ some k → k.items_minted ≡ 0)
    → buy_on_sale c collection buyer now s ≡ err sold_out
    → (k : SaleConfig) × (c ≡ some k) × (k.supply ≡ 0)
unfolding assert_print_edition_sale_config
sold_out-supply collection none buyer now s h e = absurd (cc)
sold_out-supply collection (some c) buyer now s h e = (c, refl, ground (arith, h c refl))

sold_out-found :
    (o : Option Collection) (c : Option SaleConfig) (buyer : String) (now : ℕ) (s : Shop)
    → ((k : SaleConfig) → c ≡ some k → k.items_minted ≡ 0)
    → (found o type_error and_then λ x. buy_on_sale c x buyer now s) ≡ err sold_out
    → (k : SaleConfig) × (c ≡ some k) × (k.supply ≡ 0)
sold_out-found none c buyer now s h e = absurd (cc)
sold_out-found (some x) c buyer now s h e = sold_out-supply x c buyer now s h e

-- Where no sale counts a minted item, none does after any events, so that `buyPrintEdition` answers
-- that all editions are sold only where the supply of the sale is 0, however many editions of it
-- were bought.
pub buy_print_edition-handle_all :
    (address buyer : String) (now : ℕ) (events : List Event) (s : Shop)
    → NothingCounted s
    → buy_print_edition address buyer now (handle_all events s) ≡ err sold_out
    → (c : SaleConfig) × (find_config address (handle_all events s) ≡ some c) × (c.supply ≡ 0)
unfolding buy_print_edition
buy_print_edition-handle_all address buyer now events s h e =
    let t : Shop = handle_all events s in
    sold_out-found (find_collection address t) (find_config address t) buyer now t
      (λ k found_it.
        uncounted-zero (λ c. c.collection_address == address) t.configs k
          (handle_all-NothingCounted events s h) found_it)
      e

-- the configuration after a sale was opened: a new one, or the old one with the new terms
abbrev opened : Option SaleConfig → InitSale → ℕ → SaleConfig
opened none x supply = new_config x supply
opened (some c) x supply = renew x supply c

-- the currency of a sale that was opened again is the old one
abbrev pub sale_currency : Option SaleConfig → InitSale → String
sale_currency none x = x.currency_mint
sale_currency (some c) x = c.currency_mint

find_config-handle_init_edition_sale :
    (x : InitSale) (supply : ℕ) (s : Shop) (collection : Collection) (o : Option SaleConfig)
    → find_collection x.collection s ≡ some collection
    → find_config x.collection s ≡ o
    → find_config x.collection (handle_init_edition_sale x (ok (some supply)) s).1
      ≡ some (opened o x supply)
unfolding handle_init_edition_sale
find_config-handle_init_edition_sale x supply s collection none known e = ground (
  arith,
  eq_refl x.collection,
  find_first_of_any (λ c. c.collection_address == x.collection) s.configs,
)
find_config-handle_init_edition_sale x supply s collection (some c) known e = ground (
  arith,
  any-find_first (λ c. c.collection_address == x.collection) s.configs c,
  find_first-holds (λ c. c.collection_address == x.collection) s.configs c,
  find_first-update_where (λ c. c.collection_address == x.collection)
      (λ c. c.collection_address == x.collection) (renew x supply) s.configs c (λ k. refl),
)

init_sale-rest :
    (x : InitSale) (fetched : Result ShopError (Option ℕ)) (s : Shop)
    → let t = (handle_init_edition_sale x fetched s).1 in
      (t.collections ≡ s.collections) × (t.assets ≡ s.assets)
unfolding handle_init_edition_sale
init_sale-rest x (err e) s = (refl, refl)
init_sale-rest x (ok none) s = (refl, refl)
init_sale-rest x (ok (some n)) s = ground arith

-- a sale that runs
record Runs (c : SaleConfig) (now : ℕ) : Type 0 where
  pub active : c.is_active ≡ true
  pub started : date_or_zero c.start_date ≤ now
  pub not_over : now < date_or_zero c.end_date
  pub left : c.items_minted ≢ c.supply

buy_on_sale-Runs :
    (c : SaleConfig) (collection : Collection) (a : Asset) (buyer : String) (now : ℕ) (s : Shop)
    → Runs c now
    → find_asset collection.address s ≡ some a
    → buy_on_sale (some c) collection buyer now s
      ≡ ok (record {
        collection = collection.address;
        seller = a.owner_address;
        buyer = buyer;
        currency_mint = c.currency_mint;
      })
unfolding assert_print_edition_sale_config
buy_on_sale-Runs c collection a buyer now s r e =
    ground (arith, r.active, r.started, r.not_over, r.left)

opened-Runs :
    (o : Option SaleConfig) (x : InitSale) (supply start end now : ℕ)
    → ((c : SaleConfig) → o ≡ some c → c.items_minted ≡ 0)
    → 0 < supply
    → x.start_date ≡ some start
    → x.end_date ≡ some end
    → start * 1000 ≤ now
    → now < end * 1000
    → Runs (opened o x supply) now
opened-Runs none x supply start end now h some_supply st en p q = record {
  active = refl;
  started = ground arith;
  not_over = ground arith;
  left = ground arith;
}
opened-Runs (some c) x supply start end now h some_supply st en p q = record {
  active = refl;
  started = ground arith;
  not_over = ground arith;
  left = ground (arith, h c refl);
}

currency-opened :
    (o : Option SaleConfig) (x : InitSale) (supply : ℕ)
    → (opened o x supply).currency_mint ≡ sale_currency o x
currency-opened none x supply = refl
currency-opened (some c) x supply = refl

-- A sale of a collection that exists, which the webhook opened with both dates and a supply, where no sale counts
-- a minted item, is on sale between these dates: `buyPrintEdition` returns the transaction that buys
-- from the owner of the collection. Its currency is that of the instruction if the collection had no sale
-- before, and else that of the former sale.
pub buy_print_edition-handle_init_edition_sale :
    (x : InitSale) (supply start end now : ℕ) (buyer : String) (collection : Collection) (a : Asset)
    (s : Shop)
    → find_collection x.collection s ≡ some collection
    → find_asset x.collection s ≡ some a
    → NothingCounted s
    → 0 < supply
    → x.start_date ≡ some start
    → x.end_date ≡ some end
    → start * 1000 ≤ now
    → now < end * 1000
    → buy_print_edition x.collection buyer now (handle_init_edition_sale x (ok (some supply)) s).1
      ≡ ok (record {
        collection = x.collection;
        seller = a.owner_address;
        buyer = buyer;
        currency_mint = sale_currency (find_config x.collection s) x;
      })
unfolding buy_print_edition
buy_print_edition-handle_init_edition_sale x supply start end now buyer collection a s known asset
      uncounted some_supply st en p q =
    let o = find_config x.collection s in
    let t = (handle_init_edition_sale x (ok (some supply)) s).1 in
    let rest = init_sale-rest x (ok (some supply)) s in
    let known_then : find_collection x.collection t ≡ some collection =
      ap (λ cs. find_first (λ c. c.address == x.collection) cs) rest.0 ∙ known in
    let asset_then : find_asset x.collection t ≡ some a =
      ap (λ cs. find_first (λ c. c.address == x.collection) cs) rest.1 ∙ asset in
    let config_then = find_config-handle_init_edition_sale x supply s collection o known refl in
    let same : collection.address ≡ x.collection =
      (eq_iff collection.address x.collection).0
        (find_first-holds (λ c. c.address == x.collection) s.collections collection known) in
    let runs =
      opened-Runs o x supply start end now
        (λ c e. uncounted-zero (λ c. c.collection_address == x.collection) s.configs c uncounted e)
        some_supply st en p q in
    ap
      (λ f. found f type_error and_then λ k. buy_on_sale (find_config x.collection t) k buyer now t)
      known_then
    ∙ ap (λ f. buy_on_sale f collection buyer now t) config_then
    ∙ buy_on_sale-Runs (opened o x supply) collection a buyer now t runs
        (ap (λ k. find_asset k t) same ∙ asset_then)
    ∙ ground (arith, same, currency-opened o x supply)

assert-ended :
    (c : SaleConfig) (now : ℕ)
    → c.end_date ≡ none
    → (e : ShopError) × (assert_print_edition_sale_config c now ≡ err e)
unfolding assert_print_edition_sale_config
assert-ended c now never = elim (Bool-cases c.is_active) [
  | inr off ↦ (not_active, ground arith)
  | inl runs ↦ elim (Bool-cases (ltb now (date_or_zero c.start_date))) [
    | inl early ↦ (not_started, ground arith)
    | inr late ↦ (ended, ground arith)
  ]
]

-- A first sale of a collection that exists, which was opened without an end date, is never on sale.
pub buy_print_edition-ended :
    (x : InitSale) (supply now : ℕ) (buyer : String) (collection : Collection) (s : Shop)
    → find_collection x.collection s ≡ some collection
    → find_config x.collection s ≡ none
    → x.end_date ≡ none
    → (e : ShopError) × (buy_print_edition x.collection buyer now
          (handle_init_edition_sale x (ok (some supply)) s).1
        ≡ err e)
unfolding buy_print_edition
buy_print_edition-ended x supply now buyer collection s known fresh never =
    let t = (handle_init_edition_sale x (ok (some supply)) s).1 in
    let rest = init_sale-rest x (ok (some supply)) s in
    let known_then : find_collection x.collection t ≡ some collection =
      ap (λ cs. find_first (λ c. c.address == x.collection) cs) rest.0 ∙ known in
    let config_then = find_config-handle_init_edition_sale x supply s collection none known fresh in
    let (e, refused) = assert-ended (new_config x supply) now (ap milliseconds never) in
    (
      e,
      ap
            (λ f. found f type_error and_then λ k.
              buy_on_sale (find_config x.collection t) k buyer now t)
            known_then
          ∙ ap (λ f. buy_on_sale f collection buyer now t) config_then
          ∙ ap
              (λ r. r and_then λ _. found (find_asset collection.address t) type_error and_then λ a.
                ok (record {
                  collection = collection.address;
                  seller = a.owner_address;
                  buyer = buyer;
                  currency_mint = x.currency_mint;
                }))
              refused,
    )
