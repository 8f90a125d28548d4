-- ===== src/Chain/Linked.antt =====
-- The rows of collectible comics that src/webhooks/helius/helius.service.ts writes refer to rows that
-- exist.
use d_reader_backend.Chain.Indexing.{set_comic}
pub mod Kept
pub mod Minted
pub mod All
use d_reader_backend.Base.{
  sym, inr, refl, inl, [], string_eq, ◌∙◌, ◌⊎◌, ap, count_where-none, ◌≤◌, eq_iff, update_where,
  false, true, ◌==◌, ◌≡◌, any, count_where, arith, List, String, ◌∷◌, ℕ,
}
use d_reader_backend.Chain.Model.{
  has_collection, has_wallet, has_asset, has_metadata, has_comic, Index, Wallet, Asset, Comic,
  Metadata, Collection,
}

pub record LinkedRows (ws : List Wallet) (xs : List Asset) (cs : List Comic) (ms : List Metadata)
    (ks : List Collection) : Type 0 where
  pub once_asset : (a : String) → count_where (λ x. x.address == a) xs ≤ 1
  pub once_comic : (a : String) → count_where (λ x. x.address == a) cs ≤ 1
  pub once_metadata : (u : String) → count_where (λ m. m.uri == u) ms ≤ 1
  pub comic_is_asset :
      (a : String) → any (λ x. x.address == a) cs ≡ true → any (λ x. x.address == a) xs ≡ true
  pub comic_has_metadata :
      (u : String) → any (λ x. x.uri == u) cs ≡ true → any (λ m. m.uri == u) ms ≡ true
  pub metadata_of_collection :
      (a : String)
      → any (λ m. m.collection_address == a) ms ≡ true
      → any (λ k. k.address == a) ks ≡ true
  pub owner_has_wallet :
      (w : String) → any (λ x. x.owner_address == w) xs ≡ true → any (λ x. x.address == w) ws ≡ true

abbrev pub Linked : Index → Type 0
Linked s = LinkedRows s.wallets s.assets s.comics s.metadatas s.collections

pub add_wallet-Linked :
    (w : Wallet) (s : Index) → Linked s → Linked (record s { wallets = w ∷ s.wallets })
add_wallet-Linked w s h = record {
  once_asset = h.once_asset;
  once_comic = h.once_comic;
  once_metadata = h.once_metadata;
  comic_is_asset = h.comic_is_asset;
  comic_has_metadata = h.comic_has_metadata;
  metadata_of_collection = h.metadata_of_collection;
  owner_has_wallet = λ a p. ground (arith, h.owner_has_wallet a);
}

pub add_metadata-Linked :
    (m : Metadata) (s : Index)
    → Linked s
    → has_metadata m.uri s ≡ false
    → has_collection m.collection_address s ≡ true
    → Linked (record s { metadatas = m ∷ s.metadatas })
add_metadata-Linked m s h fresh known = record {
  once_asset = h.once_asset;
  once_comic = h.once_comic;
  once_metadata = λ u. ground (
    arith,
    h.once_metadata u,
    eq_iff m.uri u,
    count_where-none (λ x. x.uri == m.uri) s.metadatas,
  );
  comic_is_asset = h.comic_is_asset;
  comic_has_metadata = λ u p. ground (arith, h.comic_has_metadata u);
  metadata_of_collection =
      λ a p. ground (arith, h.metadata_of_collection a, eq_iff m.collection_address a);
  owner_has_wallet = h.owner_has_wallet;
}

pub add_asset-Linked :
    (x : Asset) (s : Index)
    → Linked s
    → has_asset x.address s ≡ false
    → has_wallet x.owner_address s ≡ true
    → Linked (record s { assets = x ∷ s.assets })
add_asset-Linked x s h fresh known = record {
  once_asset = λ a. ground (
    arith,
    h.once_asset a,
    eq_iff x.address a,
    count_where-none (λ y. y.address == x.address) s.assets,
  );
  once_comic = h.once_comic;
  once_metadata = h.once_metadata;
  comic_is_asset = λ a p. ground (arith, h.comic_is_asset a);
  comic_has_metadata = h.comic_has_metadata;
  metadata_of_collection = h.metadata_of_collection;
  owner_has_wallet = λ w p. ground (arith, h.owner_has_wallet w, eq_iff x.owner_address w);
}

pub add_comic-Linked :
    (c : Comic) (s : Index)
    → Linked s
    → has_comic c.address s ≡ false
    → has_asset c.address s ≡ true
    → has_metadata c.uri s ≡ true
    → Linked (record s { comics = c ∷ s.comics })
add_comic-Linked c s h fresh an_asset known = record {
  once_asset = h.once_asset;
  once_comic = λ a. ground (
    arith,
    h.once_comic a,
    eq_iff c.address a,
    count_where-none (λ y. y.address == c.address) s.comics,
  );
  once_metadata = h.once_metadata;
  comic_is_asset = λ a p. ground (arith, h.comic_is_asset a, eq_iff c.address a);
  comic_has_metadata = λ u p. ground (arith, h.comic_has_metadata u, eq_iff c.uri u);
  metadata_of_collection = h.metadata_of_collection;
  owner_has_wallet = h.owner_has_wallet;
}

-- an update of comics that gives one of them this metadata
module _ (a uri : String) (f : Comic → Comic) where
  abbrev pub Gives : Type 0
  Gives = (c : Comic) → ((f c).address ≡ c.address) × ((f c).uri ≡ uri)

  count_where-set_comic :
      (b : String) (cs : List Comic)
      → Gives
      → count_where (λ x. x.address == b) (update_where (λ x. x.address == a) f cs)
        ≡ count_where (λ x. x.address == b) cs
  count_where-set_comic b [] g = refl
  count_where-set_comic b (c ∷ cs) g = ground (
    arith,
    g c,
    count_where-set_comic b cs g,
    ap (λ k. k == b) {x = (f c).address} {y = c.address},
  )

  any-set_comic :
      (b : String) (cs : List Comic)
      → Gives
      → any (λ x. x.address == b) (update_where (λ x. x.address == a) f cs)
        ≡ any (λ x. x.address == b) cs
  any-set_comic b [] g = refl
  any-set_comic b (c ∷ cs) g =
      ground
        (arith, g c, any-set_comic b cs g, ap (λ k. k == b) {x = (f c).address} {y = c.address})

  any-set_uri :
      (u : String) (cs : List Comic)
      → Gives
      → any (λ x. x.uri == u) (update_where (λ x. x.address == a) f cs) ≡ true
      → (any (λ x. x.uri == u) cs ≡ true) ⊎ (uri ≡ u)
  any-set_uri u [] g p = absurd (cc)
  any-set_uri u (c ∷ cs) g p = ground (arith, g c, any-set_uri u cs g, eq_iff (f c).uri u)

  pub set_comic-Linked :
      (s : Index) → Gives → Linked s → has_metadata uri s ≡ true → Linked (set_comic a f s)
  set_comic-Linked s g h known = record {
    once_asset = h.once_asset;
    once_comic = λ b. ground (arith, h.once_comic b, count_where-set_comic b s.comics g);
    once_metadata = h.once_metadata;
    comic_is_asset = λ b p. h.comic_is_asset b (sym (any-set_comic b s.comics g) ∙ p);
    comic_has_metadata = λ u p. elim (any-set_uri u s.comics g p) [
      | inl old ↦ h.comic_has_metadata u old
      | inr new ↦ ap (λ k. has_metadata k s) (sym new) ∙ known
    ];
    metadata_of_collection = h.metadata_of_collection;
    owner_has_wallet = h.owner_has_wallet;
  }

-- an update of assets that gives one of them this owner
module _ (a owner : String) (now : ℕ) where
  abbrev pub own : Asset → Asset
  own x = record x { owner_address = owner; owner_changed_at = now }

  count_where-own :
      (b : String) (xs : List Asset)
      → count_where (λ x. x.address == b) (update_where (λ x. x.address == a) own xs)
        ≡ count_where (λ x. x.address == b) xs
  count_where-own b [] = refl
  count_where-own b (x ∷ xs) = ground (arith, count_where-own b xs)

  any-own :
      (b : String) (xs : List Asset)
      → any (λ x. x.address == b) (update_where (λ x. x.address == a) own xs)
        ≡ any (λ x. x.address == b) xs
  any-own b [] = refl
  any-own b (x ∷ xs) = ground (arith, any-own b xs)

  any-owner :
      (w : String) (xs : List Asset)
      → any (λ x. x.owner_address == w) (update_where (λ x. x.address == a) own xs) ≡ true
      → (any (λ x. x.owner_address == w) xs ≡ true) ⊎ (owner ≡ w)
  any-owner w [] p = absurd (cc)
  any-owner w (x ∷ xs) p = ground (arith, any-owner w xs, eq_iff owner w)

  pub own-Linked :
      (s : Index)
      → Linked s
      → has_wallet owner s ≡ true
      → Linked (record s { assets = update_where (λ x. x.address == a) own s.assets })
  own-Linked s h known = record {
    once_asset = λ b. ground (arith, h.once_asset b, count_where-own b s.assets);
    once_comic = h.once_comic;
    once_metadata = h.once_metadata;
    comic_is_asset = λ b p. any-own b s.assets ∙ h.comic_is_asset b p;
    comic_has_metadata = h.comic_has_metadata;
    metadata_of_collection = h.metadata_of_collection;
    owner_has_wallet = λ w p. elim (any-owner w s.assets p) [
      | inl old ↦ h.owner_has_wallet w old
      | inr new ↦ ap (λ k. has_wallet k s) (sym new) ∙ known
    ];
  }
