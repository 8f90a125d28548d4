-- ===== src/Comics/Status/Slugs.antt =====
-- The slugs of comics under the requests to src/comic/comic.service.ts.
use d_reader_backend.Base.{
  count_where-left, none-of_same, IsEuclidean, find_first, sym, if◌then◌else◌, continue_both,
  is_some, ◌∙◌, count_where-update_where, count_where-update_none, Bool-cases, inr, inl, not, refl,
  none, count_where-none, ap, update_where, some, ◌&&◌, false, true, eq_iff, Option, ◌⊎◌, Bool,
  arith, string_eq, count_where-same, any, after_check, Result, [], ◌≤◌, if_both, count_where,
  Keeps, ◌∷◌, ◌≡◌, String, List, ℕ,
}
use d_reader_backend.Comics.Model.{comic_not_found, M, Library, ComicError, Comic}
use d_reader_backend.Comics.Status.{
  published_property, verified_property, of_comic, status_of, is_on_chain, set_status, toggle_found,
  changed_comic, is_renamed, slug_after, delete, toggle_status, throw_if_slug_taken, unpublish,
  throw_if_title_taken, publish, create, update_comic, has_slug, delete_found, update, NewComic,
  ChangedComic, StatusProperty,
}

pub data ComicRequest : Type 0 where
  creates : (creator_id : ℕ) (dto : NewComic) (now : ℕ) → ComicRequest
  changes : (slug : String) (dto : ChangedComic) (now : ℕ) → ComicRequest
  publishes : (slug : String) (now : ℕ) → ComicRequest
  unpublishes : (slug : String) → ComicRequest
  toggles : (slug : String) (p : StatusProperty) (now : ℕ) → ComicRequest
  deletes : (slug : String) → ComicRequest

module _ (insensitive : String → String → Bool) where
  abbrev pub respond : ComicRequest → M (Unit {0})
  respond (creates creator_id dto now) = create insensitive creator_id dto now
  respond (changes slug dto now) = update insensitive slug dto now
  respond (publishes slug now) = publish slug now
  respond (unpublishes slug) = unpublish slug
  respond (toggles slug p now) = toggle_status slug p now
  respond (deletes slug) = delete slug

  abbrev pub respond_all : List ComicRequest → Library → Library
  respond_all [] s = s
  respond_all (r ∷ rs) s = respond_all rs (respond r s).1

  -- no two comics of a slug, up to case
  abbrev pub HasSlugs : Library → Type 0
  HasSlugs s = (t : String) → count_where (λ c. insensitive t c.slug) s.comics ≤ 1

count_where-kept {ℓ} :
    {A : Type ℓ} (p q : A → Bool) (f : A → A) (xs : List A)
    → ((x : A) → q x ≡ true → p (f x) ≡ p x)
    → count_where p (update_where q f xs) ≡ count_where p xs
count_where-kept p q f [] h = refl
count_where-kept p q f (x ∷ xs) h = ground (arith, h x, count_where-kept p q f xs h)

own_slug :
    (slug : String) (o : Option String) → is_renamed slug o ≡ false → slug_after slug o ≡ slug
own_slug slug none h = refl
own_slug slug (some t) h = ground (arith, h, eq_iff slug t)

set_status-slug : (p : StatusProperty) (d : Option ℕ) (c : Comic) → (set_status p d c).slug ≡ c.slug
set_status-slug published_property d c = refl
set_status-slug verified_property d c = refl

exact-same :
    (same : String → String → Bool)
    → ((a : String) → same a a ≡ true)
    → (t : String) (cs : List Comic)
    → count_where (has_slug t) cs ≤ count_where (λ c. same t c.slug) cs
exact-same same self t [] = omega arith
exact-same same self t (c ∷ cs) =
    ground
      (arith, exact-same same self t cs, self t, eq_iff c.slug t, ap (same t) {x = c.slug} {y = t})

module _ (insensitive : String → String → Bool) (self : (t : String) → insensitive t t ≡ true)
    (law : IsEuclidean insensitive) where
  abbrev Slugs : Library → Type 0
  Slugs = HasSlugs insensitive

  abbrev slug_in : String → Comic → Bool
  slug_in t c = insensitive t c.slug

  update_comic-Keeps :
      (slug : String) (f : Comic → Comic) (e : ComicError)
      → ((c : Comic) → (f c).slug ≡ c.slug)
      → Keeps Slugs (update_comic slug f e)
  unfolding update_comic
  update_comic-Keeps slug f e same s h =
      if_both (λ (m : Result ComicError (Unit {0}) × Library). Slugs m.1)
        (any (has_slug slug) s.comics) _ _
        (λ t. rw (count_where-same (slug_in t) (has_slug slug) f s.comics (λ c. rw (same c))) (h t))
        h

  create-Keeps :
      (creator_id : ℕ) (dto : NewComic) (now : ℕ)
      → Keeps Slugs (create insensitive creator_id dto now)
  unfolding create throw_if_title_taken throw_if_slug_taken
  create-Keeps creator_id dto now s h =
      after_check Slugs (any (λ c. insensitive dto.title c.title) s.comics) _ _ s h (λ _.
        after_check Slugs (any (slug_in dto.slug) s.comics) _ _ s h (λ free t. ground (
          arith,
          h t,
          none-of_same insensitive law (λ c. c.slug) t dto.slug s.comics,
          count_where-none (slug_in t) s.comics,
          free,
        )))

  -- the rows after a comic has got a slug, its own or one that no comic has
  renamed_rows :
      (slug new t : String) (f : Comic → Comic) (cs : List Comic)
      → ((c : Comic) → (f c).slug ≡ new)
      → (new ≡ slug) ⊎ (any (slug_in new) cs ≡ false)
      → ((x : String) → count_where (slug_in x) cs ≤ 1)
      → count_where (slug_in t) (update_where (has_slug slug) f cs) ≤ 1
  renamed_rows slug new t f cs fs (inl e) h = omega (
    arith,
    h t,
    count_where-kept (slug_in t) (has_slug slug) f cs
        (λ c k. ap (insensitive t) (fs c ∙ e ∙ sym ((eq_iff c.slug slug).0 k))),
  )
  renamed_rows slug new t f cs fs (inr free) h = elim (Bool-cases (insensitive t new)) [
    | inl e ↦ omega (
      arith,
      h slug,
      exact-same insensitive self slug cs,
      count_where-update_none (slug_in t) (has_slug slug) f cs
          (none-of_same insensitive law (λ c. c.slug) t new cs e free),
    )
    | inr e ↦ omega (
      arith,
      h t,
      count_where-update_where (slug_in t) (has_slug slug) f cs
          (λ c _ _. ap (insensitive t) (fs c) ∙ e),
    )
  ]

  update-Keeps :
      (slug : String) (dto : ChangedComic) (now : ℕ) → Keeps Slugs (update insensitive slug dto now)
  unfolding update update_comic
  update-Keeps slug dto now s h =
      let new = slug_after slug dto.new_slug in
      after_check Slugs (is_renamed slug dto.new_slug && any (slug_in new) s.comics) _ _ s h
        (λ free. after_check Slugs (not (any (has_slug slug) s.comics)) _ _ s h (λ _.
          let f : Comic → Comic = changed_comic slug dto now in
          let own : (new ≡ slug) ⊎ (any (slug_in new) s.comics ≡ false) =
            elim (Bool-cases (is_renamed slug dto.new_slug)) [
              | inl e ↦ inr (ground (arith, free, e))
              | inr e ↦ inl (own_slug slug dto.new_slug e)
            ] in
          let written : Slugs (update_comic slug f comic_not_found s).1 =
            if_both (λ (m : Result ComicError (Unit {0}) × Library). Slugs m.1)
              (any (has_slug slug) s.comics) _ _
              (λ t. renamed_rows slug new t f s.comics (λ c. refl) own h) h in
          continue_both (λ r. Slugs r.1) _ (update_comic slug f comic_not_found s) (λ _ _. written)
            (λ _ _. written)))

  toggle_found-Keeps :
      (o : Option Comic) (p : StatusProperty) (now : ℕ) → Keeps Slugs (toggle_found o p now)
  toggle_found-Keeps none p now s h = h
  toggle_found-Keeps (some c) p now s h =
      let d = if is_some (status_of p c) then none else some now in
      update_comic-Keeps c.slug (set_status p d) comic_not_found (set_status-slug p d) s h

  delete_found-Keeps : (o : Option Comic) (slug : String) → Keeps Slugs (delete_found o slug)
  delete_found-Keeps none slug s h = h
  delete_found-Keeps (some c) slug s h =
      if_both (λ (m : Result ComicError (Unit {0}) × Library). Slugs m.1) (is_some c.published_at) _
        _ h
        (if_both (λ (m : Result ComicError (Unit {0}) × Library). Slugs m.1)
          (is_on_chain (of_comic slug) s) _ _ h
          (λ t.
            omega (arith, h t, count_where-left (slug_in t) (λ c. not (has_slug slug c)) s.comics)))

  respond-Keeps : (r : ComicRequest) → Keeps Slugs (respond insensitive r)
  unfolding publish unpublish toggle_status delete
  respond-Keeps (creates creator_id dto now) = create-Keeps creator_id dto now
  respond-Keeps (changes slug dto now) = update-Keeps slug dto now
  respond-Keeps (publishes slug now) = update_comic-Keeps slug _ comic_not_found (λ c. refl)
  respond-Keeps (unpublishes slug) = update_comic-Keeps slug _ comic_not_found (λ c. refl)
  respond-Keeps (toggles slug p now) =
      λ s. toggle_found-Keeps (find_first (has_slug slug) s.comics) p now s
  respond-Keeps (deletes slug) =
      λ s. delete_found-Keeps (find_first (has_slug slug) s.comics) slug s

-- Where the comparison that ignores case sorts the texts into classes: whatever requests of the comic
-- service are made, in whatever order and with whatever result, no two comics have the same slug up
-- to case, if that is so at the start.
pub respond_all-HasSlugs :
    (insensitive : String → String → Bool) (self : (t : String) → insensitive t t ≡ true)
    (law : IsEuclidean insensitive) (rs : List ComicRequest) (s : Library)
    → HasSlugs insensitive s
    → HasSlugs insensitive (respond_all insensitive rs s)
respond_all-HasSlugs insensitive self law [] s h = h
respond_all-HasSlugs insensitive self law (r ∷ rs) s h =
    respond_all-HasSlugs insensitive self law rs (respond insensitive r s).1
      (respond-Keeps insensitive self law r s h)
