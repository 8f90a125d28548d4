-- ===== src/Comics/Status.antt =====
-- The comics of src/comic/comic.service.ts: creation, changes, publication and deletion. Texts, files,
-- mails and the cache are left out.
pub mod Deleted
pub mod Slugs
use d_reader_backend.Base.{
  ◌∷◌, false, ◌>>◌, nat_eq, update_where, is_some, ◌&&◌, not, modify, string_eq, ◌==◌, throw_if,
  List, find_first, throw, any, find_many, some, if◌then◌else◌, Option, Bool, none, String, ℕ,
}
use d_reader_backend.Comics.Model.{
  type_error, foreign_key, published, slug_taken, title_taken, comic_not_found, M, Library,
  ComicError, Comic, ComicIssue,
}

abbrev pub has_slug : String → Comic → Bool
has_slug slug c = c.slug == slug

-- `comic.update` by the slug
unfoldable pub update_comic : String → (Comic → Comic) → ComicError → M (Unit {0})
update_comic slug f e s =
    if any (has_slug slug) s.comics
    then modify (λ s. record s { comics = update_where (has_slug slug) f s.comics }) s
    else throw e s

-- `insensitive` is the database's comparison that ignores case
module _ (insensitive : String → String → Bool) where
  unfoldable pub throw_if_title_taken : String → M (Unit {0})
  throw_if_title_taken title s =
      throw_if (any (λ c. insensitive title c.title) s.comics) title_taken s

  unfoldable pub throw_if_slug_taken : String → M (Unit {0})
  throw_if_slug_taken slug s = throw_if (any (λ c. insensitive slug c.slug) s.comics) slug_taken s

-- `CreateComicDto`, without texts and links
pub record NewComic : Type 0 where
  pub title : String
  pub slug : String
  pub is_completed : Bool
  pub genres : List String

abbrev pub comic_of : ℕ → NewComic → ℕ → Comic
comic_of creator_id dto now = record {
  title = dto.title;
  slug = dto.slug;
  creator_id = creator_id;
  featured_at = none;
  verified_at = none;
  published_at = none;
  popularized_at = none;
  completed_at = if dto.is_completed then some now else none;
  genres = dto.genres;
}

module _ (insensitive : String → String → Bool) where
  -- `create`, by the creator of the user. Of the two checks, which run at once, the title's is named
  -- first where both fail.
  unfoldable pub create : ℕ → NewComic → ℕ → M (Unit {0})
  unfolding throw_if_title_taken throw_if_slug_taken
  create creator_id dto now = do
    throw_if_title_taken insensitive dto.title
    throw_if_slug_taken insensitive dto.slug
    modify (λ s. record s { comics = comic_of creator_id dto now ∷ s.comics })

-- `UpdateComicDto`, where a text that is missing or empty changes nothing
pub record ChangedComic : Type 0 where
  pub title : Option String
  pub new_slug : Option String
  pub is_completed : Option Bool
  pub genres : Option (List String)

-- `newSlug && slug !== newSlug`
abbrev pub is_renamed : String → Option String → Bool
is_renamed slug none = false
is_renamed slug (some t) = not (t == "") && not (slug == t)

abbrev pub slug_after : String → Option String → String
slug_after slug none = slug
slug_after slug (some t) = if t == "" then slug else t

abbrev or_same {ℓ} : {A : Type ℓ} → A → Option A → A
or_same a none = a
or_same a (some b) = b

abbrev completed_after : Option Bool → Option ℕ → ℕ → Option ℕ
completed_after none at now = at
completed_after (some c) at now = if c then (if is_some at then at else some now) else none

abbrev pub changed_comic : String → ChangedComic → ℕ → Comic → Comic
changed_comic slug dto now c = record c {
  title = or_same c.title dto.title;
  slug = slug_after slug dto.new_slug;
  completed_at = completed_after dto.is_completed c.completed_at now;
  genres = or_same c.genres dto.genres;
}

-- the new slug of a comic in the rows that refer to it, which the database writes
abbrev pub renamed : String → String → Library → Library
renamed slug t s = record s {
  issues = update_where (λ i. i.comic_slug == slug) (λ i. record i { comic_slug = t }) s.issues;
  user_comics =
      update_where (λ r. r.comic_slug == slug) (λ r. record r { comic_slug = t }) s.user_comics;
}

module _ (insensitive : String → String → Bool) where
  -- the check of a new slug
  abbrev pub throw_if_renamed_taken : String → Option String → M (Unit {0})
  throw_if_renamed_taken slug new_slug s =
      throw_if
        (is_renamed slug new_slug
          && any (λ c. insensitive (slug_after slug new_slug) c.slug) s.comics)
        slug_taken s

-- a comic that is not found is `null`, of which the genres are read
abbrev pub throw_if_missing : String → M (Unit {0})
throw_if_missing slug s = throw_if (not (any (has_slug slug) s.comics)) type_error s

module _ (insensitive : String → String → Bool) where
  -- `update`. New genres that are the old ones in another order write the same set.
  unfoldable pub update : String → ChangedComic → ℕ → M (Unit {0})
  unfolding update_comic
  update slug dto now = do
    throw_if_renamed_taken insensitive slug dto.new_slug
    throw_if_missing slug
    update_comic slug (changed_comic slug dto now) comic_not_found
    modify (renamed slug (slug_after slug dto.new_slug))

unfoldable pub publish : String → ℕ → M (Unit {0})
unfolding update_comic
publish slug now = update_comic slug (λ c. record c { published_at = some now }) comic_not_found

unfoldable pub unpublish : String → M (Unit {0})
unfolding update_comic
unpublish slug = update_comic slug (λ c. record c { published_at = none }) comic_not_found

-- `ComicStatusProperty`
pub data StatusProperty : Type 0 where
  published_property verified_property : StatusProperty

abbrev pub status_of : StatusProperty → Comic → Option ℕ
status_of published_property c = c.published_at
status_of verified_property c = c.verified_at

abbrev pub set_status : StatusProperty → Option ℕ → Comic → Comic
set_status published_property d c = record c { published_at = d }
set_status verified_property d c = record c { verified_at = d }

-- `toggleDate`, of the comic that is found
abbrev pub toggle_found : Option Comic → StatusProperty → ℕ → M (Unit {0})
toggle_found none p now = throw comic_not_found
toggle_found (some c) p now =
    update_comic c.slug (set_status p (if is_some (status_of p c) then none else some now))
      comic_not_found

unfoldable pub toggle_status : String → StatusProperty → ℕ → M (Unit {0})
unfolding update_comic
toggle_status slug p now s = toggle_found (find_first (has_slug slug) s.comics) p now s

abbrev pub of_comic : String → ComicIssue → Bool
of_comic slug i = i.comic_slug == slug

-- what the database deletes with the issues of a condition
abbrev pub without_issues : (ComicIssue → Bool) → Library → Library
without_issues p s =
    let gone : ℕ → Bool = λ id. any (λ i. (i.id == id) && p i) s.issues in
    record s {
      issues = find_many (λ i. not (p i)) s.issues;
      pages = find_many (λ g. not (gone g.comic_issue_id)) s.pages;
      user_comic_issues = find_many (λ r. not (gone r.comic_issue_id)) s.user_comic_issues;
    }

-- whether a collection refers to an issue of a condition, which the database then keeps
abbrev pub is_on_chain : (ComicIssue → Bool) → Library → Bool
is_on_chain p s = any (λ c. any (λ i. (i.id == c.comic_issue_id) && p i) s.issues) s.collections

-- `comic.delete`, with the issues and the readers of the comic
abbrev pub without_comic : String → Library → Library
without_comic slug s =
    let t = without_issues (of_comic slug) s in
    record t {
      comics = find_many (λ c. not (has_slug slug c)) s.comics;
      user_comics = find_many (λ r. not (r.comic_slug == slug)) s.user_comics;
    }

-- `delete`, of the comic that is found
abbrev pub delete_found : Option Comic → String → M (Unit {0})
delete_found none slug s = throw comic_not_found s
delete_found (some c) slug s =
    if is_some c.published_at
    then throw published s
    else if is_on_chain (of_comic slug) s
    then throw foreign_key s
    else modify (without_comic slug) s

unfoldable pub delete : String → M (Unit {0})
delete slug s = delete_found (find_first (has_slug slug) s.comics) slug s
