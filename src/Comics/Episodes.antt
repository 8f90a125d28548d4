-- ===== src/Comics/Episodes.antt =====
-- The issues of src/comic-issue/comic-issue.service.ts: creation, changes, publication off the chain
-- and deletion. Texts, files, covers, collaborators, mails and the cache are left out.
pub mod Core
pub mod OnChain
pub mod Taken
use d_reader_backend.Base.{
  gets, ◌>>=◌, ◌>>◌, update_where, is_some, ◌||◌, false, string_eq, ◌&&◌, modify, nat_eq, throw,
  any, some, ◌==◌, suc, not, if◌then◌else◌, ◌∷◌, throw_if, Bool, none, find_first, String, Option,
  ℕ,
}
use d_reader_backend.Comics.Model.{
  foreign_key, published, forbidden_creator, comic_not_found, number_taken, on_chain,
  issue_not_found, slug_taken, title_taken, M, Library, ComicError, Comic, ComicIssue,
}
use d_reader_backend.Comics.Status.{
  without_issues, is_on_chain, has_slug, StatusProperty, published_property, verified_property,
}

abbrev pub has_issue : ℕ → ComicIssue → Bool
has_issue id i = i.id == id

abbrev pub is_numbered : String → ℕ → ComicIssue → Bool
is_numbered comic_slug number i = (i.comic_slug == comic_slug) && (i.number == number)

abbrev pub is_slugged : String → String → ComicIssue → Bool
is_slugged comic_slug slug i = (i.comic_slug == comic_slug) && (i.slug == slug)

abbrev pub is_titled : String → String → ComicIssue → Bool
is_titled comic_slug title i = (i.comic_slug == comic_slug) && (i.title == title)

unfoldable pub throw_if_comic_slug_and_number_taken : String → ℕ → M (Unit {0})
throw_if_comic_slug_and_number_taken comic_slug number s =
    throw_if (any (is_numbered comic_slug number) s.issues) number_taken s

unfoldable pub throw_if_slug_and_comic_slug_taken : String → String → M (Unit {0})
throw_if_slug_and_comic_slug_taken slug comic_slug s =
    throw_if (any (is_slugged comic_slug slug) s.issues) slug_taken s

unfoldable pub throw_if_title_and_comic_slug_taken : String → String → M (Unit {0})
throw_if_title_and_comic_slug_taken title comic_slug s =
    throw_if (any (is_titled comic_slug title) s.issues) title_taken s

unfoldable pub throw_if_comic_is_published_on_chain : ℕ → M (Unit {0})
throw_if_comic_is_published_on_chain id s =
    throw_if (any (λ c. c.comic_issue_id == id) s.collections) on_chain s

-- `comicIssue.update` by the key
unfoldable pub update_row : ℕ → (ComicIssue → ComicIssue) → M (Unit {0})
update_row id f s =
    if any (has_issue id) s.issues
    then modify (λ s. record s { issues = update_where (has_issue id) f s.issues }) s
    else throw issue_not_found s

-- `CreateComicIssueDto`, without texts and files
pub record NewIssue : Type 0 where
  pub title : String
  pub slug : String
  pub number : ℕ
  pub comic_slug : String
  pub is_free_to_read : Bool

abbrev pub issue_of : ℕ → NewIssue → ComicIssue
issue_of id dto = record {
  id = id;
  number = dto.number;
  title = dto.title;
  slug = dto.slug;
  comic_slug = dto.comic_slug;
  is_free_to_read = dto.is_free_to_read;
  featured_at = none;
  verified_at = none;
  published_at = none;
  popularized_at = none;
}

abbrev pub add_issue : NewIssue → Library → Library
add_issue dto s = record s { issues = issue_of s.next_id dto ∷ s.issues; next_id = suc s.next_id }

-- the checks of the parent comic of a new issue
abbrev pub check_parent : Option Comic → ℕ → M (Unit {0})
check_parent none creator_id = throw comic_not_found
check_parent (some c) creator_id = throw_if (not (c.creator_id == creator_id)) forbidden_creator

-- `create`. Of the three checks, which run at once, the first that fails is named.
unfoldable pub create_issue : ℕ → NewIssue → M (Unit {0})
unfolding throw_if_comic_slug_and_number_taken throw_if_slug_and_comic_slug_taken
    throw_if_title_and_comic_slug_taken
create_issue creator_id dto = do
  throw_if_comic_slug_and_number_taken dto.comic_slug dto.number
  throw_if_slug_and_comic_slug_taken dto.slug dto.comic_slug
  throw_if_title_and_comic_slug_taken dto.title dto.comic_slug
  parent ← gets (λ s. find_first (has_slug dto.comic_slug) s.comics)
  check_parent parent creator_id
  modify (add_issue dto)

-- `UpdateComicIssueDto`
pub record ChangedIssue : Type 0 where
  pub title : Option String
  pub slug : Option String
  pub number : Option ℕ
  pub is_free_to_read : Option Bool

abbrev pub or_old {ℓ} : {A : Type ℓ} → A → Option A → A
or_old a none = a
or_old a (some b) = b

abbrev pub changed_issue : ChangedIssue → ComicIssue → ComicIssue
changed_issue dto i = record i {
  title = or_old i.title dto.title;
  slug = or_old i.slug dto.slug;
  number = or_old i.number dto.number;
  is_free_to_read = or_old i.is_free_to_read dto.is_free_to_read;
}

-- the unique keys of the table, for a row with other values than the rows of other keys
abbrev pub clashes : ComicIssue → ComicIssue → Bool
clashes i j =
    not (j.id == i.id)
    && (is_numbered i.comic_slug i.number j
        || is_slugged i.comic_slug i.slug j
        || is_titled i.comic_slug i.title j)

-- the write of `update`: the message of its `catch` is that the issue does not exist or is published
abbrev pub write_issue : ComicIssue → ChangedIssue → M (Unit {0})
write_issue i dto s =
    if any (clashes (changed_issue dto i)) s.issues
    then throw issue_not_found s
    else update_row i.id (changed_issue dto) s

-- `update`, of the issue that is found
abbrev pub update_found : Option ComicIssue → ChangedIssue → M (Unit {0})
update_found none dto s = throw issue_not_found s
update_found (some i) dto s =
    if (elim dto.number [ none ↦ false | some n ↦ not (i.number == n) ])
    then (throw_if_comic_slug_and_number_taken i.comic_slug (or_old i.number dto.number)
          >> write_issue i dto)
        s
    else write_issue i dto s

unfoldable pub update_issue : ℕ → ChangedIssue → M (Unit {0})
unfolding throw_if_comic_is_published_on_chain update_row throw_if_comic_slug_and_number_taken
update_issue id dto = do
  throw_if_comic_is_published_on_chain id
  i ← gets (λ s. find_first (has_issue id) s.issues)
  update_found i dto

abbrev pub publish_found : Option ComicIssue → ℕ → M (Unit {0})
publish_found none now s = throw issue_not_found s
publish_found (some i) now s =
    if is_some i.published_at
    then throw published s
    else update_row i.id (λ i. record i { published_at = some now }) s

unfoldable pub publish_off_chain : ℕ → ℕ → M (Unit {0})
unfolding update_row
publish_off_chain id now s = publish_found (find_first (has_issue id) s.issues) now s

unfoldable pub unpublish_issue : ℕ → M (Unit {0})
unfolding update_row
unpublish_issue id = update_row id (λ i. record i { published_at = none })

abbrev pub set_issue_status : StatusProperty → Option ℕ → ComicIssue → ComicIssue
set_issue_status published_property d i = record i { published_at = d }
set_issue_status verified_property d i = record i { verified_at = d }

abbrev pub issue_status_of : StatusProperty → ComicIssue → Option ℕ
issue_status_of published_property i = i.published_at
issue_status_of verified_property i = i.verified_at

abbrev pub toggle_issue_found : Option ComicIssue → StatusProperty → ℕ → M (Unit {0})
toggle_issue_found none p now = throw issue_not_found
toggle_issue_found (some i) p now =
    update_row i.id (set_issue_status p (if is_some (issue_status_of p i) then none else some now))

-- `toggleDate`
unfoldable pub toggle_issue_status : ℕ → StatusProperty → ℕ → M (Unit {0})
unfolding update_row
toggle_issue_status id p now s = toggle_issue_found (find_first (has_issue id) s.issues) p now s

-- `delete`, of the issue that is found
abbrev pub delete_issue_found : Option ComicIssue → ℕ → M (Unit {0})
delete_issue_found none id s = throw issue_not_found s
delete_issue_found (some i) id s =
    if is_some i.published_at
    then throw published s
    else if is_on_chain (has_issue id) s
    then throw foreign_key s
    else modify (without_issues (has_issue id)) s

unfoldable pub delete_issue : ℕ → M (Unit {0})
delete_issue id s = delete_issue_found (find_first (has_issue id) s.issues) id s
