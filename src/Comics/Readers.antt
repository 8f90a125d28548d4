-- ===== src/Comics/Readers.antt =====
-- What readers do with a comic: src/comic/user-comic.service.ts. The reader is a user that exists.
-- Notifications and the feed of the creator are left out.
pub mod Rows
pub mod Dates
pub mod Counts
pub mod Issues
use d_reader_backend.Base.{
  nat_eq, throw, string_eq, modify, is_some, ◌&&◌, ◌==◌, any, false, Bool, count_where, pure,
  find_first, update_where, some, if◌then◌else◌, none, String, ◌∷◌, Option, ℕ,
}
use d_reader_backend.Comics.Model.{foreign_key, M, Library, UserComic, ComicError}

-- the dates of a `UserComic`
pub data ComicDate : Type 0 where
  subscribed favourited bookmarked viewed : ComicDate

abbrev pub date_of : ComicDate → UserComic → Option ℕ
date_of subscribed r = r.subscribed_at
date_of favourited r = r.favourited_at
date_of bookmarked r = r.bookmarked_at
date_of viewed r = r.viewed_at

abbrev pub set_date : ComicDate → Option ℕ → UserComic → UserComic
set_date subscribed d r = record r { subscribed_at = d }
set_date favourited d r = record r { favourited_at = d }
set_date bookmarked d r = record r { bookmarked_at = d }
set_date viewed d r = record r { viewed_at = d }

-- the key of the table
abbrev pub is_user_comic : String → ℕ → UserComic → Bool
is_user_comic slug u r = (r.comic_slug == slug) && (r.user_id == u)

abbrev pub new_user_comic : String → ℕ → UserComic
new_user_comic slug u = record {
  comic_slug = slug;
  user_id = u;
  rating = none;
  subscribed_at = none;
  favourited_at = none;
  bookmarked_at = none;
  viewed_at = none;
}

abbrev pub add_user_comic : UserComic → Library → Library
add_user_comic r s = record s { user_comics = r ∷ s.user_comics }

abbrev pub set_user_comic : String → ℕ → (UserComic → UserComic) → Library → Library
set_user_comic slug u f s = record s {
  user_comics = update_where (is_user_comic slug u) f s.user_comics;
}

-- `userComic.upsert`, where the update and the new row write the same fields
unfoldable pub upsert_user_comic :
    String → ℕ → (created updated : UserComic → UserComic) → M (Unit {0})
upsert_user_comic slug u created updated s =
    if any (is_user_comic slug u) s.user_comics
    then modify (set_user_comic slug u updated) s
    else if any (λ c. c.slug == slug) s.comics
    then modify (add_user_comic (created (new_user_comic slug u))) s
    else throw foreign_key s

abbrev pub is_dated : ComicDate → Option UserComic → Bool
is_dated p none = false
is_dated p (some r) = is_some (date_of p r)

-- `toggleDate`
unfoldable pub toggle_date : ℕ → String → ComicDate → ℕ → M (Unit {0})
unfolding upsert_user_comic
toggle_date u slug p now s =
    let dated = is_dated p (find_first (is_user_comic slug u) s.user_comics) in
    upsert_user_comic slug u (set_date p (some now)) (set_date p (if dated then none else some now))
      s

unfoldable pub favouritise : ℕ → String → ℕ → M (Unit {0})
unfolding toggle_date
favouritise u slug now = toggle_date u slug favourited now

unfoldable pub bookmark : ℕ → String → ℕ → M (Unit {0})
unfolding toggle_date
bookmark u slug now = toggle_date u slug bookmarked now

unfoldable pub rate : ℕ → String → ℕ → M (Unit {0})
unfolding upsert_user_comic
rate u slug rating =
    upsert_user_comic slug u (λ r. record r { rating = some rating })
      (λ r. record r { rating = some rating })

-- `getUserStats`, of a user that may be missing
unfoldable pub get_user_stats : String → Option ℕ → ℕ → M (Unit {0})
unfolding upsert_user_comic
get_user_stats slug none now s = pure tt s
get_user_stats slug (some u) now s =
    upsert_user_comic slug u (set_date viewed (some now)) (set_date viewed (some now)) s

-- `getFavouriteCount`, `getBookmarkCount` and `getViewerCount`
unfoldable pub count_dated : ComicDate → String → Library → ℕ
count_dated p slug s =
    count_where (λ r. (r.comic_slug == slug) && is_some (date_of p r)) s.user_comics
