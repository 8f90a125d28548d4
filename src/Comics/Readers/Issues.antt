-- ===== src/Comics/Readers/Issues.antt =====
-- What readers do with an issue: src/comic-issue/user-comic-issue.service.ts, and `getPages` of
-- src/comic-issue/comic-issue.service.ts. The reader is a user that exists.
pub mod Access
pub mod Views
use d_reader_backend.Comics.Readers.{get_user_stats}
use d_reader_backend.Base.{
  find_many, [], ◌∷◌, not, gets, nat_eq, string_eq, ◌||◌, update_where, true, is_some, modify, ◌>>◌,
  ◌>>=◌, ◌&&◌, any, false, ◌==◌, throw, String, pure, List, count_where, some, Option, find_first,
  none, if◌then◌else◌, Bool, ℕ,
}
use d_reader_backend.Comics.Model.{
  foreign_key, ComicPage, CollectibleComic, Collection, type_error, M, Library, UserComicIssue,
  ComicError, ComicIssue,
}

-- the dates of a `UserComicIssue`
pub data IssueDate : Type 0 where
  issue_subscribed issue_favourited issue_viewed issue_read : IssueDate

abbrev pub issue_date_of : IssueDate → UserComicIssue → Option ℕ
issue_date_of issue_subscribed r = r.subscribed_at
issue_date_of issue_favourited r = r.favourited_at
issue_date_of issue_viewed r = r.viewed_at
issue_date_of issue_read r = r.read_at

abbrev pub set_issue_date : IssueDate → Option ℕ → UserComicIssue → UserComicIssue
set_issue_date issue_subscribed d r = record r { subscribed_at = d }
set_issue_date issue_favourited d r = record r { favourited_at = d }
set_issue_date issue_viewed d r = record r { viewed_at = d }
set_issue_date issue_read d r = record r { read_at = d }

-- the key of the table
abbrev pub is_user_issue : ℕ → ℕ → UserComicIssue → Bool
is_user_issue issue u r = (r.comic_issue_id == issue) && (r.user_id == u)

abbrev pub new_user_issue : ℕ → ℕ → UserComicIssue
new_user_issue issue u = record {
  comic_issue_id = issue;
  user_id = u;
  rating = none;
  subscribed_at = none;
  favourited_at = none;
  viewed_at = none;
  read_at = none;
}

-- `userComicIssue.upsert`
unfoldable pub upsert_user_issue :
    ℕ → ℕ → (created updated : UserComicIssue → UserComicIssue) → M (Unit {0})
upsert_user_issue issue u created updated s =
    if any (is_user_issue issue u) s.user_comic_issues
    then modify
        (λ s. record s {
          user_comic_issues = update_where (is_user_issue issue u) updated s.user_comic_issues;
        })
        s
    else if any (λ i. i.id == issue) s.issues
    then modify
        (λ s. record s {
          user_comic_issues = created (new_user_issue issue u) ∷ s.user_comic_issues;
        })
        s
    else throw foreign_key s

abbrev is_issue_dated : IssueDate → Option UserComicIssue → Bool
is_issue_dated p none = false
is_issue_dated p (some r) = is_some (issue_date_of p r)

-- `toggleDate`
unfoldable pub toggle_issue_date : ℕ → ℕ → IssueDate → ℕ → M (Unit {0})
unfolding upsert_user_issue
toggle_issue_date u issue p now s =
    let dated = is_issue_dated p (find_first (is_user_issue issue u) s.user_comic_issues) in
    upsert_user_issue issue u (set_issue_date p (some now))
      (set_issue_date p (if dated then none else some now)) s

unfoldable pub favourite : ℕ → ℕ → ℕ → M (Unit {0})
unfolding toggle_issue_date
favourite u issue now = toggle_issue_date u issue issue_favourited now

unfoldable pub rate_issue : ℕ → ℕ → ℕ → M (Unit {0})
unfolding upsert_user_issue
rate_issue u issue rating =
    upsert_user_issue issue u (λ r. record r { rating = some rating })
      (λ r. record r { rating = some rating })

unfoldable pub read : ℕ → ℕ → ℕ → M (Unit {0})
unfolding upsert_user_issue
read u issue now =
    upsert_user_issue issue u (set_issue_date issue_read (some now))
      (set_issue_date issue_read (some now))

-- `getFavouriteCount`, `getReaderCount` and `getViewerCount`
unfoldable pub count_issue_dated : IssueDate → ℕ → Library → ℕ
count_issue_dated p issue s =
    count_where (λ r. (r.comic_issue_id == issue) && is_some (issue_date_of p r))
      s.user_comic_issues

-- the end of `getAndUpdateUserStats`, on the issue that the row includes
abbrev pub view_comic : Option ComicIssue → ℕ → ℕ → M (Unit {0})
view_comic none u now = throw type_error
view_comic (some i) u now = get_user_stats i.comic_slug (some u) now

-- `getAndUpdateUserStats`: a new row gets `viewedAt`, a row that exists gets `readAt`
unfoldable pub get_and_update_user_stats : ℕ → Option ℕ → ℕ → M (Unit {0})
unfolding upsert_user_issue get_user_stats
get_and_update_user_stats issue none now s = pure tt s
get_and_update_user_stats issue (some u) now s =
    (upsert_user_issue issue u (set_issue_date issue_viewed (some now))
          (set_issue_date issue_read (some now))
        >>= λ _ s. view_comic (find_first (λ i. i.id == issue) s.issues) u now s)
      s

abbrev pub is_owned_by : ℕ → Option ℕ → Bool
is_owned_by u none = false
is_owned_by u (some o) = o == u

-- a collectible that opens the issue, where its collection is locked or not
abbrev pub opens : Bool → String → ℕ → CollectibleComic → Bool
opens locked address u c =
    (c.collection_address == address)
    && (locked || c.is_used)
    && is_owned_by u c.owner
    && not c.is_burned

-- `LOCKED_COLLECTIONS`
abbrev pub locked_collections : List String
locked_collections =
    "2CvYjVeo69sYVi4ahKRDdbdYJRfdyuc1ES98auREAk9B" ∷ "7qdnJrEDmds4aFGDdUKyE7QjGEp7NX6NSsitJRLvfxi7"
    ∷ "8U8QqgDQW72W8iXpLJJ33F7xZvrHiDCujqXJ4WSamte9"
    ∷ "EUmjXBhULWuGwfwCDBGKFDuC8DGzo5iHhJNpXuAooYvD"
    ∷ "BNdPNtqsuMxyVQM9GhfAAJMUsiD1SzRAgQtV4FU8Go3k"
    ∷ "A7yZDHff1hGDpzn5LXATTNUJY7SEgEE51mos8ZTGXUjL" ∷ []

-- `LOCKED_COLLECTIONS.has`
unfoldable pub is_locked : String → Bool
is_locked address = any (λ a. a == address) locked_collections

abbrev pub owns_copy : Option Collection → ℕ → List CollectibleComic → Bool
owns_copy none u cs = false
owns_copy (some c) u cs =
    let locked = any (λ a. a == c.address) locked_collections in any (opens locked c.address u) cs

abbrev pub can_read_found : Option ComicIssue → Option Collection → ℕ → M Bool
can_read_found none c u s = throw type_error s
can_read_found (some i) c u s =
    if i.is_free_to_read then pure true s else pure (owns_copy c u s.collectibles) s

unfoldable pub check_can_user_read : ℕ → Option ℕ → M Bool
check_can_user_read issue none s = pure false s
check_can_user_read issue (some u) s =
    can_read_found (find_first (λ i. i.id == issue) s.issues)
      (find_first (λ c. c.comic_issue_id == issue) s.collections) u s

-- the writes of `getPages`, which run at once, in one of their orders
abbrev pub record_reader : ℕ → Option ℕ → ℕ → M (Unit {0})
record_reader issue none now = pure tt
record_reader issue (some u) now = read u issue now >> get_and_update_user_stats issue (some u) now

unfoldable pub get_pages : ℕ → Option ℕ → ℕ → M (List ComicPage)
unfolding check_can_user_read read get_and_update_user_stats
get_pages issue user now = do
  can_read ← check_can_user_read issue user
  pages ←
      gets (λ s.
        find_many (λ p. (p.comic_issue_id == issue) && (can_read || p.is_previewable)) s.pages)
  record_reader issue user now
  pure pages
