-- ===== src/Comics/Readers/Counts.antt =====
-- The counts of readers in src/comic/user-comic.service.ts, and two toggles in a row.
use d_reader_backend.Comics.Readers.Rows.{
  set_date-same, set_date-slug, is_dated-found, set_date-key, has_date, IsKeyed,
}
use d_reader_backend.Base.{
  sum_of-update_one, update_where, count_where-sum_of, find_first-holds, any-find_first, inr,
  count_where-none, find_first_of_any, ap, inl, eq_iff, Bool-cases, refl, none, some, sym,
  string_eq, arith, if◌then◌else◌, ◌+◌, count_where-same, is_some, true, ◌≤◌, ◌≡◌, ◌&&◌,
  count_where, ◌==◌, find_first, Bool, Option, if_cases, any, List, String, ℕ,
}
use d_reader_backend.Comics.Model.{Library, UserComic}
use d_reader_backend.Comics.Readers.{
  upsert_user_comic, new_user_comic, is_dated, toggle_date, set_date, date_of, count_dated,
  ComicDate, is_user_comic,
}
use d_reader_backend.Comics.Readers.Dates.{
  toggle_date-has_date, toggle_date-rows, toggled_rows, new_date,
}

module _ (p : ComicDate) (slug : String) (u now : ℕ) (rows : List UserComic) where
  abbrev counts : UserComic → Bool
  counts r = (r.comic_slug == slug) && is_some (date_of p r)

  -- the row that is found
  updated_row :
      (o : Option UserComic)
      → find_first (is_user_comic slug u) rows ≡ o
      → count_where (is_user_comic slug u) rows ≤ 1
      → count_where counts (toggled_rows p slug u now rows) + (if is_dated p o then 1 else 0)
        ≡ count_where counts rows + (if is_dated p o then 0 else 1)
  updated_row none e once = elim (Bool-cases (any (is_user_comic slug u) rows)) [
    | inl h ↦ absurd (find_first_of_any (is_user_comic slug u) rows h e)
    | inr h ↦ ground (
      arith,
      h,
      set_date-slug p (some now) (new_user_comic slug u),
      set_date-same p (some now) (new_user_comic slug u),
      eq_iff slug slug,
    )
  ]
  updated_row (some a) e once =
      let d = new_date p slug u now rows in
      ground (
        arith,
        any-find_first (is_user_comic slug u) rows a e,
        find_first-holds (is_user_comic slug u) rows a e,
        ap (is_dated p) e,
        count_where-sum_of counts rows,
        count_where-sum_of counts (update_where (is_user_comic slug u) (set_date p d) rows),
        sum_of-update_one (is_user_comic slug u) (set_date p d) (λ r. if counts r then 1 else 0)
            rows a once e,
        set_date-slug p d a,
        set_date-same p d a,
      )

-- `toggleDate`, with rows of unique keys and for a comic that exists, changes the number of the
-- readers with this date for this comic by one: down for a reader who had it, else up.
pub count_dated-toggle_date :
    (p : ComicDate) (slug : String) (u now : ℕ) (s : Library)
    → IsKeyed s.user_comics
    → any (λ c. c.slug == slug) s.comics ≡ true
    → count_dated p slug (toggle_date u slug p now s).1
        + (if has_date p slug u s.user_comics then 1 else 0)
      ≡ count_dated p slug s + (if has_date p slug u s.user_comics then 0 else 1)
unfolding count_dated
count_dated-toggle_date p slug u now s keyed exists =
    rw
      (
        toggle_date-rows p slug u now s exists,
        sym (is_dated-found p slug u s.user_comics (keyed slug u)),
      )
      (updated_row p slug u now s.user_comics (find_first (is_user_comic slug u) s.user_comics) refl
        (keyed slug u))

toggled-IsKeyed :
    (p : ComicDate) (slug : String) (u now : ℕ) (rows : List UserComic)
    → IsKeyed rows
    → IsKeyed (toggled_rows p slug u now rows)
toggled-IsKeyed p slug u now rows keyed other v =
    if_cases (λ rs. count_where (is_user_comic other v) rs ≤ 1) (any (is_user_comic slug u) rows) _
      _
      (λ _.
        rw
          (count_where-same (is_user_comic other v) (is_user_comic slug u)
            (set_date p (new_date p slug u now rows)) rows
            (set_date-key other v p (new_date p slug u now rows)))
          (keyed other v))
      (λ fresh. ground (
        arith,
        set_date-key other v p (some now) (new_user_comic slug u),
        eq_iff slug other,
        ap (λ t. count_where (is_user_comic t u) rows) {x = slug} {y = other},
        ap (λ w. count_where (is_user_comic other w) rows) {x = u} {y = v},
        keyed other v,
        count_where-none (is_user_comic slug u) rows fresh,
      ))

toggle_date-comics :
    (p : ComicDate) (slug : String) (u now : ℕ) (s : Library)
    → (toggle_date u slug p now s).1.comics ≡ s.comics
unfolding toggle_date upsert_user_comic
toggle_date-comics p slug u now s = ground arith

-- Two toggles of a date by the same reader for the same comic, with rows of unique keys and for a
-- comic that exists, leave every set of readers of a date of a comic as it was.
pub toggle_date-twice :
    (p q : ComicDate) (slug other : String) (u v now later : ℕ) (s : Library)
    → IsKeyed s.user_comics
    → any (λ c. c.slug == slug) s.comics ≡ true
    → has_date q other v (toggle_date u slug p later (toggle_date u slug p now s).1).1.user_comics
      ≡ has_date q other v s.user_comics
toggle_date-twice p q slug other u v now later s keyed exists =
    let t = (toggle_date u slug p now s).1 in
    ground (
      arith,
      toggle_date-has_date p q slug other u v later t
          (rw (toggle_date-rows p slug u now s exists)
            (toggled-IsKeyed p slug u now s.user_comics keyed))
          (rw (toggle_date-comics p slug u now s) exists),
      toggle_date-has_date p q slug other u v now s keyed exists,
    )
