-- ===== src/Comics/Readers/Dates.antt =====
-- The dates of readers in src/comic/user-comic.service.ts as sets: which readers have a comic among
-- their favourites, and how many they are.
use d_reader_backend.Comics.Readers.Rows.{
  any-none_key, is_dated-found, set_date-same, set_date-other, date_of-new, any-kept, any-updated,
  same_date-eq, set_date-key, IsKeyed, has_date, same_date,
}
use d_reader_backend.Base.{
  inr, inl, Bool-cases, if_cases, ap, eq_iff, none, some, nat_eq, string_eq, not, if◌then◌else◌,
  ◌==◌, refl, arith, find_first, ◌∷◌, update_where, is_some, true, ◌&&◌, ◌≤◌, false, any, ◌≡◌,
  count_where, String, Option, List, ℕ,
}
use d_reader_backend.Comics.Model.{Library, UserComic}
use d_reader_backend.Comics.Readers.{
  new_user_comic, upsert_user_comic, toggle_date, is_dated, set_date, date_of, ComicDate,
  is_user_comic,
}

module _ (p : ComicDate) (slug : String) (u now : ℕ) (rows : List UserComic) where
  abbrev pub new_date : Option ℕ
  new_date = if is_dated p (find_first (is_user_comic slug u) rows) then none else some now

  -- the rows after `toggleDate`
  abbrev pub toggled_rows : List UserComic
  toggled_rows =
      if any (is_user_comic slug u) rows
      then update_where (is_user_comic slug u) (set_date p new_date) rows
      else set_date p (some now) (new_user_comic slug u) ∷ rows

  pub has_date-toggled :
      count_where (is_user_comic slug u) rows ≤ 1
      → has_date p slug u toggled_rows ≡ not (has_date p slug u rows)
  has_date-toggled once = ground (
    arith,
    any-updated (is_user_comic slug u) (λ r. is_some (date_of p r)) (set_date p new_date)
        (is_some new_date) rows (set_date-key slug u p new_date)
        (λ r. ap is_some (set_date-same p new_date r)),
    is_dated-found p slug u rows once,
    any-none_key (is_user_comic slug u) (λ r. is_some (date_of p r)) rows,
    set_date-same p (some now) (new_user_comic slug u),
    set_date-key slug u p (some now) (new_user_comic slug u),
    eq_iff slug slug,
  )

  -- a row of the key that the toggle writes, seen from another key or another date
  is_other :
      (q : ComicDate) (other : String) (v : ℕ) (d : Option ℕ) (r : UserComic)
      → (other == slug) && (v == u) && same_date q p ≡ false
      → is_user_comic slug u r ≡ true
      → (is_user_comic other v (set_date p d r) && is_some (date_of q (set_date p d r)))
        ≡ (is_user_comic other v r && is_some (date_of q r))
  is_other q other v d r h k = ground (
    arith,
    set_date-key other v p d r,
    set_date-other q p d r,
    eq_iff r.comic_slug slug,
    eq_iff r.comic_slug other,
    eq_iff other slug,
  )

  pub new_key : is_user_comic slug u (new_user_comic slug u) ≡ true
  new_key = ground (arith, eq_iff slug slug)

  has_date-untoggled :
      (q : ComicDate) (other : String) (v : ℕ)
      → (other == slug) && (v == u) && same_date q p ≡ false
      → has_date q other v toggled_rows ≡ has_date q other v rows
  has_date-untoggled q other v h = ground (
    arith,
    any-kept (λ r. is_user_comic other v r && is_some (date_of q r)) (is_user_comic slug u)
        (set_date p new_date) rows (λ r. is_other q other v new_date r h),
    is_other q other v (some now) (new_user_comic slug u) h new_key,
    date_of-new q slug u,
  )

  has_date-toggled_at :
      (q : ComicDate) (other : String) (v : ℕ)
      → count_where (is_user_comic slug u) rows ≤ 1
      → (other ≡ slug) × (v ≡ u) × (q ≡ p)
      → has_date q other v toggled_rows ≡ not (has_date q other v rows)
  has_date-toggled_at q other v once (e, k, d) = rw (e, k, d) (has_date-toggled once)

  all_same :
      (q : ComicDate) (other : String) (v : ℕ)
      → (other == slug) && (v == u) && same_date q p ≡ true
      → (other ≡ slug) × (v ≡ u) × (q ≡ p)
  all_same q other v h =
      (ground (arith, eq_iff other slug), ground arith, same_date-eq q p (ground arith))

pub toggle_date-rows :
    (p : ComicDate) (slug : String) (u now : ℕ) (s : Library)
    → any (λ c. c.slug == slug) s.comics ≡ true
    → (toggle_date u slug p now s).1.user_comics ≡ toggled_rows p slug u now s.user_comics
unfolding toggle_date upsert_user_comic
toggle_date-rows p slug u now s h = elim (Bool-cases (any (is_user_comic slug u) s.user_comics)) [
  | inl e ↦ rw e refl
  | inr e ↦ rw (e, h) refl
]

-- After `toggleDate`, with rows of unique keys and for a comic that exists, exactly the reader who
-- asks has changed sides in the set of the readers with this date for this comic, and no other set
-- of readers of a date of a comic has changed.
pub toggle_date-has_date :
    (p q : ComicDate) (slug other : String) (u v now : ℕ) (s : Library)
    → IsKeyed s.user_comics
    → any (λ c. c.slug == slug) s.comics ≡ true
    → has_date q other v (toggle_date u slug p now s).1.user_comics ≡ (
        if (other == slug) && (v == u) && same_date q p
        then not (has_date q other v s.user_comics)
        else has_date q other v s.user_comics)
toggle_date-has_date p q slug other u v now s keyed exists =
    let rows = s.user_comics in
    rw (toggle_date-rows p slug u now s exists) (
      if_cases (λ b. has_date q other v (toggled_rows p slug u now rows) ≡ b)
        ((other == slug) && (v == u) && same_date q p) _ _
        (λ h.
          has_date-toggled_at p slug u now rows q other v (keyed slug u)
            (all_same p slug u now rows q other v h))
        (λ h. has_date-untoggled p slug u now rows q other v h))
