-- ===== src/Comics/Readers/Issues/Views.antt =====
-- Views of an issue that count as readings: `getAndUpdateUserStats` of
-- src/comic-issue/user-comic-issue.service.ts.
use d_reader_backend.Comics.Readers.{upsert_user_comic, get_user_stats}
use d_reader_backend.Base.{
  count_where-sum_of, sum_of-update_none, count_where-none, ◌∙◌, is_some, inr, ap, ◌&&◌, find_first,
  suc, count_where, inl, Bool-cases, false, refl, ◌∷◌, none, nat_eq, arith, some, true, ◌≡◌,
  update_where, ◌==◌, Option, any, if◌then◌else◌, List, ℕ,
}
use d_reader_backend.Comics.Model.{Library, UserComicIssue, ComicIssue}
use d_reader_backend.Comics.Readers.Issues.{
  count_issue_dated, new_user_issue, issue_viewed, issue_read, set_issue_date, view_comic,
  upsert_user_issue, get_and_update_user_stats, get_user_stats, is_user_issue,
}

module _ (issue u : ℕ) where
  -- the rows of the readers of issues after a view
  abbrev viewed_rows : ℕ → List UserComicIssue → List UserComicIssue
  viewed_rows now rows =
      if any (is_user_issue issue u) rows
      then update_where (is_user_issue issue u) (set_issue_date issue_read (some now)) rows
      else set_issue_date issue_viewed (some now) (new_user_issue issue u) ∷ rows

  view_comic-rows :
      (i : Option ComicIssue) (now : ℕ) (s : Library)
      → (view_comic i u now s).1.user_comic_issues ≡ s.user_comic_issues
  unfolding get_user_stats upsert_user_comic
  view_comic-rows none now s = refl
  view_comic-rows (some i) now s = ground arith

  view_comic-issues :
      (i : Option ComicIssue) (now : ℕ) (s : Library) → (view_comic i u now s).1.issues ≡ s.issues
  unfolding get_user_stats upsert_user_comic
  view_comic-issues none now s = refl
  view_comic-issues (some i) now s = ground arith

  get_and_update-rows :
      (now : ℕ) (s : Library)
      → any (λ i. i.id == issue) s.issues ≡ true
      → (get_and_update_user_stats issue (some u) now s).1.user_comic_issues
        ≡ viewed_rows now s.user_comic_issues
  unfolding get_and_update_user_stats upsert_user_issue
  get_and_update-rows now s h =
      elim (Bool-cases (any (is_user_issue issue u) s.user_comic_issues)) [
        | inl e ↦ rw e (
            view_comic-rows (find_first (λ i. i.id == issue) s.issues) now record s {
              user_comic_issues =
                  update_where (is_user_issue issue u) (set_issue_date issue_read (some now))
                    s.user_comic_issues;
            })
        | inr e ↦
            rw (e, h)
              (view_comic-rows (find_first (λ i. i.id == issue) s.issues) now record s {
                user_comic_issues =
                    set_issue_date issue_viewed (some now) (new_user_issue issue u)
                    ∷ s.user_comic_issues;
              })
      ]

  get_and_update-issues :
      (now : ℕ) (s : Library) → (get_and_update_user_stats issue (some u) now s).1.issues ≡ s.issues
  unfolding get_and_update_user_stats upsert_user_issue
  get_and_update-issues now s =
      elim (Bool-cases (any (is_user_issue issue u) s.user_comic_issues)) [
        | inl e ↦ rw e (
            view_comic-issues (find_first (λ i. i.id == issue) s.issues) now record s {
              user_comic_issues =
                  update_where (is_user_issue issue u) (set_issue_date issue_read (some now))
                    s.user_comic_issues;
            })
        | inr e ↦ elim (Bool-cases (any (λ i. i.id == issue) s.issues)) [
          | inl f ↦
              rw (e, f)
                (view_comic-issues (find_first (λ i. i.id == issue) s.issues) now record s {
                  user_comic_issues =
                      set_issue_date issue_viewed (some now) (new_user_issue issue u)
                      ∷ s.user_comic_issues;
                })
          | inr f ↦ rw (e, f) refl
        ]
      ]

viewed_once :
    (issue u now : ℕ) (rows : List UserComicIssue)
    → any (is_user_issue issue u) rows ≡ false
    → count_where
        (λ r. (r.comic_issue_id == issue) && is_some r.read_at)
        (viewed_rows issue u now rows)
      ≡ count_where (λ r. (r.comic_issue_id == issue) && is_some r.read_at) rows
viewed_once issue u now rows fresh = ground (arith, fresh)

-- the rows of the readers after two views of a user that had no row
viewed_twice :
    (issue u now later : ℕ) (rows : List UserComicIssue)
    → any (is_user_issue issue u) rows ≡ false
    → count_where
        (λ r. (r.comic_issue_id == issue) && is_some r.read_at)
        (viewed_rows issue u later (viewed_rows issue u now rows))
      ≡ suc (count_where (λ r. (r.comic_issue_id == issue) && is_some r.read_at) rows)
viewed_twice issue u now later rows fresh =
    let p = λ (r : UserComicIssue). (r.comic_issue_id == issue) && is_some r.read_at in
    let f = set_issue_date issue_read (some later) in
    ground (
      arith,
      fresh,
      count_where-none (is_user_issue issue u) rows fresh,
      sum_of-update_none (is_user_issue issue u) f (λ r. if p r then 1 else 0) rows,
      count_where-sum_of p rows,
      count_where-sum_of p (update_where (is_user_issue issue u) f rows),
    )

-- A user who views an issue for the second time, and never asked to read it, is counted as a reader
-- of it: two calls of `getAndUpdateUserStats` for a user with no row of the issue, which exists,
-- add one to the readers, and the first of them adds none.
pub get_reader_count-views :
    (issue u now later : ℕ) (s : Library)
    → any (is_user_issue issue u) s.user_comic_issues ≡ false
    → any (λ i. i.id == issue) s.issues ≡ true
    → let t = (get_and_update_user_stats issue (some u) now s).1 in
      (count_issue_dated issue_read issue t ≡ count_issue_dated issue_read issue s)
      × (count_issue_dated issue_read issue (get_and_update_user_stats issue (some u) later t).1
          ≡ suc (count_issue_dated issue_read issue s))
unfolding count_issue_dated
get_reader_count-views issue u now later s fresh exists =
    let t = (get_and_update_user_stats issue (some u) now s).1 in
    let rows = get_and_update-rows issue u now s exists in
    let exists' : any (λ i. i.id == issue) t.issues ≡ true =
      ap (any (λ i. i.id == issue)) (get_and_update-issues issue u now s) ∙ exists in
    (
      rw rows (viewed_once issue u now s.user_comic_issues fresh),
      rw (get_and_update-rows issue u later t exists', rows)
          (viewed_twice issue u now later s.user_comic_issues fresh),
    )
