-- ===== src/Comics/Episodes/Taken.antt =====
-- How `update` of src/comic-issue/comic-issue.service.ts answers where a title is taken.
use d_reader_backend.Base.{
  refl, nat_eq, find_first-holds, arith, any-found, err, none, ◌&&◌, not, some, find_first, false,
  ◌≡◌, ◌==◌, any, Bool, Option, String, ℕ,
}
use d_reader_backend.Comics.Model.{issue_not_found, Library, ComicIssue}
use d_reader_backend.Comics.Episodes.{
  changed_issue, clashes, issue_not_found, is_titled, throw_if_comic_is_published_on_chain,
  update_issue, has_issue, ChangedIssue,
}

-- A change of an issue that exists and is not on chain, which leaves the number and gives the title of
-- another issue of the comic, changes nothing and answers that the issue does not exist.
pub update_issue-taken :
    (id : ℕ) (title : String) (slug : Option String) (is_free : Option Bool) (i j : ComicIssue)
    (s : Library)
    → any (λ c. c.comic_issue_id == id) s.collections ≡ false
    → find_first (has_issue id) s.issues ≡ some i
    → find_first (λ x. not (x.id == i.id) && is_titled i.comic_slug title x) s.issues ≡ some j
    → update_issue id
        record { title = some title; slug = slug; number = none; is_free_to_read = is_free }
        s
      ≡ (err issue_not_found, s)
unfolding update_issue throw_if_comic_is_published_on_chain
update_issue-taken id title slug is_free i j s off_chain found taken =
    let dto : ChangedIssue = record {
      title = some title;
      slug = slug;
      number = none;
      is_free_to_read = is_free;
    } in
    rw
      (
        off_chain,
        found,
        any-found (λ x. not (x.id == i.id) && is_titled i.comic_slug title x)
            (clashes (changed_issue dto i)) s.issues j taken
            (ground (
              arith,
              find_first-holds (λ x. not (x.id == i.id) && is_titled i.comic_slug title x) s.issues
                  j taken,
            )),
      )
      refl
