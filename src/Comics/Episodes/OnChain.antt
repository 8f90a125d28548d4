-- ===== src/Comics/Episodes/OnChain.antt =====
-- What the requests to src/comic-issue/comic-issue.service.ts leave of an issue that is on chain.
use d_reader_backend.Base.{
  ==→eq, if_cases, if◌then◌else◌, is_some, find_first-holds, not, modify, inr, ◌>>◌, arith, ap,
  none, inl, after_check, find_first, some, false, Bool-cases, ◌∙◌, refl, Result, ◌≤◌, nat_eq,
  if_both, suc, Keeps, true, any, ◌==◌, [], ◌∷◌, ◌≡◌, Bool, List, Option, String, ℕ,
}
use d_reader_backend.Comics.Model.{M, Library, ComicError, Comic, ComicIssue}
use d_reader_backend.Comics.Status.{
  is_on_chain, has_slug, StatusProperty, published_property, verified_property,
}
use d_reader_backend.Comics.Episodes.Core.{
  is_on_chain-found, clash, core_at-without, core_at-update_where, core_of, core_at,
}
use d_reader_backend.Comics.Episodes.{
  is_on_chain, issue_status_of, publish_found, delete_issue_found, toggle_issue_found,
  set_issue_status, has_slug, is_titled, is_slugged, add_issue, changed_issue, or_old, check_parent,
  throw_if_title_and_comic_slug_taken, is_numbered, clashes, throw_if_slug_and_comic_slug_taken,
  update_found, write_issue, throw_if_comic_slug_and_number_taken,
  throw_if_comic_is_published_on_chain, delete_issue, toggle_issue_status, unpublish_issue,
  publish_off_chain, update_row, update_issue, create_issue, has_issue, NewIssue, ChangedIssue,
}

pub data IssueRequest : Type 0 where
  creates_issue : (creator_id : ℕ) (dto : NewIssue) → IssueRequest
  changes_issue : (id : ℕ) (dto : ChangedIssue) → IssueRequest
  publishes_issue : (id now : ℕ) → IssueRequest
  unpublishes_issue : (id : ℕ) → IssueRequest
  toggles_issue : (id : ℕ) (p : StatusProperty) (now : ℕ) → IssueRequest
  deletes_issue : (id : ℕ) → IssueRequest

abbrev pub serve : IssueRequest → M (Unit {0})
serve (creates_issue creator_id dto) = create_issue creator_id dto
serve (changes_issue id dto) = update_issue id dto
serve (publishes_issue id now) = publish_off_chain id now
serve (unpublishes_issue id) = unpublish_issue id
serve (toggles_issue id p now) = toggle_issue_status id p now
serve (deletes_issue id) = delete_issue id

abbrev pub serve_all : List IssueRequest → Library → Library
serve_all [] s = s
serve_all (r ∷ rs) s = serve_all rs (serve r s).1

-- an issue of a collection, with a key that was given
pub record OnChain (id : ℕ) (core : Option (ℕ × String × String × String × Bool)) (s : Library)
    : Type 0 where
  pub kept : core_at id s.issues ≡ core
  pub collected : any (λ c. c.comic_issue_id == id) s.collections ≡ true
  pub given : suc id ≤ s.next_id

module _ (id : ℕ) (core : Option (ℕ × String × String × String × Bool)) where
  update_row-OnChain :
      (other : ℕ) (f : ComicIssue → ComicIssue)
      → ((i : ComicIssue) → (f i).id ≡ i.id)
      → ((i : ComicIssue) → (other == id) ≡ true → core_of (f i) ≡ core_of i)
      → Keeps (OnChain id core) (update_row other f)
  unfolding update_row
  update_row-OnChain other f h k s c =
      if_both (λ (m : Result ComicError (Unit {0}) × Library). OnChain id core m.1)
        (any (has_issue other) s.issues) _ _
        record {
          kept = core_at-update_where id other f s.issues h k ∙ c.kept;
          collected = c.collected;
          given = c.given;
        }
        c

  create_issue-OnChain :
      (creator_id : ℕ) (dto : NewIssue) → Keeps (OnChain id core) (create_issue creator_id dto)
  unfolding create_issue throw_if_comic_slug_and_number_taken throw_if_slug_and_comic_slug_taken
      throw_if_title_and_comic_slug_taken
  create_issue-OnChain creator_id dto s c =
      after_check (OnChain id core) (any (is_numbered dto.comic_slug dto.number) s.issues) _ _ s c
        (λ _.
          after_check (OnChain id core) (any (is_slugged dto.comic_slug dto.slug) s.issues) _ _ s c
            (λ _.
              after_check (OnChain id core) (any (is_titled dto.comic_slug dto.title) s.issues) _ _
                s c (λ _. of_parent (find_first (has_slug dto.comic_slug) s.comics))))
    where
      of_parent :
          (o : Option Comic)
          → OnChain id core ((check_parent o creator_id >> modify (add_issue dto)) s).1
      of_parent none = c
      of_parent (some p) =
          after_check (OnChain id core) (not (p.creator_id == creator_id)) _ _ s c (λ _. record {
            kept = ground (arith, c.kept, c.given);
            collected = c.collected;
            given = omega (arith, c.given);
          })

  write_issue-OnChain :
      (i : ComicIssue) (dto : ChangedIssue)
      → (i.id == id) ≡ false
      → Keeps (OnChain id core) (write_issue i dto)
  write_issue-OnChain i dto other s c =
      if_both (λ (m : Result ComicError (Unit {0}) × Library). OnChain id core m.1)
        (any (clashes (changed_issue dto i)) s.issues) _ _ c
        (update_row-OnChain i.id (changed_issue dto) (λ j. refl)
          (λ j h. absurd (clash (i.id == id) h other)) s c)

  update_found-OnChain :
      (o : Option ComicIssue) (dto : ChangedIssue) (s : Library)
      → ((i : ComicIssue) → o ≡ some i → (i.id == id) ≡ false)
      → OnChain id core s
      → OnChain id core (update_found o dto s).1
  unfolding throw_if_comic_slug_and_number_taken
  update_found-OnChain none dto s other c = c
  update_found-OnChain (some i) dto s other c =
      let written = write_issue-OnChain i dto (other i refl) s c in
      if_both (λ (m : Result ComicError (Unit {0}) × Library). OnChain id core m.1) _ _ _
        (after_check (OnChain id core)
          (any (is_numbered i.comic_slug (or_old i.number dto.number)) s.issues) _ _ s c
          (λ _. written))
        written

  update_issue-OnChain :
      (other : ℕ) (dto : ChangedIssue) → Keeps (OnChain id core) (update_issue other dto)
  unfolding update_issue throw_if_comic_is_published_on_chain
  update_issue-OnChain other dto s c =
      after_check (OnChain id core) (any (λ c. c.comic_issue_id == other) s.collections) _ _ s c
        (λ free.
          update_found-OnChain (find_first (has_issue other) s.issues) dto s
            (λ i e. ground (
              arith,
              find_first-holds (has_issue other) s.issues i e,
              free,
              c.collected,
              ap (λ z. any (λ c. c.comic_issue_id == z) s.collections) {x = other} {y = id},
            ))
            c)

  set_status-OnChain :
      (other : ℕ) (p : StatusProperty) (d : Option ℕ)
      → Keeps (OnChain id core) (update_row other (set_issue_status p d))
  set_status-OnChain other published_property d =
      update_row-OnChain other _ (λ i. refl) (λ i _. refl)
  set_status-OnChain other verified_property d =
      update_row-OnChain other _ (λ i. refl) (λ i _. refl)

  publish_found-OnChain :
      (o : Option ComicIssue) (now : ℕ) → Keeps (OnChain id core) (publish_found o now)
  publish_found-OnChain none now s c = c
  publish_found-OnChain (some i) now s c =
      if_both (λ (m : Result ComicError (Unit {0}) × Library). OnChain id core m.1)
        (is_some i.published_at) _ _ c (set_status-OnChain i.id published_property (some now) s c)

  toggle_found-OnChain :
      (o : Option ComicIssue) (p : StatusProperty) (now : ℕ)
      → Keeps (OnChain id core) (toggle_issue_found o p now)
  toggle_found-OnChain none p now s c = c
  toggle_found-OnChain (some i) p now s c =
      set_status-OnChain i.id p (if is_some (issue_status_of p i) then none else some now) s c

  delete_found-OnChain :
      (o : Option ComicIssue) (other : ℕ) (s : Library)
      → find_first (has_issue other) s.issues ≡ o
      → OnChain id core s
      → OnChain id core (delete_issue_found o other s).1
  delete_found-OnChain none other s e c = c
  delete_found-OnChain (some i) other s e c =
      if_both (λ (m : Result ComicError (Unit {0}) × Library). OnChain id core m.1)
        (is_some i.published_at) _ _ c
        (if_cases (λ (m : Result ComicError (Unit {0}) × Library). OnChain id core m.1)
          (is_on_chain (has_issue other) s) _ _ (λ _. c)
          (λ free. record {
            kept =
                core_at-without id other s.issues (elim (Bool-cases (other == id)) [
                  | inr h ↦ h
                  | inl h ↦ absurd (
                      clash (is_on_chain (has_issue other) s)
                        (is_on_chain-found other i s.issues s.collections e (
                          ap (λ z. any (λ c. c.comic_issue_id == z) s.collections)
                            (==→eq other id h)
                          ∙ c.collected))
                        free)
                ])
                ∙ c.kept;
            collected = c.collected;
            given = c.given;
          }))

  serve-OnChain : (r : IssueRequest) → Keeps (OnChain id core) (serve r)
  unfolding publish_off_chain unpublish_issue toggle_issue_status delete_issue
  serve-OnChain (creates_issue creator_id dto) = create_issue-OnChain creator_id dto
  serve-OnChain (changes_issue other dto) = update_issue-OnChain other dto
  serve-OnChain (publishes_issue other now) =
      λ s. publish_found-OnChain (find_first (has_issue other) s.issues) now s
  serve-OnChain (unpublishes_issue other) = set_status-OnChain other published_property none
  serve-OnChain (toggles_issue other p now) =
      λ s. toggle_found-OnChain (find_first (has_issue other) s.issues) p now s
  serve-OnChain (deletes_issue other) =
      λ s. delete_found-OnChain (find_first (has_issue other) s.issues) other s refl

  serve_all-OnChain :
      (rs : List IssueRequest) (s : Library) → OnChain id core s → OnChain id core (serve_all rs s)
  serve_all-OnChain [] s c = c
  serve_all-OnChain (r ∷ rs) s c = serve_all-OnChain rs (serve r s).1 (serve-OnChain r s c)

-- An issue with a collection on chain, of a key that was given: whatever requests are made to create,
-- change, publish, unpublish and delete issues, in whatever order and with whatever result, it keeps
-- its number, title, slug, comic and free reading, and where it exists it is not deleted.
pub core_at-serve_all :
    (id : ℕ) (rs : List IssueRequest) (s : Library)
    → any (λ c. c.comic_issue_id == id) s.collections ≡ true
    → suc id ≤ s.next_id
    → core_at id (serve_all rs s).issues ≡ core_at id s.issues
core_at-serve_all id rs s collected given =
    let after =
      serve_all-OnChain id (core_at id s.issues) rs s
        record { kept = refl; collected = collected; given = given } in
    after.kept
