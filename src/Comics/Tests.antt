-- ===== src/Comics/Tests.antt =====
-- Comics and their readers at concrete inputs.
use d_reader_backend.Comics.Episodes.OnChain.{
  core_at-serve_all, deletes_issue, unpublishes_issue, serve_all,
}
use d_reader_backend.Comics.Episodes.Core.{core_at}
use d_reader_backend.Comics.Readers.Issues.Access.{check_can_user_read_iff, CanRead}
use d_reader_backend.Comics.Readers.Dates.{toggle_date-has_date}
use d_reader_backend.Comics.Readers.Rows.{IsKeyed, has_date}
use d_reader_backend.Comics.Readers.Issues.{check_can_user_read}
use d_reader_backend.Base.{
  string_eq, ◌==◌, Bool, eq_iff, String, IsEuclidean, ◌↔◌, refl, ok, ◌≡◌, some, [], arith, false,
  none, true, List, ◌∷◌,
}
use d_reader_backend.Comics.Model.{Library, Comic, ComicIssue, UserComic, CollectibleComic}
use d_reader_backend.Comics.Readers.{toggle_date, favourited}
use d_reader_backend.Comics.Status.Slugs.{
  respond_all-HasSlugs, ComicRequest, respond_all, HasSlugs, changes, creates, deletes,
}

abbrev saga : Comic
saga = record {
  title = "Saga";
  slug = "saga";
  creator_id = 1;
  featured_at = none;
  verified_at = none;
  published_at = some 1;
  popularized_at = none;
  completed_at = none;
  genres = [];
}

abbrev draft : Comic
draft = record saga { title = "Draft"; slug = "draft"; published_at = none }

abbrev first_issue : ComicIssue
first_issue = record {
  id = 4;
  number = 1;
  title = "One";
  slug = "one";
  comic_slug = "saga";
  is_free_to_read = false;
  featured_at = none;
  verified_at = none;
  published_at = some 1;
  popularized_at = none;
}

abbrev of_seven : UserComic
of_seven = record {
  comic_slug = "saga";
  user_id = 7;
  rating = none;
  subscribed_at = none;
  favourited_at = some 2;
  bookmarked_at = none;
  viewed_at = none;
}

abbrev copy : CollectibleComic
copy = record { collection_address = "c"; is_used = true; owner = some 7; is_burned = false }

abbrev library : Library
library = record {
  comics = saga ∷ draft ∷ [];
  issues = first_issue ∷ [];
  pages = [];
  user_comics = of_seven ∷ [];
  user_comic_issues = [];
  collections = record { address = "c"; comic_issue_id = 4 } ∷ [];
  collectibles = copy ∷ [];
  next_id = 5;
}

one_reader : IsKeyed library.user_comics
one_reader slug u = ground arith

toggle_date-has_date_example :
    has_date favourited "saga" 7 (toggle_date 7 "saga" favourited 9 library).1.user_comics ≡ false
toggle_date-has_date_example =
    toggle_date-has_date favourited favourited "saga" "saga" 7 7 9 library one_reader refl

check_can_user_read_iff_example :
    ((check_can_user_read 4 (some 7) library).0 ≡ ok true) ↔ CanRead 4 7 library
check_can_user_read_iff_example = check_can_user_read_iff 4 7 library

abbrev same : String → String → Bool
same a b = a == b

same-IsEuclidean : IsEuclidean same
same-IsEuclidean t a b h k = ground (arith, eq_iff t a, eq_iff t b, eq_iff a b)

same_self : (t : String) → same t t ≡ true
same_self t = ground (arith, eq_iff t t)

slugs : HasSlugs same library
slugs t = ground (arith, same-IsEuclidean t "saga" "draft")

abbrev comic_requests : List ComicRequest
comic_requests =
    creates 1 record { title = "New"; slug = "new"; is_completed = true; genres = [] } 5
    ∷ changes "draft"
        record { title = none; new_slug = some "saga"; is_completed = none; genres = none } 6
    ∷ deletes "draft"
    ∷ []

respond_all-HasSlugs_example : HasSlugs same (respond_all same comic_requests library)
respond_all-HasSlugs_example =
    respond_all-HasSlugs same same_self same-IsEuclidean comic_requests library slugs

core_at-serve_all_example :
    core_at 4 (serve_all (unpublishes_issue 4 ∷ deletes_issue 4 ∷ []) library).issues
    ≡ core_at 4 library.issues
core_at-serve_all_example =
    core_at-serve_all 4 (unpublishes_issue 4 ∷ deletes_issue 4 ∷ []) library refl (omega arith)

abbrev second_issue : ComicIssue
second_issue = record first_issue { id = 5; number = 2; title = "Two"; slug = "two" }

abbrev longer : Library
longer = record library { issues = first_issue ∷ second_issue ∷ []; next_id = 6 }
