-- ===== src/Comics/Model.antt =====
-- The rows of comics, of their issues and of their readers (prisma/schema.prisma), without the texts,
-- links and files that no condition reads.
use d_reader_backend.Base.{ℕ, String, Bool, Option, List, Action}

pub record Comic : Type 0 where
  pub title : String
  pub slug : String
  pub creator_id : ℕ
  pub featured_at : Option ℕ
  pub verified_at : Option ℕ
  pub published_at : Option ℕ
  pub popularized_at : Option ℕ
  pub completed_at : Option ℕ
  pub genres : List String

pub record ComicIssue : Type 0 where
  pub id : ℕ
  pub number : ℕ
  pub title : String
  pub slug : String
  pub comic_slug : String
  pub is_free_to_read : Bool
  pub featured_at : Option ℕ
  pub verified_at : Option ℕ
  pub published_at : Option ℕ
  pub popularized_at : Option ℕ

pub record ComicPage : Type 0 where
  pub comic_issue_id : ℕ
  pub page_number : ℕ
  pub is_previewable : Bool

pub record UserComic : Type 0 where
  pub comic_slug : String
  pub user_id : ℕ
  pub rating : Option ℕ
  pub subscribed_at : Option ℕ
  pub favourited_at : Option ℕ
  pub bookmarked_at : Option ℕ
  pub viewed_at : Option ℕ

pub record UserComicIssue : Type 0 where
  pub comic_issue_id : ℕ
  pub user_id : ℕ
  pub rating : Option ℕ
  pub subscribed_at : Option ℕ
  pub favourited_at : Option ℕ
  pub viewed_at : Option ℕ
  pub read_at : Option ℕ

-- `CollectibleComicCollection`
pub record Collection : Type 0 where
  pub address : String
  pub comic_issue_id : ℕ

-- `CollectibleComic` with its metadata and the owner of its digital asset, the user of the wallet
pub record CollectibleComic : Type 0 where
  pub collection_address : String
  pub is_used : Bool
  pub owner : Option ℕ
  pub is_burned : Bool

pub record Library : Type 0 where
  pub comics : List Comic
  pub issues : List ComicIssue
  pub pages : List ComicPage
  pub user_comics : List UserComic
  pub user_comic_issues : List UserComicIssue
  pub collections : List Collection
  pub collectibles : List CollectibleComic
  pub next_id : ℕ

pub data ComicError : Type 0 where
  title_taken slug_taken number_taken : ComicError
  comic_not_found issue_not_found published forbidden_creator on_chain : ComicError
  bad_data : ComicError
  foreign_key : ComicError  -- the database refuses a reference
  type_error : ComicError  -- a field of `null` is read

abbrev pub M : Type 0 → Type 0
M = Action Library ComicError
