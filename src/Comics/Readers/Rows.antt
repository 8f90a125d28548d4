-- ===== src/Comics/Readers/Rows.antt =====
-- Rows of readers of src/comic/user-comic.service.ts and updates of a date in them.
use d_reader_backend.Base.{
  none, nat_eq, string_eq, refl, [], arith, find_first, ◌∷◌, update_where, is_some, true, ◌&&◌, ◌≤◌,
  false, any, ◌≡◌, count_where, Bool, String, Option, List, ℕ,
}
use d_reader_backend.Comics.Model.{UserComic}
use d_reader_backend.Comics.Readers.{
  new_user_comic, subscribed, favourited, bookmarked, viewed, is_dated, set_date, date_of,
  ComicDate, is_user_comic,
}

abbrev pub same_date : ComicDate → ComicDate → Bool
same_date subscribed subscribed = true
same_date favourited favourited = true
same_date bookmarked bookmarked = true
same_date viewed viewed = true
same_date _ _ = false

-- whether the reader has the date for the comic
abbrev pub has_date : ComicDate → String → ℕ → List UserComic → Bool
has_date p slug u rows = any (λ r. is_user_comic slug u r && is_some (date_of p r)) rows

-- no two rows of a key
abbrev pub IsKeyed : List UserComic → Type 0
IsKeyed rows = (slug : String) (u : ℕ) → count_where (is_user_comic slug u) rows ≤ 1

pub set_date-same : (p : ComicDate) (d : Option ℕ) (r : UserComic) → date_of p (set_date p d r) ≡ d
set_date-same subscribed d r = refl
set_date-same favourited d r = refl
set_date-same bookmarked d r = refl
set_date-same viewed d r = refl

pub set_date-other :
    (p q : ComicDate) (d : Option ℕ) (r : UserComic)
    → same_date p q ≡ false
    → date_of p (set_date q d r) ≡ date_of p r
set_date-other subscribed subscribed d r h = absurd (cc)
set_date-other subscribed favourited d r h = refl
set_date-other subscribed bookmarked d r h = refl
set_date-other subscribed viewed d r h = refl
set_date-other favourited subscribed d r h = refl
set_date-other favourited favourited d r h = absurd (cc)
set_date-other favourited bookmarked d r h = refl
set_date-other favourited viewed d r h = refl
set_date-other bookmarked subscribed d r h = refl
set_date-other bookmarked favourited d r h = refl
set_date-other bookmarked bookmarked d r h = absurd (cc)
set_date-other bookmarked viewed d r h = refl
set_date-other viewed subscribed d r h = refl
set_date-other viewed favourited d r h = refl
set_date-other viewed bookmarked d r h = refl
set_date-other viewed viewed d r h = absurd (cc)

pub set_date-key :
    (slug : String) (u : ℕ) (p : ComicDate) (d : Option ℕ) (r : UserComic)
    → is_user_comic slug u (set_date p d r) ≡ is_user_comic slug u r
set_date-key slug u subscribed d r = refl
set_date-key slug u favourited d r = refl
set_date-key slug u bookmarked d r = refl
set_date-key slug u viewed d r = refl

-- an update after which a test has one value on the rows of a condition
pub any-updated {ℓ} :
    {A : Type ℓ} (q t : A → Bool) (f : A → A) (b : Bool) (xs : List A)
    → ((x : A) → q (f x) ≡ q x)
    → ((x : A) → t (f x) ≡ b)
    → any (λ x. q x && t x) (update_where q f xs) ≡ any q xs && b
any-updated q t f b [] h k = refl
any-updated q t f b (x ∷ xs) h k = ground (arith, h x, k x, any-updated q t f b xs h k)

-- an update that leaves a test alone on the rows that it changes
pub any-kept {ℓ} :
    {A : Type ℓ} (p q : A → Bool) (f : A → A) (xs : List A)
    → ((x : A) → q x ≡ true → p (f x) ≡ p x)
    → any p (update_where q f xs) ≡ any p xs
any-kept p q f [] h = refl
any-kept p q f (x ∷ xs) h = ground (arith, h x, any-kept p q f xs h)

pub any-none_of {ℓ} :
    {A : Type ℓ} (q t : A → Bool) (xs : List A)
    → count_where q xs ≡ 0
    → any (λ x. q x && t x) xs ≡ false
any-none_of q t [] h = refl
any-none_of q t (x ∷ xs) h = ground (arith, any-none_of q t xs)

-- the row of a unique key tells what any row of the key does
pub is_dated-found :
    (p : ComicDate) (slug : String) (u : ℕ) (rows : List UserComic)
    → count_where (is_user_comic slug u) rows ≤ 1
    → is_dated p (find_first (is_user_comic slug u) rows) ≡ has_date p slug u rows
is_dated-found p slug u [] h = refl
is_dated-found p slug u (r ∷ rows) h = ground (
  arith,
  is_dated-found p slug u rows,
  any-none_of (is_user_comic slug u) (λ r. is_some (date_of p r)) rows,
)

pub date_of-new : (p : ComicDate) (slug : String) (u : ℕ) → date_of p (new_user_comic slug u) ≡ none
date_of-new subscribed slug u = refl
date_of-new favourited slug u = refl
date_of-new bookmarked slug u = refl
date_of-new viewed slug u = refl

pub same_date-eq : (p q : ComicDate) → same_date p q ≡ true → p ≡ q
same_date-eq subscribed subscribed h = refl
same_date-eq subscribed favourited h = absurd (cc)
same_date-eq subscribed bookmarked h = absurd (cc)
same_date-eq subscribed viewed h = absurd (cc)
same_date-eq favourited subscribed h = absurd (cc)
same_date-eq favourited favourited h = refl
same_date-eq favourited bookmarked h = absurd (cc)
same_date-eq favourited viewed h = absurd (cc)
same_date-eq bookmarked subscribed h = absurd (cc)
same_date-eq bookmarked favourited h = absurd (cc)
same_date-eq bookmarked bookmarked h = refl
same_date-eq bookmarked viewed h = absurd (cc)
same_date-eq viewed subscribed h = absurd (cc)
same_date-eq viewed favourited h = absurd (cc)
same_date-eq viewed bookmarked h = absurd (cc)
same_date-eq viewed viewed h = refl

-- rows without one of the key
pub any-none_key {ℓ} :
    {A : Type ℓ} (q t : A → Bool) (xs : List A)
    → any q xs ≡ false
    → any (λ x. q x && t x) xs ≡ false
any-none_key q t [] h = refl
any-none_key q t (x ∷ xs) h = ground (arith, any-none_key q t xs)

pub set_date-slug :
    (p : ComicDate) (d : Option ℕ) (r : UserComic) → (set_date p d r).comic_slug ≡ r.comic_slug
set_date-slug subscribed d r = refl
set_date-slug favourited d r = refl
set_date-slug bookmarked d r = refl
set_date-slug viewed d r = refl
