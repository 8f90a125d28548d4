-- ===== src/Comics/Status/Deleted.antt =====
-- What `delete` of src/comic/comic.service.ts leaves.
use d_reader_backend.Comics.Readers.Rows.{any-none_of}
use d_reader_backend.Base.{
  none, ap, refl, [], if_both, not, Result, arith, ◌∷◌, find_many, if_cases, Option, some, false,
  ◌≡◌, find_first, ◌&&◌, ◌≤◌, count_where, any, String, List, is_some, Bool,
}
use d_reader_backend.Comics.Model.{Library, ComicError, Comic}
use d_reader_backend.Comics.Status.{of_comic, is_on_chain, delete, has_slug, delete_found}

abbrev pub is_published : Comic → Bool
is_published c = is_some c.published_at

-- what is left of rows from which those of a test are taken, where another test accepts none of them
count_where-find_many {ℓ} :
    {A : Type ℓ} (p q : A → Bool) (xs : List A)
    → any (λ x. q x && p x) xs ≡ false
    → count_where p (find_many (λ x. not (q x)) xs) ≡ count_where p xs
count_where-find_many p q [] h = refl
count_where-find_many p q (x ∷ xs) h = ground (arith, count_where-find_many p q xs)

-- the one row of a unique key tells what the rows of the key are
any-key {ℓ} :
    {A : Type ℓ} (q p : A → Bool) (xs : List A) (a : A)
    → count_where q xs ≤ 1
    → find_first q xs ≡ some a
    → p a ≡ false
    → any (λ x. q x && p x) xs ≡ false
any-key q p [] a once e h = refl
any-key q p (x ∷ xs) a once e h =
    ground (arith, any-key q p xs a, any-none_of q p xs, ap p {x = x} {y = a})

-- With unique slugs, `delete` takes away no comic that is published, whatever its result.
pub delete-published :
    (slug : String) (s : Library)
    → count_where (has_slug slug) s.comics ≤ 1
    → count_where is_published (delete slug s).1.comics ≡ count_where is_published s.comics
unfolding delete
delete-published slug s once = of_row (find_first (has_slug slug) s.comics) refl
  where
    of_row :
        (o : Option Comic)
        → find_first (has_slug slug) s.comics ≡ o
        → count_where is_published (delete_found o slug s).1.comics
          ≡ count_where is_published s.comics
    of_row none e = refl
    of_row (some c) e =
        if_cases
          (λ (m : Result ComicError (Unit {0}) × Library).
            count_where is_published m.1.comics ≡ count_where is_published s.comics)
          (is_some c.published_at) _ _ (λ _. refl)
          (λ h.
            if_both
              (λ (m : Result ComicError (Unit {0}) × Library).
                count_where is_published m.1.comics ≡ count_where is_published s.comics)
              (is_on_chain (of_comic slug) s) _ _ refl
              (count_where-find_many is_published (has_slug slug) s.comics
                (any-key (has_slug slug) is_published s.comics c once e h)))
