-- ===== src/Base/Lists.antt =====
-- Lists over the native numbers. A table of the database is the list of its rows in the order in
-- which a query returns them; the queries that the services make are these functions.
use Prim.Native.Nat.{ℕ, zero, suc, ◌+◌, ◌≤◌}
use mathlib.Core.Path.{◌≡◌, refl, ap}
use mathlib.Core.Bool.{Bool, true, false, ◌&&◌, ◌||◌}
use mathlib.Core.Option.{Option, none, some}
use mathlib.Core.Logic.{◌≢◌}
use mathlib.Core.List.{List, [], ◌∷◌, ◌++◌}
use native.Mathlib.Omega.{arith}
use d_reader_backend.Base.Tests.{if◌then◌else◌}

module _ {ℓ} {A : Type ℓ} where
  abbrev pub length : List A → ℕ
  length [] = 0
  length (x ∷ xs) = suc (length xs)

  abbrev pub get_elem? : List A → ℕ → Option A
  get_elem? [] i = none
  get_elem? (x ∷ xs) zero = some x
  get_elem? (x ∷ xs) (suc i) = get_elem? xs i

  abbrev pub replicate : ℕ → A → List A
  replicate zero a = []
  replicate (suc n) a = a ∷ replicate n a

  -- `findFirst` and `findUnique`, and `find` of an array
  abbrev pub find_first : (A → Bool) → List A → Option A
  find_first p [] = none
  find_first p (x ∷ xs) = if p x then some x else find_first p xs

  -- `findMany`, and `filter` of an array
  abbrev pub find_many : (A → Bool) → List A → List A
  find_many p [] = []
  find_many p (x ∷ xs) = if p x then x ∷ find_many p xs else find_many p xs

  abbrev pub any : (A → Bool) → List A → Bool
  any p [] = false
  any p (x ∷ xs) = p x || any p xs

  abbrev pub all : (A → Bool) → List A → Bool
  all p [] = true
  all p (x ∷ xs) = p x && all p xs

  -- `count`
  abbrev pub count_where : (A → Bool) → List A → ℕ
  count_where p [] = 0
  count_where p (x ∷ xs) = (if p x then 1 else 0) + count_where p xs

  -- `aggregate` with `_sum`
  abbrev pub sum_of : (A → ℕ) → List A → ℕ
  sum_of f [] = 0
  sum_of f (x ∷ xs) = f x + sum_of f xs

  -- `updateMany`, and `update` where the condition is on a unique key
  abbrev pub update_where : (A → Bool) → (A → A) → List A → List A
  update_where p f [] = []
  update_where p f (x ∷ xs) = (if p x then f x else x) ∷ update_where p f xs

  pub length-append : (xs ys : List A) → length (xs ++ ys) ≡ length xs + length ys
  length-append [] ys = omega arith
  length-append (x ∷ xs) ys = omega (arith, length-append xs ys)

  pub length-replicate : (n : ℕ) (a : A) → length (replicate n a) ≡ n
  length-replicate zero a = refl
  length-replicate (suc n) a = omega (arith, length-replicate n a)

  pub count_where-append :
      (p : A → Bool) (xs ys : List A)
      → count_where p (xs ++ ys) ≡ count_where p xs + count_where p ys
  count_where-append p [] ys = omega arith
  count_where-append p (x ∷ xs) ys = omega (arith, count_where-append p xs ys)

  pub sum_of-append : (f : A → ℕ) (xs ys : List A) → sum_of f (xs ++ ys) ≡ sum_of f xs + sum_of f ys
  sum_of-append f [] ys = omega arith
  sum_of-append f (x ∷ xs) ys = omega (arith, sum_of-append f xs ys)

module _ {ℓ κ} {A : Type ℓ} (P : A → Type κ) where
  abbrev pub All : List A → Type κ
  All [] = Unit
  All (x ∷ xs) = P x × All xs

  pub All-append : (xs ys : List A) → All xs → All ys → All (xs ++ ys)
  All-append [] ys h k = k
  All-append (x ∷ xs) ys (p, h) k = (p, All-append xs ys h k)

module _ {ℓ} {A : Type ℓ} (p : A → Bool) where
  pub find_first-holds : (xs : List A) (a : A) → find_first p xs ≡ some a → p a ≡ true
  find_first-holds [] a h = cc
  find_first-holds (x ∷ xs) a h = ground (arith, find_first-holds xs a)

  pub any-find_first : (xs : List A) (a : A) → find_first p xs ≡ some a → any p xs ≡ true
  any-find_first [] a h = cc
  any-find_first (x ∷ xs) a h = ground (arith, any-find_first xs a)

  pub find_first_of_any : (xs : List A) → any p xs ≡ true → find_first p xs ≢ none
  find_first_of_any [] h = cc
  find_first_of_any (x ∷ xs) h = ground (arith, find_first_of_any xs)

  pub any-append_right : (xs ys : List A) → any p ys ≡ true → any p (xs ++ ys) ≡ true
  any-append_right [] ys h = h
  any-append_right (x ∷ xs) ys h = ground (arith, any-append_right xs ys h)

  pub find_first-none : (xs : List A) → any p xs ≡ false → find_first p xs ≡ none
  find_first-none [] h = refl
  find_first-none (x ∷ xs) h = ground (arith, find_first-none xs)

  -- an update that keeps whether a test accepts a row keeps which row is found
  pub find_first-update_where :
      (q : A → Bool) (f : A → A) (xs : List A) (a : A)
      → ((x : A) → p (f x) ≡ p x)
      → find_first p xs ≡ some a
      → find_first p (update_where q f xs) ≡ some (if q a then f a else a)
  find_first-update_where q f [] a keeps e = absurd (cc)
  find_first-update_where q f (x ∷ xs) a keeps e =
      ground (arith, keeps x, find_first-update_where q f xs a keeps)

  pub count_where-none : (xs : List A) → any p xs ≡ false → count_where p xs ≡ 0
  count_where-none [] h = refl
  count_where-none (x ∷ xs) h = ground (arith, count_where-none xs)

  -- an update after which the test accepts no row that it did not accept before
  pub count_where-update_where :
      (q : A → Bool) (f : A → A) (xs : List A)
      → ((x : A) → q x ≡ true → p x ≡ false → p (f x) ≡ false)
      → count_where p (update_where q f xs) ≤ count_where p xs
  count_where-update_where q f [] h = omega arith
  count_where-update_where q f (x ∷ xs) h = ground (arith, h x, count_where-update_where q f xs h)

  pub count_where-same :
      (q : A → Bool) (f : A → A) (xs : List A)
      → ((x : A) → p (f x) ≡ p x)
      → count_where p (update_where q f xs) ≡ count_where p xs
  count_where-same q f [] h = refl
  count_where-same q f (x ∷ xs) h = ground (arith, h x, count_where-same q f xs h)

  pub any-same :
      (q : A → Bool) (f : A → A) (xs : List A)
      → ((x : A) → p (f x) ≡ p x)
      → any p (update_where q f xs) ≡ any p xs
  any-same q f [] h = refl
  any-same q f (x ∷ xs) h = ground (arith, h x, any-same q f xs h)

  -- where no row was accepted, those are that the update makes so
  pub count_where-update_none :
      (q : A → Bool) (f : A → A) (xs : List A)
      → any p xs ≡ false
      → count_where p (update_where q f xs) ≤ count_where q xs
  count_where-update_none q f [] h = omega arith
  count_where-update_none q f (x ∷ xs) h = ground (arith, count_where-update_none q f xs)

  pub count_where-found : (xs : List A) (a : A) → any p xs ≡ true → 1 ≤ count_where p xs
  count_where-found [] a h = cc
  count_where-found (x ∷ xs) a h = ground (arith, count_where-found xs a)

-- The one row that an update by a unique key changes.
module _ {ℓ} {A : Type ℓ} (q : A → Bool) (f : A → A) where
  pub sum_of-update_none :
      (g : A → ℕ) (xs : List A)
      → count_where q xs ≡ 0
      → sum_of g (update_where q f xs) ≡ sum_of g xs
  sum_of-update_none g [] h = refl
  sum_of-update_none g (x ∷ xs) h = ground (arith, sum_of-update_none g xs)

  pub sum_of-update_one :
      (g : A → ℕ) (xs : List A) (a : A)
      → count_where q xs ≤ 1
      → find_first q xs ≡ some a
      → sum_of g (update_where q f xs) + g a ≡ sum_of g xs + g (f a)
  sum_of-update_one g [] a h e = absurd (cc)
  sum_of-update_one g (x ∷ xs) a h e = ground (
    arith,
    sum_of-update_one g xs a,
    sum_of-update_none g xs,
    ap g {x = x} {y = a},
    ap (λ y. g (f y)) {x = x} {y = a},
  )

module _ {ℓ} {A : Type ℓ} where
  pub count_where-sum_of :
      (p : A → Bool) (xs : List A) → count_where p xs ≡ sum_of (λ x. if p x then 1 else 0) xs
  count_where-sum_of p [] = refl
  count_where-sum_of p (x ∷ xs) = omega (arith, count_where-sum_of p xs)

  pub any-found :
      (p q : A → Bool) (xs : List A) (a : A)
      → find_first p xs ≡ some a
      → q a ≡ true
      → any q xs ≡ true
  any-found p q [] a e h = absurd (cc)
  any-found p q (x ∷ xs) a e h = ground (arith, any-found p q xs a, ap q {x = x} {y = a})

  -- the row that any condition finds is the row of its key, where the key is unique
  pub find_first_unique :
      (p q : A → Bool) (xs : List A) (a : A)
      → find_first p xs ≡ some a
      → q a ≡ true
      → count_where q xs ≤ 1
      → find_first q xs ≡ some a
  find_first_unique p q [] a e h c = absurd (cc)
  find_first_unique p q (x ∷ xs) a e h c = ground (
    arith,
    any-found p q xs a,
    count_where-found q xs a,
    find_first_unique p q xs a,
    ap q {x = x} {y = a},
  )

-- The update of the one row of a key, after which a test is true of as many rows as before.
module _ {ℓ} {A : Type ℓ} (p q : A → Bool) (f : A → A) where
  pub count_where-update_one :
      (xs : List A) (a : A)
      → count_where q xs ≤ 1
      → find_first q xs ≡ some a
      → p (f a) ≡ p a
      → count_where p (update_where q f xs) ≡ count_where p xs
  count_where-update_one xs a once e h = ground (
    arith,
    count_where-sum_of p xs,
    count_where-sum_of p (update_where q f xs),
    sum_of-update_one q f (λ x. if p x then 1 else 0) xs a once e,
  )

pub count_where-left {ℓ} :
    {A : Type ℓ} (p q : A → Bool) (xs : List A) → count_where p (find_many q xs) ≤ count_where p xs
count_where-left p q [] = omega arith
count_where-left p q (x ∷ xs) = ground (arith, count_where-left p q xs)
