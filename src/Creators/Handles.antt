-- ===== src/Creators/Handles.antt =====
-- The handle that `createUniqueHandle` of src/creator/creator.service.ts finds is unique.
use d_reader_backend.Base.{
  length-append, min, all, ◌<◌, ◌++◌, if_cases, Option, count_where-found, if◌then◌else◌, string_eq,
  ◌∙◌, inr, zero, nat_eq, ap, refl, inl, sym, Bool-cases, ◌+◌, [], false, any, ltb, ◌==◌, arith,
  ◌∷◌, find_many, some, suc, ◌&&◌, ◌≤◌, true, leb, count_where, ◌≡◌, length, List, none, Bool, ℕ,
}
use d_reader_backend.Creators.Numbers.{
  number_of, Text, same_text, same_text-eq, template, decimal, number_of-decimal, is_digit,
  digits-decimal, length-decimal,
}
use d_reader_backend.Creators.{
  number_of, numbered_or, short_handle, base_of, rounds, create_unique_handle, taken_numbers,
  first_free, Names, starts_with, slice, last_segment, handle_max_size,
}

abbrev within : (k m x : ℕ) → Bool
within k m x = leb k x && ltb x (k + m)

-- numbers in a row that are all taken are no more than those taken
count_within :
    (k m : ℕ) (xs : List ℕ)
    → count_where (within k (suc m)) xs
      ≡ count_where (λ x. x == k) xs + count_where (within (suc k) m) xs
count_within k m [] = omega arith
count_within k m (x ∷ xs) = ground (arith, count_within k m xs)

none_ne_some : (k : ℕ) → none ≡ some k → ⊥
none_ne_some k h = cc

first_free-none :
    (m k : ℕ) (xs : List ℕ) → first_free m k xs ≡ none → m ≤ count_where (within k m) xs
first_free-none zero k xs h = omega arith
first_free-none (suc m) k xs h = elim (Bool-cases (any (λ t. t == k) xs)) [
  | inl e ↦ omega (
    arith,
    count_within k m xs,
    count_where-found (λ t. t == k) xs k e,
    first_free-none m (suc k) xs (ground (arith, h, e)),
  )
  | inr e ↦ absurd (taken-absurd e h)
]
  where
    taken-absurd : any (λ t. t == k) xs ≡ false → first_free (suc m) k xs ≡ none → ⊥
    taken-absurd e h =
        none_ne_some k (sym h ∙ ap (λ b. if b then first_free m (suc k) xs else some k) e)

first_free-some :
    (m k n : ℕ) (xs : List ℕ) → first_free m k xs ≡ some n → any (λ t. t == n) xs ≡ false
first_free-some zero k n xs h = absurd (cc)
first_free-some (suc m) k n xs h =
    ground
      (arith, h, first_free-some m (suc k) n xs, ap (λ z. any (λ t. t == z) xs) {x = k} {y = n})

count_where-length {ℓ} : {A : Type ℓ} (p : A → Bool) (xs : List A) → count_where p xs ≤ length xs
count_where-length p [] = omega arith
count_where-length p (x ∷ xs) = ground (arith, count_where-length p xs)

-- the number that the loop finds is one of its rounds
first_free_lt : (m k n : ℕ) (xs : List ℕ) → first_free m k xs ≡ some n → n < k + m
first_free_lt zero k n xs h = absurd (cc)
first_free_lt (suc m) k n xs h = ground (arith, h, first_free_lt m (suc k) n xs)

starts_with-append : (base t : Text) → starts_with (base ++ t) base ≡ true
starts_with-append [] t = refl
starts_with-append (c ∷ cs) t = ground (arith, starts_with-append cs t)

append_nil : (s : Text) → (s ++ []) ≡ s
append_nil [] = refl
append_nil (c ∷ cs) = ap (λ t. c ∷ t) (append_nil cs)

append_snoc : (s t : Text) (c : ℕ) → ((s ++ (c ∷ [])) ++ t) ≡ (s ++ (c ∷ t))
append_snoc [] t c = refl
append_snoc (d ∷ ds) t c = ap (λ u. d ∷ u) (append_snoc ds t c)

-- a segment of digits is read to its end
last_segment-digits :
    (segment t : Text) → all is_digit t ≡ true → last_segment segment t ≡ (segment ++ t)
last_segment-digits segment [] h = sym (append_nil segment)
last_segment-digits segment (c ∷ cs) h =
    ground (arith, last_segment-digits (segment ++ (c ∷ [])) cs, append_snoc segment cs c)

-- what follows `_` is the last segment of a text, if it is digits
last_segment-append :
    (segment base t : Text) → all is_digit t ≡ true → last_segment segment (base ++ (b'_' ∷ t)) ≡ t
last_segment-append segment [] t h = last_segment-digits [] t h
last_segment-append segment (c ∷ cs) t h =
    ground (arith, last_segment-append [] cs t, last_segment-append (segment ++ (c ∷ [])) cs t)

length-slice : (s : Text) (n : ℕ) → length (slice s n) ≤ n
length-slice [] n = omega arith
length-slice (c ∷ cs) zero = omega arith
length-slice (c ∷ cs) (suc n) = omega (arith, length-slice cs n)

module _ (names : Names) where
  length-taken_numbers : (hs : List Text) → length (taken_numbers names hs) ≤ length hs
  length-taken_numbers [] = omega arith
  length-taken_numbers (h ∷ hs) = ground (arith, length-taken_numbers hs)

  length-find_many : (p : Text → Bool) (hs : List Text) → length (find_many p hs) ≡ count_where p hs
  length-find_many p [] = refl
  length-find_many p (h ∷ hs) = ground (arith, length-find_many p hs)

  -- the number of a handle is read back
  number_of-template :
      (base : Text) (n : ℕ)
      → n < 1000
      → number_of names.other_number (last_segment [] (template base n)) ≡ some n
  number_of-template base n h =
      ap (number_of names.other_number)
        (last_segment-append [] base (decimal 3 n) (digits-decimal 3 n (omega (arith, h))))
      ∙ number_of-decimal names.other_number n h

  taken_later :
      (x base : Text) (n : ℕ) (hs : List Text)
      → any (λ t. t == n) (taken_numbers names (find_many (λ h. starts_with h base) hs)) ≡ true
      → any (λ t. t == n) (taken_numbers names (find_many (λ h. starts_with h base) (x ∷ hs)))
        ≡ true
  taken_later x base n hs h = ground (arith, h)

  taken_now :
      (x base : Text) (n : ℕ) (hs : List Text)
      → starts_with x base ≡ true
      → number_of names.other_number (last_segment [] x) ≡ some n
      → any (λ t. t == n) (taken_numbers names (find_many (λ h. starts_with h base) (x ∷ hs)))
        ≡ true
  taken_now x base n hs h k = ground (arith, h, k)

  -- a handle with a number that is there makes the number a taken one
  any-taken_numbers :
      (base : Text) (n : ℕ) (hs : List Text)
      → n < 1000
      → any (λ h. same_text h (template base n)) hs ≡ true
      → any (λ t. t == n) (taken_numbers names (find_many (λ h. starts_with h base) hs)) ≡ true
  any-taken_numbers base n [] small h = absurd (cc)
  any-taken_numbers base n (x ∷ hs) small h = elim (Bool-cases (same_text x (template base n))) [
    | inl e ↦
        taken_now x base n hs
          (ap (λ z. starts_with z base) (same_text-eq x (template base n) e)
            ∙ starts_with-append base (b'_' ∷ decimal 3 n))
          (ap (λ z. number_of names.other_number (last_segment [] z))
              (same_text-eq x (template base n) e)
            ∙ number_of-template base n small)
    | inr e ↦ taken_later x base n hs (any-taken_numbers base n hs small (ground (arith, h, e)))
  ]

  -- the handle with the number that the loop finds, which it finds
  other_handle_unique :
      (handle base : Text) (handles : List Text) (o : Option ℕ)
      → count_where (λ h. starts_with h base) handles ≤ 997
      → first_free rounds 1 (taken_numbers names (find_many (λ h. starts_with h base) handles)) ≡ o
      → length base ≤ 16
      → (any (λ h. same_text h (numbered_or handle base o)) handles ≡ false)
        × (length (numbered_or handle base o) ≤ handle_max_size)
  other_handle_unique handle base handles none few e short =
      let taken = taken_numbers names (find_many (λ h. starts_with h base) handles) in
      absurd (
        too_many (count_where (within 1 rounds) taken) (first_free-none rounds 1 taken e) (
          omega (
            arith,
            count_where-length (within 1 rounds) taken,
            length-taken_numbers (find_many (λ h. starts_with h base) handles),
            length-find_many (λ h. starts_with h base) handles,
            few,
          )))
    where
      too_many : (k : ℕ) → 998 ≤ k → k ≤ 997 → ⊥
      too_many k h g = omega arith
  other_handle_unique handle base handles (some n) few e short =
      let taken = taken_numbers names (find_many (λ h. starts_with h base) handles) in
      let small : n < 1000 = omega (arith, first_free_lt rounds 1 n taken e) in
      let fits : length (template base n) ≤ handle_max_size =
        omega (arith, length-append base (b'_' ∷ decimal 3 n), length-decimal 3 n, short) in
      (
        elim (Bool-cases (any (λ h. same_text h (template base n)) handles)) [
          | inr free ↦ free
          | inl h ↦ absurd (
              taken_and_free (any (λ t. t == n) taken) (any-taken_numbers base n handles small h)
                (first_free-some rounds 1 n taken e))
        ],
        fits,
      )
    where
      taken_and_free : (b : Bool) → b ≡ true → b ≡ false → ⊥
      taken_and_free b h k = cc

short_handle_bound : (handle : Text) → length (short_handle handle) ≤ handle_max_size
short_handle_bound handle = ground (arith, length-slice handle handle_max_size)

base_of_bound : (handle : Text) → length (base_of handle) ≤ 16
base_of_bound handle = ground (arith, length-slice handle (min 16 (length handle)))

-- Where fewer than 998 handles start with the first 16 characters of the wanted one,
-- `createUniqueHandle` returns a handle of 20 characters at most that no creator channel has.
pub create_unique_handle_unique :
    (names : Names) (display_name : Text) (handles : List Text)
    → count_where
        (λ h. starts_with h (base_of (short_handle (names.snake_case display_name))))
        handles
      ≤ 997
    → (any (λ h. same_text h (create_unique_handle names display_name handles)) handles ≡ false)
      × (length (create_unique_handle names display_name handles) ≤ handle_max_size)
unfolding create_unique_handle
create_unique_handle_unique names display_name handles few =
    let handle = short_handle (names.snake_case display_name) in
    if_cases
      (λ (r : Text). (any (λ h. same_text h r) handles ≡ false) × (length r ≤ handle_max_size))
      (any (λ h. same_text h handle) handles) _ _
      (λ _.
        other_handle_unique names handle (base_of handle) handles _ few refl (base_of_bound handle))
      (λ free. (free, short_handle_bound (names.snake_case display_name)))
