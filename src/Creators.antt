-- ===== src/Creators.antt =====
-- The handle of a new creator channel: `createUniqueHandle` of src/creator/creator.service.ts. A text
-- is the list of its UTF-16 code units, as JavaScript counts and cuts it.
pub mod Numbers
pub mod Handles
mod Tests
use d_reader_backend.Creators.Numbers.{Text, same_text, template, number_of}
use d_reader_backend.Base.{
  ◌&&◌, nat_eq, zero, ◌==◌, suc, length, false, ◌++◌, find_many, ltb, true, some, ◌-◌, [], any,
  none, ◌∷◌, List, if◌then◌else◌, Bool, min, Option, ℕ,
}

-- lodash's `snakeCase`, and the natural numbers that JavaScript reads in a text that is not made of
-- digits, such as `0x1f` and `1e3`
pub record Names : Type 0 where
  pub snake_case : Text → Text
  pub other_number : Text → Option ℕ

abbrev pub handle_max_size : ℕ
handle_max_size = 20

-- `startsWith` of the database
abbrev pub starts_with : Text → Text → Bool
starts_with text [] = true
starts_with [] (p ∷ ps) = false
starts_with (c ∷ cs) (p ∷ ps) = (c == p) && starts_with cs ps

-- `slice` from 0
abbrev pub slice : Text → ℕ → Text
slice [] n = []
slice (c ∷ cs) zero = []
slice (c ∷ cs) (suc n) = c ∷ slice cs n

-- `split('_').at(-1)`: what follows the last `_`, behind what was read of its segment
abbrev pub last_segment : Text → Text → Text
last_segment segment [] = segment
last_segment segment (c ∷ cs) =
    let next = last_segment [] cs in
    let same = last_segment (segment ++ (c ∷ [])) cs in if c == b'_' then next else same

-- `takenHandleNumbers`: the numbers that are not `NaN`
abbrev pub taken_numbers : Names → List Text → List ℕ
taken_numbers names [] = []
taken_numbers names (h ∷ hs) = elim (number_of names.other_number (last_segment [] h)) [
  | none ↦ taken_numbers names hs
  | some n ↦ n ∷ taken_numbers names hs
]

-- the loop, with its rounds that are left
abbrev pub first_free : (rounds current : ℕ) → List ℕ → Option ℕ
first_free zero c taken = none
first_free (suc n) c taken =
    let rest = first_free n (suc c) taken in if any (λ t. t == c) taken then rest else some c

-- the loop runs for the numbers from 1 to 998
abbrev pub rounds : ℕ
rounds = 998

abbrev pub numbered_or : Text → Text → Option ℕ → Text
numbered_or handle base none = handle
numbered_or handle base (some n) = template base n

-- `baseHandle`
abbrev pub base_of : Text → Text
base_of handle = slice handle (min (handle_max_size - 4) (length handle))

-- the handle where `handle` is taken
abbrev pub other_handle : Names → Text → List Text → Text
other_handle names handle handles =
    let base = base_of handle in
    numbered_or handle base
      (first_free rounds 1 (taken_numbers names (find_many (λ h. starts_with h base) handles)))

abbrev pub short_handle : Text → Text
short_handle handle =
    if ltb handle_max_size (length handle) then slice handle handle_max_size else handle

unfoldable pub create_unique_handle : Names → Text → List Text → Text
create_unique_handle names display_name handles =
    let handle = short_handle (names.snake_case display_name) in
    if any (λ h. same_text h handle) handles then other_handle names handle handles else handle
