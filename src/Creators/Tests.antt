-- ===== src/Creators/Tests.antt =====
-- Handles of creator channels of src/creator/creator.service.ts at concrete inputs.
use d_reader_backend.Creators.Handles.{create_unique_handle_unique}
use d_reader_backend.Base.{arith, ◌≤◌, length, false, refl, ◌∷◌, any, List, [], none, ◌≡◌}
use d_reader_backend.Creators.{number_of, create_unique_handle, Names}
use d_reader_backend.Creators.Numbers.{decimal, number_of, same_text, Text}
use Prim.Native.Char.{code}
use Prim.Native.String.{[], String}

abbrev text : String → Text
text String.[] = []
text (String.◌∷◌ c s) = code c ∷ text s

-- display names that are in snake case already, and no numbers but those in digits
abbrev names : Names
names = record { snake_case = λ t. t; other_number = λ t. none }

abbrev handles : List Text
handles = text "flash" ∷ text "flash_1" ∷ text "flash_gordon" ∷ text "flash_gordon_2" ∷ []

-- the number 2 counts as taken for `flash` too
third_number : create_unique_handle names (text "flash") handles ≡ text "flash_3"
unfolding create_unique_handle number_of decimal
third_number = refl

long_name :
    create_unique_handle names
      (text "the_adventures_of_flash_gordon")
      (text "the_adventures_of_fl" ∷ [])
    ≡ text "the_adventures_o_1"
unfolding create_unique_handle number_of decimal
long_name = refl

create_unique_handle_unique_example :
    (any (λ h. same_text h (create_unique_handle names (text "flash") handles)) handles ≡ false)
    × (length (create_unique_handle names (text "flash") handles) ≤ 20)
create_unique_handle_unique_example =
    create_unique_handle_unique names (text "flash") handles (omega arith)
