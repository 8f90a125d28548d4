-- ===== src/Base/Texts.antt =====
-- Comparisons of texts by the database that sort them into classes, as one that ignores case does.
use Prim.Native.String.{String}
use mathlib.Core.Path.{◌≡◌, refl}
use mathlib.Core.Bool.{Bool, true, false}
use mathlib.Core.List.{List, [], ◌∷◌}
use native.Mathlib.Omega.{arith}
use d_reader_backend.Base.Lists.{any}

abbrev pub IsEuclidean : (String → String → Bool) → Type 0
IsEuclidean same = (t a b : String) → same t a ≡ true → same t b ≡ true → same a b ≡ true

-- where no row is in the class of a text, none is in the class of a text of that class
module _ {ℓ} {A : Type ℓ} (same : String → String → Bool) (law : IsEuclidean same)
    (key : A → String) where
  pub none-of_same :
      (t v : String) (xs : List A)
      → same t v ≡ true
      → any (λ x. same v (key x)) xs ≡ false
      → any (λ x. same t (key x)) xs ≡ false
  none-of_same t v [] e h = refl
  none-of_same t v (x ∷ xs) e h = ground (arith, law t v (key x), none-of_same t v xs)
