-- ===== src/Coupons/Labels.antt =====
-- The labels of the currencies of coupons: `getCouponLabel` of src/utils/helpers.ts and
-- `getCouponsWithLabels` of src/candy-machine/candy-machine.service.ts. A label is the parts of the
-- text, which the letters in front and the dash keep apart.
use d_reader_backend.Base.{
  suc, ◌∙◌, refl, arith, true, ap, ◌≡◌, if◌then◌else◌, ◌-◌, ◌+◌, none, [], some, count_where,
  nat_eq, length, ◌&&◌, ◌==◌, ◌∷◌, Option, Bool, String, List, ℕ,
}
use d_reader_backend.Mint.Model.{
  whitelisted_wallet, registered_user, whitelisted_user, public_user, CouponType,
}

pub record Label : Type 0 where
  pub type : CouponType
  pub type_iteration : ℕ
  pub currency_iteration : ℕ

abbrev pub type_number : CouponType → ℕ
type_number public_user = 0
type_number whitelisted_user = 1
type_number registered_user = 2
type_number whitelisted_wallet = 3

abbrev pub same_type : CouponType → CouponType → Bool
same_type t u = type_number t == type_number u

abbrev pub same_label : Label → Label → Bool
same_label x y =
    same_type x.type y.type
    && (x.type_iteration == y.type_iteration)
    && (x.currency_iteration == y.currency_iteration)

-- `getCouponLabel`
unfoldable pub get_coupon_label : CouponType → ℕ → ℕ → Label
get_coupon_label t n m = record { type = t; type_iteration = n; currency_iteration = m }

-- a coupon of a new candy machine, with the tokens of its currencies
pub record NewCoupon : Type 0 where
  pub type : CouponType
  pub currencies : List (Option String)

-- `typeFrequencyMap`, with 0 for a type that it has not
abbrev pub Frequencies : Type 0
Frequencies = CouponType → ℕ

abbrev set_frequency : CouponType → ℕ → Frequencies → Frequencies
set_frequency t n f u = if same_type u t then n else f u

-- the first loop
unfoldable pub count_types : List NewCoupon → Frequencies → Frequencies
count_types [] f = f
count_types (c ∷ cs) f = count_types cs (set_frequency c.type (f c.type + 1) f)

abbrev or_sol : String → Option String → String
or_sol sol none = sol
or_sol sol (some t) = t

-- the currencies of a coupon, with the frequency that is left
unfoldable pub label_currencies :
    String → CouponType → ℕ → ℕ → List (Option String) → List (String × Label)
unfolding get_coupon_label
label_currencies sol t n frequency [] = []
label_currencies sol t n frequency (x ∷ xs) =
    (or_sol sol x, get_coupon_label t n (frequency - 1))
    ∷ label_currencies sol t n (frequency - 1) xs

-- the second loop
unfoldable pub label_coupons : String → List NewCoupon → Frequencies → List (List (String × Label))
unfolding label_currencies
label_coupons sol [] f = []
label_coupons sol (c ∷ cs) f =
    label_currencies sol c.type (f c.type - 1) (length c.currencies) c.currencies
    ∷ label_coupons sol cs (set_frequency c.type (f c.type - 1) f)

-- `getCouponsWithLabels`: for each coupon its currencies with their labels
unfoldable pub get_coupons_with_labels : String → List NewCoupon → List (List (String × Label))
unfolding count_types label_coupons
get_coupons_with_labels sol cs = label_coupons sol cs (count_types cs (λ t. 0))

-- how many coupons of the type there are
abbrev pub of_type : CouponType → List NewCoupon → ℕ
of_type t cs = count_where (λ d. same_type d.type t) cs

-- the labels without counters: a coupon has the number of the coupons of its type that follow, and a
-- currency the number of those that follow
abbrev pub number_currencies :
    String → CouponType → ℕ → List (Option String) → List (String × Label)
number_currencies sol t n [] = []
number_currencies sol t n (x ∷ xs) =
    (or_sol sol x, get_coupon_label t n (length xs)) ∷ number_currencies sol t n xs

abbrev pub number_coupons : String → List NewCoupon → List (List (String × Label))
number_coupons sol [] = []
number_coupons sol (c ∷ cs) =
    number_currencies sol c.type (of_type c.type cs) c.currencies ∷ number_coupons sol cs

label_currencies-numbered :
    (sol : String) (t : CouponType) (n : ℕ) (xs : List (Option String))
    → label_currencies sol t n (length xs) xs ≡ number_currencies sol t n xs
unfolding label_currencies
label_currencies-numbered sol t n [] = refl
label_currencies-numbered sol t n (x ∷ xs) =
    let m : suc (length xs) - 1 ≡ length xs = omega arith in
    ap (λ k. (or_sol sol x, get_coupon_label t n k) ∷ label_currencies sol t n k xs) m
    ∙ ap (λ rest. (or_sol sol x, get_coupon_label t n (length xs)) ∷ rest)
        (label_currencies-numbered sol t n xs)

same_type-eq : (t u : CouponType) → same_type t u ≡ true → t ≡ u
same_type-eq t u h = ground arith

count_types-of_type :
    (cs : List NewCoupon) (f : Frequencies) (t : CouponType)
    → count_types cs f t ≡ f t + of_type t cs
unfolding count_types
count_types-of_type [] f t = omega arith
count_types-of_type (c ∷ cs) f t = ground (
  arith,
  count_types-of_type cs (set_frequency c.type (f c.type + 1) f) t,
  same_type-eq t c.type,
  ap f {x = t} {y = c.type},
)

label_coupons-numbered :
    (sol : String) (cs : List NewCoupon) (f : Frequencies)
    → ((t : CouponType) → f t ≡ of_type t cs)
    → label_coupons sol cs f ≡ number_coupons sol cs
unfolding label_coupons
label_coupons-numbered sol [] f h = refl
label_coupons-numbered sol (c ∷ cs) f h =
    let n : f c.type - 1 ≡ of_type c.type cs = ground (arith, h c.type) in
    let rest = label_coupons-numbered sol cs (set_frequency c.type (f c.type - 1) f) (λ t.
      ground (arith, h t, n, same_type-eq t c.type, ap (λ u. of_type u cs) {x = t} {y = c.type})) in
    ap
      (λ k.
        label_currencies sol c.type k (length c.currencies) c.currencies
        ∷ label_coupons sol cs (set_frequency c.type (f c.type - 1) f))
      n
    ∙ ap (λ k. k ∷ label_coupons sol cs (set_frequency c.type (f c.type - 1) f))
        (label_currencies-numbered sol c.type (of_type c.type cs) c.currencies)
    ∙ ap (λ k. number_currencies sol c.type (of_type c.type cs) c.currencies ∷ k) rest

-- The labels of the coupons of a new candy machine number the coupons of each type, and the
-- currencies of each coupon, down to 0: the label of a currency has the number of the coupons of the type that
-- follow, and of the currencies that follow.
pub get_coupons_with_labels-numbered :
    (sol : String) (cs : List NewCoupon) → get_coupons_with_labels sol cs ≡ number_coupons sol cs
unfolding get_coupons_with_labels
get_coupons_with_labels-numbered sol cs =
    label_coupons-numbered sol cs (count_types cs (λ t. 0))
      (λ t. ground (arith, count_types-of_type cs (λ u. 0) t))
