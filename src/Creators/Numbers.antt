-- ===== src/Creators/Numbers.antt =====
-- Numbers in the handles of src/creator/creator.service.ts: the template that writes one, and what
-- JavaScript reads in the segment of a handle.
use d_reader_backend.Base.{
  nat_eq, zero, refl, ltb, ◌==◌, ◌%◌, ◌-◌, length-append, ap, false, ◌&&◌, ◌/◌, arith, ◌+◌, ◌*◌,
  ◌^◌, if◌then◌else◌, all, leb, suc, true, some, ◌≤◌, ◌∷◌, length, ◌++◌, ◌<◌, ◌≡◌, Bool, [], Option,
  List, ℕ,
}

abbrev pub Text : Type 0
Text = List ℕ

abbrev pub same_text : Text → Text → Bool
same_text [] [] = true
same_text [] (c ∷ cs) = false
same_text (c ∷ cs) [] = false
same_text (c ∷ cs) (d ∷ ds) = (c == d) && same_text cs ds

-- `${n}`, on fuel, which is the number of digits that there may be
unfoldable pub decimal : ℕ → ℕ → Text
decimal zero n = []
decimal (suc f) n =
    let front = decimal f (n / 10) in
    if ltb n 10 then (b'0' + n) ∷ [] else front ++ ((b'0' + n % 10) ∷ [])

-- `${baseHandle}_${currentNumber}`, of a number below 1000
abbrev pub template : Text → ℕ → Text
template base n = base ++ (b'_' ∷ decimal 3 n)

abbrev pub is_digit : ℕ → Bool
is_digit c = leb b'0' c && leb c b'9'

-- the value of digits behind those of `n`
abbrev pub value_from : ℕ → Text → ℕ
value_from n [] = n
value_from n (c ∷ cs) = value_from (n * 10 + (c - b'0')) cs

-- `+text`, where it is a natural number: no digits are 0, and text of another form is read by the
-- language
unfoldable pub number_of : (Text → Option ℕ) → Text → Option ℕ
number_of other s = if all is_digit s then some (value_from 0 s) else other s

pub same_text-eq : (s t : Text) → same_text s t ≡ true → s ≡ t
same_text-eq [] [] h = refl
same_text-eq [] (d ∷ ds) h = absurd (cc)
same_text-eq (c ∷ cs) [] h = absurd (cc)
same_text-eq (c ∷ cs) (d ∷ ds) h = ground (arith, same_text-eq cs ds)

value_from-append : (n : ℕ) (s t : Text) → value_from n (s ++ t) ≡ value_from (value_from n s) t
value_from-append n [] t = refl
value_from-append n (c ∷ cs) t = value_from-append (n * 10 + (c - b'0')) cs t

all-append : (p : ℕ → Bool) (s t : Text) → all p (s ++ t) ≡ (all p s && all p t)
all-append p [] t = refl
all-append p (c ∷ cs) t = ground (arith, all-append p cs t)

-- a number that fits the digits is written in digits, which have its value
pub digits-decimal : (f n : ℕ) → n < 10 ^ f → all is_digit (decimal f n) ≡ true
unfolding decimal
digits-decimal zero n h = refl
digits-decimal (suc f) n h = ground (
  arith,
  digits-decimal f (n / 10),
  all-append is_digit (decimal f (n / 10)) ((b'0' + n % 10) ∷ []),
)

value_from-decimal : (f n : ℕ) → n < 10 ^ f → value_from 0 (decimal f n) ≡ n
unfolding decimal
value_from-decimal zero n h = ground arith
value_from-decimal (suc f) n h = ground (
  arith,
  value_from-decimal f (n / 10),
  value_from-append 0 (decimal f (n / 10)) ((b'0' + n % 10) ∷ []),
)

pub length-decimal : (f n : ℕ) → length (decimal f n) ≤ f
unfolding decimal
length-decimal zero n = omega arith
length-decimal (suc f) n =
    ground
      (arith, length-decimal f (n / 10), length-append (decimal f (n / 10)) ((b'0' + n % 10) ∷ []))

pub number_of-decimal :
    (other : Text → Option ℕ) (n : ℕ) → n < 1000 → number_of other (decimal 3 n) ≡ some n
unfolding number_of
number_of-decimal other n h =
    rw (digits-decimal 3 n (omega (arith, h))) (ap some (value_from-decimal 3 n (omega (arith, h))))
