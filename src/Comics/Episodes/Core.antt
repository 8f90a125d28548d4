-- ===== src/Comics/Episodes/Core.antt =====
-- Rows of issues of src/comic-issue/comic-issue.service.ts: what is written on chain of an issue.
use d_reader_backend.Base.{
  any-found, ◌&&◌, find_first-holds, find_many, not, inr, arith, ap, none, inl, find_first, some,
  false, Bool-cases, refl, nat_eq, update_where, true, any, ◌==◌, [], ◌∷◌, ◌≡◌, Bool, List, Option,
  String, ℕ,
}
use d_reader_backend.Comics.Model.{Collection, ComicIssue}
use d_reader_backend.Comics.Episodes.{has_issue}

-- what is written on chain of an issue
abbrev pub core_of : ComicIssue → ℕ × String × String × String × Bool
core_of i = (i.number, i.title, i.slug, i.comic_slug, i.is_free_to_read)

abbrev pub core_found : Option ComicIssue → Option (ℕ × String × String × String × Bool)
core_found none = none
core_found (some i) = some (core_of i)

abbrev pub core_at : ℕ → List ComicIssue → Option (ℕ × String × String × String × Bool)
core_at id is = core_found (find_first (has_issue id) is)

pub clash : (b : Bool) → b ≡ true → b ≡ false → ⊥
clash b h k = cc

pub core_at-update_where :
    (id other : ℕ) (f : ComicIssue → ComicIssue) (is : List ComicIssue)
    → ((i : ComicIssue) → (f i).id ≡ i.id)
    → ((i : ComicIssue) → (other == id) ≡ true → core_of (f i) ≡ core_of i)
    → core_at id (update_where (has_issue other) f is) ≡ core_at id is
core_at-update_where id other f [] h k = refl
core_at-update_where id other f (i ∷ is) h k = elim (Bool-cases (i.id == id)) [
  | inl e ↦ elim (Bool-cases (i.id == other)) [
    | inl g ↦ rw (g, h i, e) (ap some (k i (ground (arith, e, g))))
    | inr g ↦ rw (g, e) refl
  ]
  | inr e ↦ elim (Bool-cases (i.id == other)) [
    | inl g ↦ rw (g, h i, e) (core_at-update_where id other f is h k)
    | inr g ↦ rw (g, e) (core_at-update_where id other f is h k)
  ]
]

pub core_at-without :
    (id other : ℕ) (is : List ComicIssue)
    → (other == id) ≡ false
    → core_at id (find_many (λ i. not (has_issue other i)) is) ≡ core_at id is
core_at-without id other [] h = refl
core_at-without id other (i ∷ is) h = elim (Bool-cases (i.id == other)) [
  | inl g ↦ elim (Bool-cases (i.id == id)) [
    | inl e ↦ absurd (clash (other == id) (ground (arith, e, g)) h)
    | inr e ↦ rw (g, e) (core_at-without id other is h)
  ]
  | inr g ↦ elim (Bool-cases (i.id == id)) [
    | inl e ↦ rw (g, e) refl
    | inr e ↦ rw (g, e) (core_at-without id other is h)
  ]
]

-- the collection of an issue that exists keeps the issue
pub is_on_chain-found :
    (id : ℕ) (i : ComicIssue) (is : List ComicIssue) (cs : List Collection)
    → find_first (has_issue id) is ≡ some i
    → any (λ c. c.comic_issue_id == id) cs ≡ true
    → any (λ c. any (λ i. (i.id == c.comic_issue_id) && has_issue id i) is) cs ≡ true
is_on_chain-found id i is [] e h = absurd (cc)
is_on_chain-found id i is (c ∷ cs) e h = ground (
  arith,
  h,
  is_on_chain-found id i is cs e,
  ap (λ z. any (λ i. (i.id == z) && has_issue id i) is) {x = c.comic_issue_id} {y = id},
  any-found (has_issue id) (λ i. (i.id == id) && has_issue id i) is i e,
  find_first-holds (has_issue id) is i e,
)
