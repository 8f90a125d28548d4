-- ===== src/Coupons/Holders.antt =====
-- `fetchCollectionHolders` of src/candy-machine/candy-machine.service.ts: the owners of the assets of
-- a collection, page after page until a page is empty.
use d_reader_backend.Base.{
  sym, ◌∙◌, inr, inl, count_where-none, Bool-cases, ap, eq_iff, count_where-append, refl, arith,
  ◌≤◌, ◌||◌, count_where, ◌≡◌, string_eq, zero, some, ◌++◌, ◌==◌, ◌+◌, suc, any, none,
  if◌then◌else◌, [], false, true, ◌∷◌, Option, Bool, String, List, ℕ,
}

-- `wallets.add` of a page: a set keeps the order of what is added
unfoldable pub add_owners : List String → List String → List String
add_owners [] seen = seen
add_owners (w ∷ ws) seen = add_owners ws (if any (λ x. x == w) seen then seen else seen ++ (w ∷ []))

abbrev pub is_empty {ℓ} : {A : Type ℓ} → List A → Bool
is_empty [] = true
is_empty (x ∷ xs) = false

-- the loop, on fuel; `none` means that the fuel ran out
unfoldable pub collect_pages : ℕ → (ℕ → List String) → ℕ → List String → Option (List String)
unfolding add_owners
collect_pages zero pages page seen = none
collect_pages (suc fuel) pages page seen =
    let rest = collect_pages fuel pages (page + 1) (add_owners (pages page) seen) in
    if is_empty (pages page) then some seen else rest

-- `fetchCollectionHolders`, with the owners of the assets of each page
unfoldable pub fetch_collection_holders : ℕ → (ℕ → List String) → Option (List String)
unfolding collect_pages
fetch_collection_holders fuel pages = collect_pages fuel pages 1 []

-- the loop ends at a page that is empty
collect_pages_ends :
    (n : ℕ) (pages : ℕ → List String) (page : ℕ) (seen : List String)
    → pages (page + n) ≡ []
    → (ws : List String) × (collect_pages (suc n) pages page seen ≡ some ws)
unfolding collect_pages
collect_pages_ends zero pages page seen e =
    (seen, ground (arith, ap (λ k. is_empty (pages k)) {x = page + 0} {y = page}, ap is_empty e))
collect_pages_ends (suc n) pages page seen e = elim (Bool-cases (is_empty (pages page))) [
  | inl done ↦ (seen, rw done refl)
  | inr more ↦
      let there : page + 1 + n ≡ page + suc n = omega arith in
      let (ws, ends) =
        collect_pages_ends n pages (page + 1) (add_owners (pages page) seen) (ap pages there ∙ e) in
      (ws, rw more ends)
]

any-append : (p : String → Bool) (xs ys : List String) → any p (xs ++ ys) ≡ (any p xs || any p ys)
any-append p [] ys = refl
any-append p (x ∷ xs) ys = ground (arith, any-append p xs ys)

any-add_owners :
    (w : String) (ws seen : List String)
    → any (λ x. x == w) (add_owners ws seen) ≡ (any (λ x. x == w) seen || any (λ x. x == w) ws)
unfolding add_owners
any-add_owners w [] seen = ground arith
any-add_owners w (v ∷ ws) seen = ground (
  arith,
  any-add_owners w ws seen,
  any-add_owners w ws (seen ++ (v ∷ [])),
  any-append (λ x. x == w) seen (v ∷ []),
  eq_iff v w,
  ap (λ k. any (λ x. x == k) seen) {x = v} {y = w},
)

once-add_owners :
    (w : String) (ws seen : List String)
    → count_where (λ x. x == w) seen ≤ 1
    → count_where (λ x. x == w) (add_owners ws seen) ≤ 1
unfolding add_owners
once-add_owners w [] seen h = h
once-add_owners w (v ∷ ws) seen h = ground (
  arith,
  once-add_owners w ws seen,
  once-add_owners w ws (seen ++ (v ∷ [])),
  count_where-append (λ x. x == w) seen (v ∷ []),
  count_where-none (λ x. x == v) seen,
  eq_iff v w,
  ap (λ k. count_where (λ x. x == k) seen) {x = v} {y = w},
)

-- the end of the loop: what was seen stays, each owner once, and the owners of every page before the
-- first empty one are there
module _ (pages : ℕ → List String) (w : String) where
  collect_pages-seen :
      (fuel page : ℕ) (seen ws : List String)
      → collect_pages fuel pages page seen ≡ some ws
      → any (λ x. x == w) seen ≡ true
      → any (λ x. x == w) ws ≡ true
  unfolding collect_pages
  collect_pages-seen zero page seen ws e h = absurd (cc)
  collect_pages-seen (suc fuel) page seen ws e h = elim (Bool-cases (is_empty (pages page))) [
    | inl done ↦ ground (arith, ap (λ k. any (λ x. x == w) k) {x = seen} {y = ws})
    | inr more ↦
        collect_pages-seen fuel (page + 1) (add_owners (pages page) seen) ws (ground arith)
          (ground (arith, any-add_owners w (pages page) seen))
  ]

  collect_pages-once :
      (fuel page : ℕ) (seen ws : List String)
      → collect_pages fuel pages page seen ≡ some ws
      → count_where (λ x. x == w) seen ≤ 1
      → count_where (λ x. x == w) ws ≤ 1
  unfolding collect_pages
  collect_pages-once zero page seen ws e h = absurd (cc)
  collect_pages-once (suc fuel) page seen ws e h = elim (Bool-cases (is_empty (pages page))) [
    | inl done ↦ ground (arith, ap (λ k. count_where (λ x. x == w) k) {x = seen} {y = ws})
    | inr more ↦
        collect_pages-once fuel (page + 1) (add_owners (pages page) seen) ws (ground arith)
          (once-add_owners w (pages page) seen h)
  ]

  collect_pages-page :
      (i fuel page : ℕ) (seen ws : List String)
      → collect_pages fuel pages page seen ≡ some ws
      → ((j : ℕ) → j ≤ i → is_empty (pages (page + j)) ≡ false)
      → any (λ x. x == w) (pages (page + i)) ≡ true
      → any (λ x. x == w) ws ≡ true
  unfolding collect_pages
  collect_pages-page i zero page seen ws e full h = absurd (cc)
  collect_pages-page zero (suc fuel) page seen ws e full h =
      let here : page + 0 ≡ page = omega arith in
      let more = sym (ap (λ k. is_empty (pages k)) here) ∙ full 0 (omega arith) in
      let owned = sym (ap (λ k. any (λ x. x == w) (pages k)) here) ∙ h in
      collect_pages-seen fuel (page + 1) (add_owners (pages page) seen) ws (ground arith)
        (ground (arith, any-add_owners w (pages page) seen))
  collect_pages-page (suc i) (suc fuel) page seen ws e full h =
      let here : page + 0 ≡ page = omega arith in
      let more = sym (ap (λ k. is_empty (pages k)) here) ∙ full 0 (omega arith) in
      let there : page + suc i ≡ page + 1 + i = omega arith in
      collect_pages-page i fuel (page + 1) (add_owners (pages page) seen) ws (ground arith)
        (λ j le.
          let at : page + suc j ≡ page + 1 + j = omega arith in
          sym (ap (λ k. is_empty (pages k)) at) ∙ full (suc j) (omega (arith, le)))
        (sym (ap (λ k. any (λ x. x == w) (pages k)) there) ∙ h)

-- what the holders of a collection are: each once, with the owners of every page up to the first
-- empty one
abbrev pub AreHolders : (ℕ → List String) → List String → Type 0
AreHolders pages ws =
    (w : String)
    → (count_where (λ x. x == w) ws ≤ 1)
      × ((i : ℕ)
          → ((j : ℕ) → j ≤ i → is_empty (pages (1 + j)) ≡ false)
          → any (λ x. x == w) (pages (1 + i)) ≡ true
          → any (λ x. x == w) ws ≡ true)

-- If some page of the assets of a collection is empty, `fetchCollectionHolders` ends after as many
-- rounds as the number of this page at most, with each owner once, and with the owners of
-- every page up to the first empty one.
pub fetch_collection_holders_total :
    (n : ℕ) (pages : ℕ → List String)
    → pages (1 + n) ≡ []
    → (ws : List String) × (fetch_collection_holders (suc n) pages ≡ some ws) × AreHolders pages ws
unfolding fetch_collection_holders
fetch_collection_holders_total n pages e =
    let (ws, ends) = collect_pages_ends n pages 1 [] e in
    (
      ws,
      ends,
      λ w. (
        collect_pages-once pages w (suc n) 1 [] ws ends (omega arith),
        λ i full h. collect_pages-page pages w i (suc n) 1 [] ws ends full h,
      ),
    )
