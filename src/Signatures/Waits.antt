-- ===== src/Signatures/Waits.antt =====
-- The wait between two requests of src/digital-asset/digital-asset.service.ts.
use d_reader_backend.Base.{
  ltb, ◌∙◌, [], sym, ◌∷◌, refl, ap, update_where, eq_refl, arith, find_first, inr, err, inl, true,
  ◌<◌, some, Bool-cases, ok, any, ◌≡◌, List, String, ℕ,
}
use d_reader_backend.Signatures.{
  request_pending, is_open, Requests, SignatureRequest, request_signature, upsert_request,
  find_request, is_cooling,
}

updated_at :
    (comic : String) (later : ℕ) (rs : List SignatureRequest)
    → any (is_open comic) rs ≡ true
    → (r : SignatureRequest) × (find_first
          (is_open comic)
          (update_where (is_open comic) (λ r. record r { created_at = later }) rs)
        ≡ some r)
      × (r.created_at ≡ later)
updated_at comic later [] h = absurd (cc)
updated_at comic later (x ∷ xs) h = elim (Bool-cases (is_open comic x)) [
  | inl here ↦ (record x { created_at = later }, ground arith, refl)
  | inr other ↦ let (r, e, t) = updated_at comic later xs (ground arith) in (r, ground arith, t)
]

upsert_request-find :
    (comic : String) (later : ℕ) (s : Requests)
    → (upsert_request comic later s).0 ≡ ok tt
    → (r : SignatureRequest) × (find_request comic (upsert_request comic later s).1 ≡ some r)
      × (r.created_at ≡ later)
unfolding upsert_request
upsert_request-find comic later s e = elim (Bool-cases (any (is_open comic) s.requests)) [
  | inl there ↦ rw there (updated_at comic later s.requests there)
  | inr fresh ↦ (
    record { comic = comic; created_at = later; resolved_at = 0 },
    ground (arith, eq_refl comic),
    refl,
  )
]

request_signature-upsert :
    (add_day : ℕ → ℕ) (comic : String) (now later : ℕ) (s : Requests)
    → (request_signature add_day comic now later s).0 ≡ ok tt
    → request_signature add_day comic now later s ≡ upsert_request comic later s
unfolding request_signature
request_signature-upsert add_day comic now later s e =
    elim (Bool-cases (is_cooling add_day (find_request comic s) now)) [
      | inl cooling ↦ ground arith
      | inr free ↦ rw free refl
    ]

-- After a request for the signature of a comic was accepted, another one for this comic is refused and changes nothing,
-- until a day after the time that was written.
pub request_signature_waits :
    (add_day : ℕ → ℕ) (comic : String) (now later next after : ℕ) (s : Requests)
    → (request_signature add_day comic now later s).0 ≡ ok tt
    → next < add_day later
    → let t = (request_signature add_day comic now later s).1 in
      request_signature add_day comic next after t ≡ (err request_pending, t)
unfolding request_signature
request_signature_waits add_day comic now later next after s accepted early =
    let stored = request_signature-upsert add_day comic now later s accepted in
    let (r, found, time) =
      upsert_request-find comic later s (ap (λ m. m.0) (sym stored) ∙ accepted) in
    let t = (request_signature add_day comic now later s).1 in
    let found_then : find_request comic t ≡ some r =
      ap (λ m. find_request comic m.1) stored ∙ found in
    let cooling : is_cooling add_day (find_request comic t) next ≡ true =
      ap (λ o. is_cooling add_day o next) found_then
      ∙ ap (λ k. ltb next (add_day k)) time
      ∙ ground arith in
    rw cooling refl
