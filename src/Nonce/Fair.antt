-- ===== src/Nonce/Fair.antt =====
-- Nonces of src/nonce/nonce.service.ts with one holder at most, and what each call keeps of it.
use d_reader_backend.Base.{
  count_where-none, if_cases, inr, inl, string_eq, Bool-cases, if◌then◌else◌, Result, ◌∙◌, any-same,
  if_both, ◌==◌, not, sym, find_many, refl, ap, [], eq_iff, ◌∷◌, count_where-same, update_where,
  arith, any, ok, false, true, ◌≡◌, ◌≤◌, List, ◌&&◌, count_where, Bool, String, ℕ,
}
use d_reader_backend.Nonce.{
  create_nonce, free_nonce, update_nonce, use_nonce, take, Nonces, DurableNonce, has_address,
  is_available, NonceError,
}
use d_reader_backend.Nonce.Steps.{given, Pool, claims, Claim}

abbrev pub is_free : String → DurableNonce → Bool
is_free a n = has_address a n && is_available n

-- unique addresses, one holder of a nonce at most, and none of a nonce that is free or not there
pub record IsFair (p : Pool) : Type 0 where
  pub keys : (a : String) → count_where (has_address a) p.nonces ≤ 1
  pub once : (a : String) → count_where (claims a) p.held ≤ 1
  pub busy : (a : String) → any (is_free a) p.nonces ≡ true → count_where (claims a) p.held ≡ 0
  pub known :
      (a : String) → any (has_address a) p.nonces ≡ false → count_where (claims a) p.held ≡ 0

-- an update that takes rows from a test adds none to it
any-taken {ℓ} :
    {A : Type ℓ} (p q : A → Bool) (f : A → A) (xs : List A)
    → ((x : A) → q x ≡ true → p x ≡ false → p (f x) ≡ false)
    → any p (update_where q f xs) ≡ true
    → any p xs ≡ true
any-taken p q f [] h e = absurd (cc)
any-taken p q f (x ∷ xs) h e = ground (arith, h x, e, any-taken p q f xs h)

pub any-cleared {ℓ} :
    {A : Type ℓ} (q : A → Bool) (f : A → A) (xs : List A)
    → ((x : A) → q (f x) ≡ false)
    → any q (update_where q f xs) ≡ false
any-cleared q f [] h = refl
any-cleared q f (x ∷ xs) h = ground (arith, h x, any-cleared q f xs h)

any-left {ℓ} :
    {A : Type ℓ} (q t : A → Bool) (xs : List A) → any (λ x. q x && t x) xs ≡ true → any q xs ≡ true
any-left q t [] h = absurd (cc)
any-left q t (x ∷ xs) h = ground (arith, h, any-left q t xs)

take-rows :
    (a : String) (now : ℕ) (s : Nonces)
    → (take a now s).0 ≡ ok tt
    → (any (is_free a) s ≡ true) × ((take a now s).1 ≡ update_where (is_free a) (use_nonce now) s)
take-rows a now s h = (ground (arith, h), ground (arith, h))

pub used : (now : ℕ) (a : String) (n : DurableNonce) → is_free a (use_nonce now n) ≡ false
used now a n = ground arith

pub given-IsFair :
    (call : ℕ) (a : String) (now : ℕ) (p : Pool) (pending : List Claim)
    → (take a now p.nonces).0 ≡ ok tt
    → IsFair p
    → IsFair (given call a now (record p { pending = pending }))
given-IsFair call a now p pending h k =
    let rows = take-rows a now p.nonces h in
    rw rows.1 record {
      keys = λ b.
          rw (count_where-same (has_address b) (is_free a) (use_nonce now) p.nonces (λ n. refl))
            (k.keys b);
      once = λ b. ground (
        arith,
        k.once b,
        k.busy a rows.0,
        eq_iff a b,
        ap (λ z. count_where (claims z) p.held) {x = a} {y = b},
      );
      busy = λ b e.
          let before =
            any-taken (is_free b) (is_free a) (use_nonce now) p.nonces (λ n _ _. used now b n) e in
          ground (
            arith,
            k.busy b before,
            eq_iff a b,
            e,
            any-cleared (is_free a) (use_nonce now) p.nonces (used now a),
            ap (λ z. any (is_free z) (update_where (is_free a) (use_nonce now) p.nonces)) {x = a}
                {y = b},
          );
      known = λ b e.
          let before =
            sym (any-same (has_address b) (is_free a) (use_nonce now) p.nonces (λ n. refl)) ∙ e in
          ground (
            arith,
            k.known b before,
            eq_iff a b,
            before,
            any-left (has_address a) is_available p.nonces,
            rows.0,
            ap (λ z. any (has_address z) p.nonces) {x = a} {y = b},
          );
    }

-- the holders of other nonces, and of none of the one that is freed
left_claims :
    (a b : String) (cs : List Claim)
    → count_where (claims b) (find_many (λ c. not (claims a c)) cs)
      ≡ (if a == b then 0 else count_where (claims b) cs)
left_claims a b [] = ground arith
left_claims a b (c ∷ cs) =
    ground (arith, left_claims a b cs, eq_iff c.address a, eq_iff c.address b, eq_iff a b)

-- a nonce that is freed is the only one that gets free
freed :
    (a b value : String) (now : ℕ) (s : Nonces)
    → (a == b) ≡ false
    → any (is_free b) (update_nonce a value now s).1 ≡ true
    → any (is_free b) s ≡ true
unfolding update_nonce
freed a b value now s h =
    if_both
      (λ (m : Result NonceError (Unit {0}) × Nonces).
        any (is_free b) m.1 ≡ true → any (is_free b) s ≡ true)
      (any (has_address a) s) _ _
      (any-taken (is_free b) (has_address a) (free_nonce value now) s
        (λ n e _. ground (arith, h, e, eq_iff n.address a, eq_iff n.address b, eq_iff a b)))
      (λ e. e)

keys-update_nonce :
    (a b value : String) (now : ℕ) (s : Nonces)
    → (count_where (has_address b) (update_nonce a value now s).1 ≡ count_where (has_address b) s)
      × (any (has_address b) (update_nonce a value now s).1 ≡ any (has_address b) s)
unfolding update_nonce
keys-update_nonce a b value now s =
    if_both
      (λ (m : Result NonceError (Unit {0}) × Nonces).
        (count_where (has_address b) m.1 ≡ count_where (has_address b) s)
        × (any (has_address b) m.1 ≡ any (has_address b) s))
      (any (has_address a) s) _ _
      (
        count_where-same (has_address b) (has_address a) (free_nonce value now) s (λ n. refl),
        any-same (has_address b) (has_address a) (free_nonce value now) s (λ n. refl),
      )
      (refl, refl)

pub frees-IsFair :
    (a value : String) (now : ℕ) (p : Pool)
    → IsFair p
    → IsFair (record p {
      nonces = (update_nonce a value now p.nonces).1;
      held = find_many (λ c. not (claims a c)) p.held;
    })
frees-IsFair a value now p k = record {
  keys = λ b. rw ((keys-update_nonce a b value now p.nonces).0) (k.keys b);
  once = λ b. ground (arith, left_claims a b p.held, k.once b);
  busy = λ b e. elim (Bool-cases (a == b)) [
    | inl h ↦ ground (arith, left_claims a b p.held, h)
    | inr h ↦ ground (arith, left_claims a b p.held, h, k.busy b (freed a b value now p.nonces h e))
  ];
  known = λ b e. ground (
    arith,
    left_claims a b p.held,
    k.known b (sym ((keys-update_nonce a b value now p.nonces).1) ∙ e),
  );
}

pub creates-IsFair :
    (a value : String) (now : ℕ) (p : Pool)
    → IsFair p
    → IsFair (record p { nonces = (create_nonce a value now p.nonces).1 })
unfolding create_nonce
creates-IsFair a value now p k =
    if_cases (λ (m : Result NonceError (Unit {0}) × Nonces). IsFair (record p { nonces = m.1 }))
      (any (has_address a) p.nonces) _ _
      (λ _. record { keys = k.keys; once = k.once; busy = k.busy; known = k.known })
      (λ fresh. record {
        keys = λ b. ground (
          arith,
          k.keys b,
          eq_iff a b,
          count_where-none (has_address b) p.nonces,
          fresh,
          ap (λ z. any (has_address z) p.nonces) {x = a} {y = b},
        );
        once = k.once;
        busy = λ b e. elim (Bool-cases (a == b)) [
          | inl h ↦
              k.known b (ap (λ z. any (has_address z) p.nonces) (sym ((eq_iff a b).0 h)) ∙ fresh)
          | inr h ↦ k.busy b (ground (arith, e, h))
        ];
        known = λ b e. k.known b (ground (arith, e));
      })
