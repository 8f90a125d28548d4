-- ===== src/Nonce/Lively.antt =====
-- A nonce that was freed can be got: `updateNonce` and `getNonce` of src/nonce/nonce.service.ts.
use d_reader_backend.Base.{
  none, eq_iff, find_first-holds, any-found, find_first_of_any, find_first, Option, [], arith,
  false, refl, ◌∷◌, some, ok, update_where, true, ◌≡◌, any, List, Bool, String, ℕ,
}
use d_reader_backend.Nonce.{
  use_nonce, get_found, free_nonce, update_nonce, get_nonce, Nonces, DurableNonce, has_address,
  is_available,
}
use d_reader_backend.Nonce.Fair.{used, any-cleared, is_free}

any-made {ℓ} :
    {A : Type ℓ} (p q : A → Bool) (f : A → A) (xs : List A)
    → ((x : A) → p (f x) ≡ true)
    → any q xs ≡ true
    → any p (update_where q f xs) ≡ true
any-made p q f [] h e = absurd (cc)
any-made p q f (x ∷ xs) h e = ground (arith, h x, e, any-made p q f xs h)

-- a call that no other interrupts, where a nonce is free
got :
    (now : ℕ) (s : Nonces)
    → any is_available s ≡ true
    → (n : DurableNonce) × ((get_nonce now s).0 ≡ ok (some n))
      × (any (is_free n.address) (get_nonce now s).1 ≡ false)
unfolding get_nonce
got now s h = of_row (find_first is_available s) refl
  where
    of_row :
        (o : Option DurableNonce)
        → find_first is_available s ≡ o
        → (n : DurableNonce) × ((get_found o now s).0 ≡ ok (some n))
          × (any (is_free n.address) (get_found o now s).1 ≡ false)
    of_row none e = absurd (find_first_of_any is_available s h e)
    of_row (some n) e =
        let t =
          any-found is_available (is_free n.address) s n e
            (ground (arith, find_first-holds is_available s n e, eq_iff n.address n.address)) in
        (
          use_nonce now n,
          rw t refl,
          rw t (any-cleared (is_free n.address) (use_nonce now) s (used now n.address)),
        )

freed_one :
    (a value : String) (now : ℕ) (s : Nonces)
    → any (has_address a) s ≡ true
    → any is_available (update_nonce a value now s).1 ≡ true
unfolding update_nonce
freed_one a value now s h =
    rw h (any-made is_available (has_address a) (free_nonce value now) s (λ n. refl) h)

-- After `updateNonce` of a nonce that exists, a call of `getNonce` that no other interrupts returns a
-- nonce, which no later call finds before it is freed again.
pub get_nonce-update_nonce :
    (a value : String) (now later : ℕ) (s : Nonces)
    → any (has_address a) s ≡ true
    → let t = (update_nonce a value now s).1 in
      (n : DurableNonce) × ((get_nonce later t).0 ≡ ok (some n))
      × (any (is_free n.address) (get_nonce later t).1 ≡ false)
get_nonce-update_nonce a value now later s h =
    got later (update_nonce a value now s).1 (freed_one a value now s h)
