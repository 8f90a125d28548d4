-- ===== src/Nonce/Tests.antt =====
-- Durable nonces of src/nonce/nonce.service.ts at concrete inputs.
use d_reader_backend.Nonce.Lively.{get_nonce-update_nonce}
use d_reader_backend.Nonce.Shared.{Reach-held}
use d_reader_backend.Nonce.Fair.{is_free}
use d_reader_backend.Base.{
  false, some, true, ok, any, arith, refl, ◌≡◌, ◌≤◌, String, ◌∷◌, [], count_where,
}
use d_reader_backend.Nonce.{
  nonce_not_found, get_nonce, update_nonce, use_nonce, Nonces, DurableNonce, has_address, new_nonce,
}
use d_reader_backend.Nonce.Steps.{claims, Pool, Reach, finds, takes, misses, steps, stays}

abbrev one_nonce : Nonces
one_nonce = new_nonce "n" "v" 1 ∷ []

one_key : (a : String) → count_where (has_address a) one_nonce ≤ 1
one_key a = ground arith

-- two calls find the nonce, and one of them gets it
abbrev at_first : Pool
at_first = record { nonces = one_nonce; pending = []; held = [] }

abbrev found_twice : Pool
found_twice = record at_first {
  pending = record { call = 2; address = "n" } ∷ record { call = 1; address = "n" } ∷ [];
}

abbrev at_last : Pool
at_last = record {
  nonces = use_nonce 5 (new_nonce "n" "v" 1) ∷ [];
  pending = [];
  held = record { call = 1; address = "n" } ∷ [];
}

run : Reach at_first at_last
run = steps at_first _ at_last (finds 1 (new_nonce "n" "v" 1) at_first refl) (
    steps _ found_twice at_last (finds 2 (new_nonce "n" "v" 1) _ refl) (
      steps found_twice _ at_last
        (takes record { call = 1; address = "n" } 5 (record { call = 2; address = "n" } ∷ []) []
          found_twice refl refl)
        (steps _ _ at_last
          (misses record { call = 2; address = "n" } 5 [] [] _ nonce_not_found refl refl)
          (stays at_last))))

Reach-held_example :
    (count_where (claims "n") at_last.held ≤ 1)
    × (any (is_free "n") at_last.nonces ≡ true → count_where (claims "n") at_last.held ≡ 0)
Reach-held_example = Reach-held one_nonce at_last one_key run "n"

get_nonce-update_nonce_example :
    let t = (update_nonce "n" "w" 6 at_last.nonces).1 in
    (n : DurableNonce) × ((get_nonce 7 t).0 ≡ ok (some n))
    × (any (is_free n.address) (get_nonce 7 t).1 ≡ false)
get_nonce-update_nonce_example = get_nonce-update_nonce "n" "w" 6 7 at_last.nonces refl
