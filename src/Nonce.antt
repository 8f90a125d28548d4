-- ===== src/Nonce.antt =====
-- The pool of durable nonces: `create`, `getNonce` and `updateNonce` of src/nonce/nonce.service.ts.
-- The chain, which makes and advances the accounts, is left out: their values are arguments.
pub mod Steps
pub mod Fair
pub mod Shared
pub mod Lively
mod Tests
use d_reader_backend.Base.{
  update_where, none, ◌∷◌, ◌>>◌, modify, throw, ◌&&◌, any, false, string_eq, some, if◌then◌else◌,
  find_first, ◌==◌, pure, true, ℕ, String, Bool, Option, List, Action,
}

-- `DurableNonceStatus`
pub data NonceStatus : Type 0 where
  available in_use : NonceStatus

pub record DurableNonce : Type 0 where
  pub address : String
  pub status : NonceStatus
  pub nonce : String
  pub last_updated_at : ℕ

pub data NonceError : Type 0 where
  nonce_not_found : NonceError  -- an `update` finds no row
  address_exists : NonceError

abbrev pub Nonces : Type 0
Nonces = List DurableNonce

abbrev pub has_address : String → DurableNonce → Bool
has_address a n = n.address == a

abbrev pub is_available : DurableNonce → Bool
is_available n = elim n.status [ available ↦ true | in_use ↦ false ]

abbrev pub use_nonce : ℕ → DurableNonce → DurableNonce
use_nonce now n = record n { status = in_use; last_updated_at = now }

-- the update with a condition on the status, of a nonce that was found available
abbrev pub take : String → ℕ → Action Nonces NonceError (Unit {0})
take a now s =
    if any (λ n. has_address a n && is_available n) s
    then modify (update_where (λ n. has_address a n && is_available n) (use_nonce now)) s
    else throw nonce_not_found s

-- `getNonce` at depth 0. `update` throws where it finds no row, so that its result is never null and
-- the call never calls itself.
abbrev pub get_found : Option DurableNonce → ℕ → Action Nonces NonceError (Option DurableNonce)
get_found none now = pure none
get_found (some n) now = take n.address now >> pure (some (use_nonce now n))

unfoldable pub get_nonce : ℕ → Action Nonces NonceError (Option DurableNonce)
get_nonce now s = get_found (find_first is_available s) now s

-- `updateNonce`, with the value that the account has
abbrev pub free_nonce : String → ℕ → DurableNonce → DurableNonce
free_nonce value now n = record n { nonce = value; status = available; last_updated_at = now }

unfoldable pub update_nonce : String → String → ℕ → Action Nonces NonceError (Unit {0})
update_nonce a value now s =
    if any (has_address a) s
    then modify (update_where (has_address a) (free_nonce value now)) s
    else throw nonce_not_found s

-- the row of `create` for an account
abbrev pub new_nonce : String → String → ℕ → DurableNonce
new_nonce a value now = record {
  address = a;
  status = available;
  nonce = value;
  last_updated_at = now;
}

unfoldable pub create_nonce : String → String → ℕ → Action Nonces NonceError (Unit {0})
create_nonce a value now s =
    if any (has_address a) s
    then throw address_exists s
    else modify (λ s. new_nonce a value now ∷ s) s
