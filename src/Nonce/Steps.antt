-- ===== src/Nonce/Steps.antt =====
-- Calls of src/nonce/nonce.service.ts that run at once: `getNonce` in its two steps, the query and the
-- update, between which other calls may run.
use d_reader_backend.Base.{
  not, find_many, err, ok, ◌++◌, string_eq, some, ◌∷◌, ◌≡◌, ◌==◌, Bool, String, find_first, List, ℕ,
}
use d_reader_backend.Nonce.{
  create_nonce, update_nonce, NonceError, is_available, take, Nonces, DurableNonce,
}

-- a call and an address
pub record Claim : Type 0 where
  pub call : ℕ
  pub address : String

-- the rows, the calls that have found a nonce and those that were given one since it was last freed
pub record Pool : Type 0 where
  pub nonces : Nonces
  pub pending : List Claim
  pub held : List Claim

abbrev pub claims : String → Claim → Bool
claims a c = c.address == a

abbrev pub given : ℕ → String → ℕ → Pool → Pool
given call a now p = record p {
  nonces = (take a now p.nonces).1;
  held = record { call = call; address = a } ∷ p.held;
}

pub data Step : Pool → Pool → Type 0 where
  finds :
      (call : ℕ) (n : DurableNonce) (p : Pool)
      → find_first is_available p.nonces ≡ some n
      → Step p (record p { pending = record { call = call; address = n.address } ∷ p.pending })
  takes :
      (c : Claim) (now : ℕ) (before after : List Claim) (p : Pool)
      → p.pending ≡ before ++ c ∷ after
      → (take c.address now p.nonces).0 ≡ ok tt
      → Step p (given c.call c.address now (record p { pending = before ++ after }))
  misses :
      (c : Claim) (now : ℕ) (before after : List Claim) (p : Pool) (e : NonceError)
      → p.pending ≡ before ++ c ∷ after
      → (take c.address now p.nonces).0 ≡ err e
      → Step p (record p { pending = before ++ after })
  frees :
      (a value : String) (now : ℕ) (p : Pool)
      → Step p (record p {
        nonces = (update_nonce a value now p.nonces).1;
        held = find_many (λ c. not (claims a c)) p.held;
      })
  creates :
      (a value : String) (now : ℕ) (p : Pool)
      → Step p (record p { nonces = (create_nonce a value now p.nonces).1 })

pub data Reach : Pool → Pool → Type 0 where
  stays : (p : Pool) → Reach p p
  steps : (p q r : Pool) → Step p q → Reach q r → Reach p r
