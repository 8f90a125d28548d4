-- ===== src/Nonce/Shared.antt =====
-- No nonce of src/nonce/nonce.service.ts is given to two calls.
use d_reader_backend.Base.{
  ◌++◌, string_eq, refl, [], arith, any, true, ◌≡◌, ◌≤◌, count_where, String,
}
use d_reader_backend.Nonce.{Nonces, has_address}
use d_reader_backend.Nonce.Steps.{
  creates, frees, misses, steps, takes, finds, stays, Pool, Step, Reach, claims,
}
use d_reader_backend.Nonce.Fair.{is_free, IsFair, given-IsFair, frees-IsFair, creates-IsFair}

Step-IsFair : (p q : Pool) → Step p q → IsFair p → IsFair q
Step-IsFair p q (finds call n _ e) k = record {
  keys = k.keys;
  once = k.once;
  busy = k.busy;
  known = k.known;
}
Step-IsFair p q (takes c now before after _ e h) k =
    given-IsFair c.call c.address now p (before ++ after) h k
Step-IsFair p q (misses c now before after _ er e h) k = record {
  keys = k.keys;
  once = k.once;
  busy = k.busy;
  known = k.known;
}
Step-IsFair p q (frees a value now _) k = frees-IsFair a value now p k
Step-IsFair p q (creates a value now _) k = creates-IsFair a value now p k

Reach-IsFair : (p q : Pool) → Reach p q → IsFair p → IsFair q
Reach-IsFair p q (stays _) k = k
Reach-IsFair p q (steps _ r _ s rest) k = Reach-IsFair r q rest (Step-IsFair p r s k)

-- From nonces of different addresses that no call holds: in whatever order calls of `getNonce`, each
-- between its query and its update, and of `updateNonce` and `create` interleave, no nonce is held by
-- two calls, and one that is free is held by none.
pub Reach-held :
    (s : Nonces) (q : Pool)
    → ((a : String) → count_where (has_address a) s ≤ 1)
    → Reach (record { nonces = s; pending = []; held = [] }) q
    → (a : String)
    → (count_where (claims a) q.held ≤ 1)
      × (any (is_free a) q.nonces ≡ true → count_where (claims a) q.held ≡ 0)
Reach-held s q keys run a =
    let k =
      Reach-IsFair record { nonces = s; pending = []; held = [] } q run
        record { keys = keys; once = λ a. omega arith; busy = λ a e. refl; known = λ a e. refl } in
    (k.once a, k.busy a)
