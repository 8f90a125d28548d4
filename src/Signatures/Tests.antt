-- ===== src/Signatures/Tests.antt =====
-- A request of src/digital-asset/digital-asset.service.ts, and its theorem at a concrete input.
use d_reader_backend.Signatures.Waits.{request_signature_waits}
use d_reader_backend.Base.{arith, ap, refl, ok, err, ◌≡◌, ◌+◌, ◌∷◌, [], ℕ}
use d_reader_backend.Signatures.{request_pending, Requests, request_signature}

abbrev add_day : ℕ → ℕ
add_day t = t + 86400000

abbrev nobody_asked : Requests
nobody_asked = record { requests = []; comics = "comic1" ∷ [] }

abbrev asked : Requests
asked = record {
  requests = record { comic = "comic1"; created_at = 20; resolved_at = 0 } ∷ [];
  comics = "comic1" ∷ [];
}

is_accepted : request_signature add_day "comic1" 10 20 nobody_asked ≡ (ok tt, asked)
unfolding request_signature
is_accepted = refl

request_signature_waits_example :
    request_signature add_day "comic1" 5000 5001
      (request_signature add_day "comic1" 10 20 nobody_asked).1
    ≡ (err request_pending, (request_signature add_day "comic1" 10 20 nobody_asked).1)
request_signature_waits_example =
    request_signature_waits add_day "comic1" 10 20 5000 5001 nobody_asked
      (ap (λ m. m.0) is_accepted) (omega arith)
