-- ===== src/Signatures.antt =====
-- Requests for the signature of a collectible comic: `requestCollectibleComicSignature` of
-- src/digital-asset/digital-asset.service.ts. A request is open while `resolvedAt` is the epoch, which
-- is 0 here; `addHours(_, 24)` of date-fns is an argument.
pub mod Waits
mod Tests
use d_reader_backend.Base.{
  none, nat_eq, ltb, ◌∷◌, string_eq, modify, ◌&&◌, some, throw, any, false, ◌==◌, Bool, find_first,
  update_where, if◌then◌else◌, String, Option, List, Action, ℕ,
}

pub record SignatureRequest : Type 0 where
  pub comic : String
  pub created_at : ℕ
  pub resolved_at : ℕ

pub data RequestError : Type 0 where
  request_pending : RequestError
  record_not_found : RequestError  -- a `connect` finds no row

-- the rows of requests, and the addresses of collectible comics
pub record Requests : Type 0 where
  pub requests : List SignatureRequest
  pub comics : List String

abbrev pub M : Type 0 → Type 0
M = Action Requests RequestError

abbrev pub is_open : String → SignatureRequest → Bool
is_open comic r = (r.comic == comic) && (r.resolved_at == 0)

abbrev pub find_request : String → Requests → Option SignatureRequest
find_request comic s = find_first (is_open comic) s.requests

abbrev pub is_cooling : (ℕ → ℕ) → Option SignatureRequest → ℕ → Bool
is_cooling add_day none now = false
is_cooling add_day (some r) now = ltb now (add_day r.created_at)

abbrev pub ask_again : String → ℕ → Requests → Requests
ask_again comic later s = record s {
  requests = update_where (is_open comic) (λ r. record r { created_at = later }) s.requests;
}

-- `signatureRequest.upsert`, with the time of the update or of the new row
unfoldable pub upsert_request : String → ℕ → M (Unit {0})
upsert_request comic later s =
    if any (is_open comic) s.requests
    then modify (ask_again comic later) s
    else if any (λ c. c == comic) s.comics
    then modify
        (λ s. record s {
          requests = record { comic = comic; created_at = later; resolved_at = 0 } ∷ s.requests;
        })
        s
    else throw record_not_found s

-- `requestCollectibleComicSignature`: `now` is the first `new Date()`, and `later` the time of the
-- write
unfoldable pub request_signature : (ℕ → ℕ) → String → ℕ → ℕ → M (Unit {0})
unfolding upsert_request
request_signature add_day comic now later s =
    if is_cooling add_day (find_request comic s) now
    then throw request_pending s
    else upsert_request comic later s
