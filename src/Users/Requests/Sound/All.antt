-- ===== src/Users/Requests/Sound/All.antt =====
-- What all the requests to src/user/user.service.ts keep, one after the other.
use d_reader_backend.Users.Names.{update_user}
use d_reader_backend.Users.Requests.Sound.Kept.{verify_with-Keeps, update-Keeps}
use d_reader_backend.Users.Requests.Sound.Handled.{
  remove_avatar-Keeps, or_not_found-Keeps, reset_with-Keeps, update_password-Keeps,
  sign_in_found-Keeps, login-Keeps,
}
use d_reader_backend.Users.Requests.Sound.Referred.{redeem_referral-Keeps}
use d_reader_backend.Users.Requests.Sound.Added.{Sound-rows, register-Keeps}
use d_reader_backend.Users.Accounts.{
  create_user_privacy_consent, insert_device_token, pseudo_recover, pseudo_delete, find_me,
  verify_email, reset_password, handle_google_sign_in,
}
use d_reader_backend.Base.{
  IsEuclidean, nat_eq, string_eq, ◌&&◌, ◌==◌, any, Result, if_both, none, some, find_first, ◌≡◌, [],
  refl, ◌∷◌, List, ℕ,
}
use d_reader_backend.Users.Model.{Accounts, Outside, UserError}
use d_reader_backend.Users.Requests.{
  creates_consent, inserts_device, removes_avatar, recovers, deletes, verifies_email,
  resets_password, updates_password, updates, finds_me, signs_in_by_google, logs_in, redeems,
  registers, handle_google_sign_in, Request, handle, handle_all,
}
use d_reader_backend.Users.Requests.Sound.{referrals, Sound, WellFormed}
use d_reader_backend.Users.Requests.Sound.Changes.{update_user-Keeps}

module _ (out : Outside) (law : IsEuclidean out.insensitive) (x n : ℕ) where
  handle-Sound : (r : Request) (s : Accounts) → Sound out x n s → Sound out x n (handle out r s)
  unfolding handle_google_sign_in reset_password verify_email find_me pseudo_delete pseudo_recover
      insert_device_token create_user_privacy_consent
  handle-Sound (registers dto salt avatar now) = register-Keeps out law x n dto salt avatar now
  handle-Sound (redeems ref i now) = redeem_referral-Keeps out x n ref i now
  handle-Sound (logs_in name password now) = login-Keeps out x n name password now
  handle-Sound (signs_in_by_google email now) = λ s.
      sign_in_found-Keeps out x n (find_first (λ u. out.insensitive email u.email) s.users) now s
  handle-Sound (finds_me i now) =
      update_user-Keeps out x n i (λ u. record u { last_active_at = some now }) (λ u. refl)
  handle-Sound (updates i username display_name email) =
      update-Keeps out law x n i username display_name email
  handle-Sound (updates_password i old_password new_password salt) =
      update_password-Keeps out x n i old_password new_password salt
  handle-Sound (resets_password token new_password salt) =
      reset_with-Keeps out x n (out.verify_token token) new_password salt
  handle-Sound (verifies_email token now) =
      verify_with-Keeps out law x n (out.verify_token token) now
  handle-Sound (deletes i now) =
      or_not_found-Keeps out x n (update_user i (λ u. record u { deleted_at = some now }))
        (update_user-Keeps out x n i (λ u. record u { deleted_at = some now }) (λ u. refl))
  handle-Sound (recovers i) =
      or_not_found-Keeps out x n (update_user i (λ u. record u { deleted_at = none }))
        (update_user-Keeps out x n i (λ u. record u { deleted_at = none }) (λ u. refl))
  handle-Sound (removes_avatar i) = remove_avatar-Keeps out x n i
  handle-Sound (inserts_device token user_id) = λ s k.
      if_both (λ (m : Result UserError (Unit {0}) × Accounts). Sound out x n m.1)
        (any (λ d. (d.token == token) && (d.user_id == user_id)) s.devices) _ _ k
        (Sound-rows out law x n s _ refl refl k)
  handle-Sound (creates_consent consent) = λ s k. Sound-rows out law x n s _ refl refl k

  handle_all-Sound :
      (rs : List Request) (s : Accounts) → Sound out x n s → Sound out x n (handle_all out rs s)
  handle_all-Sound [] s k = k
  handle_all-Sound (r ∷ rs) s k = handle_all-Sound rs (handle out r s) (handle-Sound r s k)

-- Where the database's comparison that ignores case sorts the texts into classes, any sequence of
-- requests of the user service, failing ones included, keeps the rows of users well formed: no two
-- have the same key, or the same username or the same email up to case, none has a key that the
-- database still gives to a new row, and none has a referrer without an instant of the referral.
pub handle_all-WellFormed :
    (out : Outside) (law : IsEuclidean out.insensitive) (rs : List Request) (s : Accounts)
    → WellFormed out s
    → WellFormed out (handle_all out rs s)
handle_all-WellFormed out law rs s k =
    let after =
      handle_all-Sound out law 0 (referrals 0 s.users) rs s
        record { formed = k; conserved = refl } in
    after.formed

-- From well-formed rows, where the comparison that ignores case sorts the texts into classes, no
-- sequence of requests of the user service changes the sum of the referrals that a user has left
-- and the users whose referrer he is: each referral that is used is taken off, once.
pub referrals-handle_all :
    (out : Outside) (law : IsEuclidean out.insensitive) (rs : List Request) (s : Accounts) (x : ℕ)
    → WellFormed out s
    → referrals x (handle_all out rs s).users ≡ referrals x s.users
referrals-handle_all out law rs s x k =
    let after =
      handle_all-Sound out law x (referrals x s.users) rs s
        record { formed = k; conserved = refl } in
    after.conserved
