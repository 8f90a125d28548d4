-- ===== src/Users/Requests/Sound/Kept.antt =====
-- What `update` and `verifyEmail` of src/user/user.service.ts keep, and what all the requests do.
use d_reader_backend.Users.Requests.Sound.Handled.{find_one-Keeps}
use d_reader_backend.Users.Names.{
  has_email, update_user, validate_email, find_one, throw_if_email_taken,
}
use d_reader_backend.Users.Accounts.{
  change_username, change_email, text_of, is_changed, when, verified, change_display_name,
  verify_with, update,
}
use d_reader_backend.Base.{
  IsEuclidean, string_eq, any, eq_iff, sym, false, after_check, true, refl, after_lift, is_some,
  none, ◌&&◌, throw_if, ◌>>◌, not, ◌==◌, Keeps-bind, after_found, some, String, ◌≡◌, Option, Keeps,
  find_first, Bool, ℕ,
}
use d_reader_backend.Users.Model.{
  already_verified, user_not_found, User, Accounts, Outside, M, EmailPayload,
}
use d_reader_backend.Users.Requests.{update}
use d_reader_backend.Users.Requests.Sound.{Sound, has_id}
use d_reader_backend.Users.Requests.Sound.Updates.{IsKept}
use d_reader_backend.Users.Requests.Sound.Changes.{
  new_email-Sound, same_email-Sound, update_user-Keeps, change_username-Keeps, change_email-Keeps,
  then-Keeps, update_user-Sound_by,
}

verified-IsKept : (payload : EmailPayload) (b : Bool) (now : ℕ) → IsKept (verified payload b now)
verified-IsKept payload b now u = refl

module _ (out : Outside) (law : IsEuclidean out.insensitive) (x n : ℕ) where
  when-Keeps :
      (c : Bool) (m : M (Unit {0})) → Keeps (Sound out x n) m → Keeps (Sound out x n) (when c m)
  when-Keeps true m h s k = h s k
  when-Keeps false m h s k = k

  pub update-Keeps :
      (i : ℕ) (username display_name email : Option String)
      → Keeps (Sound out x n) (update out i username display_name email)
  unfolding update change_display_name
  update-Keeps i username display_name email =
      let emails : M (Unit {0}) = change_email out i (text_of email) in
      let names : M (Unit {0}) = change_username out i (text_of username) in
      let displays : M (Unit {0}) = change_display_name i (text_of display_name) in
      Keeps-bind (Sound out x n) (find_one i) _ (find_one-Keeps out x n i) (λ u.
        let m1 : M (Unit {0}) = when (is_changed email u.email) emails in
        let m2 : M (Unit {0}) = when (is_changed username u.username) names in
        let m3 : M (Unit {0}) = when (is_changed display_name u.display_name) displays in
        then-Keeps out x n m1 (m2 >> m3)
          (when-Keeps (is_changed email u.email) emails
            (change_email-Keeps out law x n i (text_of email)))
          (then-Keeps out x n m2 m3
            (when-Keeps (is_changed username u.username) names
              (change_username-Keeps out law x n i (text_of username)))
            (when-Keeps (is_changed display_name u.display_name) displays (
              update_user-Keeps out x n i (λ u. record u { display_name = text_of display_name })
                (λ u. refl)))))

  -- the part of `verifyEmail` after the checks of the token and the email
  verified-Sound :
      (payload : EmailPayload) (now : ℕ) (u : User) (s : Accounts)
      → find_first (has_id payload.id) s.users ≡ some u
      → Sound out x n s
      → (b : Bool) → (u.email == payload.email) ≡ b
      → Sound out x n
          ((when (not b) (throw_if_email_taken out payload.email)
              >> (throw_if (b && is_some u.email_verified_at) already_verified
                  >> update_user payload.id (verified payload (is_some u.referred_at) now)))
            s).1
  unfolding throw_if_email_taken
  verified-Sound payload now u s found k true h =
      after_check (Sound out x n) (is_some u.email_verified_at) already_verified _ s k (λ _.
        update_user-Sound_by out x n payload.id (verified payload (is_some u.referred_at) now) s k (
          same_email-Sound out law x n payload.id u (verified payload (is_some u.referred_at) now) s
            (verified-IsKept payload (is_some u.referred_at) now)
            (sym ((eq_iff u.email payload.email).0 h)) (λ u. refl) found k))
  verified-Sound payload now u s found k false h =
      after_check (Sound out x n) (any (has_email out payload.email) s.users) _ _ s k (λ free.
        update_user-Sound_by out x n payload.id (verified payload (is_some u.referred_at) now) s k (
          new_email-Sound out law x n payload.id payload.email
            (verified payload (is_some u.referred_at) now) s
            (verified-IsKept payload (is_some u.referred_at) now) (λ u. refl) (λ u. refl) free k))

  pub verify_with-Keeps :
      (o : Option EmailPayload) (now : ℕ) → Keeps (Sound out x n) (verify_with out o now)
  unfolding verify_with find_one
  verify_with-Keeps none now s k = k
  verify_with-Keeps (some payload) now s k =
      after_found (Sound out x n) (find_first (has_id payload.id) s.users) user_not_found _ s k
        (λ u found.
          after_lift (Sound out x n) (validate_email out payload.email) _ s k
            (λ _ _. verified-Sound payload now u s found k (u.email == payload.email) refl))
