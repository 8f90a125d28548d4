-- ===== src/Users/Accounts.antt =====
-- The requests of src/user/user.service.ts that read and write accounts. `now` is the instant of
-- the `new Date()` calls of a handler, `salt` the salt of bcrypt. Files
-- of avatars, mails and messages are left out; a generated avatar is an argument.
use d_reader_backend.Base.{
  ℕ, suc, String, Bool, true, false, not, ◌&&◌, Option, none, some, ◌∷◌, ◌==◌, nat_eq, string_eq,
  any, find_first, if◌then◌else◌, is_some, Check, Result, ok, err, pure, throw, throw_if, lift,
  modify, ◌>>=◌, ◌>>◌,
}
use d_reader_backend.Users.Model.{
  M, User, Accounts, Outside, UserError, Consent, marketing, data_analytics, EmailPayload,
  google_account_linked, incorrect_password, same_password, user_not_found, already_verified,
  missing_name, type_error, bad_data,
}
use d_reader_backend.Users.Names.{
  update_user, find_one, validate_user_name, validate_email, throw_if_name_taken,
  throw_if_email_taken, find_by_email, find_by_name,
}
use d_reader_backend.Users.Referrals.{redeem_referral}

-- `RegisterDto`
pub record NewUser : Type 0 where
  pub name : Option String
  pub username : Option String
  pub email : String
  pub password : Option String
  pub ref : Option String

-- a text that may be missing, where an empty one counts as missing
abbrev pub non_empty : Option String → Option String
non_empty none = none
non_empty (some t) = if t == "" then none else some t

-- `a || b`
abbrev pub or_other : Option String → Option String → Option String
or_other a b = elim (non_empty a) [ none ↦ b | some t ↦ some t ]

abbrev pub user_of : ℕ → String → String → String → ℕ → User
user_of id name email password now = record {
  id = id;
  email = email;
  password = password;
  username = name;
  display_name = name;
  avatar = "";
  referrer_id = none;
  referrals_remaining = 0;
  deleted_at = none;
  referred_at = none;
  last_login = none;
  last_active_at = none;
  email_verified_at = if password == "" then some now else none;
  refer_completed_at = none;
}

abbrev pub add_user : User → Accounts → Accounts
add_user u s = record s { users = u ∷ s.users; next_id = suc s.next_id }

-- `updateAllUserConsents` with `approve`
abbrev pub add_consents : ℕ → Accounts → Accounts
add_consents id s = record s {
  consents =
      record { user_id = id; consent_type = marketing; is_consent_given = true }
      ∷ record { user_id = id; consent_type = data_analytics; is_consent_given = true }
      ∷ s.consents;
}

-- a promise that nothing awaits, taken to run before what follows; its exception is lost
abbrev pub not_awaited : M (Unit {0}) → M (Unit {0})
not_awaited m s = (ok tt, (m s).1)

-- the `try` of `register` on the avatar
abbrev pub set_avatar : ℕ → Option String → M (Unit {0})
set_avatar id none s = pure tt s
set_avatar id (some avatar) s = update_user id (λ u. record u { avatar = avatar }) s

-- `changed && old !== changed`
abbrev pub is_changed : Option String → String → Bool
is_changed none old = false
is_changed (some t) old = not (t == "") && not (t == old)

abbrev pub text_of : Option String → String
text_of none = ""
text_of (some t) = t

abbrev pub when : Bool → M (Unit {0}) → M (Unit {0})
when c m s = if c then m s else pure tt s

unfoldable pub change_display_name : ℕ → String → M (Unit {0})
change_display_name id display_name = update_user id (λ u. record u { display_name = display_name })

-- `findMe`
unfoldable pub find_me : ℕ → ℕ → M (Unit {0})
find_me id now = update_user id (λ u. record u { last_active_at = some now })

abbrev pub is_ok : Result UserError (Unit {0}) × Accounts → Result UserError Bool × Accounts
is_ok (ok u, s) = (ok true, s)
is_ok (err e, s) = (ok false, s)

abbrev pub or_false : M (Unit {0}) → M Bool
or_false m s = is_ok (m s)

-- the write of `verifyEmail`
abbrev pub verified : EmailPayload → Bool → ℕ → User → User
verified payload is_referred now u = record u {
  email = payload.email;
  email_verified_at = some now;
  refer_completed_at = if is_referred then some now else none;
}

abbrev pub emailed : String → User → User
emailed email u = record u { email = email; email_verified_at = none }

abbrev pub named : String → User → User
named username u = record u { username = username }

module _ (out : Outside) where
  -- the password that is stored: `password && hash(password)`
  abbrev stored_password : String → String → String
  stored_password salt password = if password == "" then "" else out.hash salt password

  -- the part of `register` on what was checked
  unfoldable pub create_user : String → String → Option String → String → ℕ → M User
  create_user name email none salt now s = throw bad_data s
  create_user name email (some password) salt now s =
      let u = user_of s.next_id name email (stored_password salt password) now in
      (ok u, add_user u s)

  unfoldable pub register : NewUser → String → Option String → ℕ → M (Unit {0})
  unfolding create_user
  register dto salt avatar now = do
    lift (validate_user_name out (or_other dto.username dto.name))
    let name = text_of (or_other dto.username dto.name)
    lift (validate_email out dto.email)
    throw_if_name_taken out name
    throw_if_email_taken out dto.email
    u ← create_user name dto.email dto.password salt now
    modify (add_consents u.id)
    not_awaited (redeem_referral out dto.ref u.id now)
    not_awaited (set_avatar u.id avatar)

  unfoldable pub find_by_name_or_email : String → M User
  unfolding find_by_email find_by_name
  find_by_name_or_email name_or_email =
      if out.is_email name_or_email
      then find_by_email out name_or_email
      else find_by_name out name_or_email

  -- `validate` of src/auth/password.service.ts
  unfoldable pub validate_password : String → String → Check UserError
  validate_password password hash =
      if out.compare_hash password hash then ok tt else err incorrect_password

  unfoldable pub login : String → String → ℕ → M (Unit {0})
  unfolding find_by_name_or_email validate_password
  login name_or_email password now = do
    throw_if (name_or_email == "") missing_name
    u ← find_by_name_or_email name_or_email
    throw_if (u.password == "") google_account_linked
    lift (validate_password password u.password)
    update_user u.id (λ x. record x { last_login = some now })

  -- `handleGoogleSignIn`, of the user that is found; the result is whether the user is authorised.
  -- The `catch` returns false for an exception that is no `BadRequestException`.
  unfoldable pub sign_in_found : Option User → ℕ → M Bool
  sign_in_found none now s = (ok false, s)
  sign_in_found (some u) now s =
      if is_some u.email_verified_at
      then pure true s
      else (or_false (update_user u.id (λ x. record x { email_verified_at = some now }))) s

  unfoldable pub handle_google_sign_in : String → ℕ → M Bool
  unfolding sign_in_found
  handle_google_sign_in email now s =
      sign_in_found (find_first (λ u. out.insensitive email u.email) s.users) now s

  -- the three parts of `update`
  unfoldable pub change_email : ℕ → String → M (Unit {0})
  change_email id email = do
    lift (validate_email out email)
    throw_if_email_taken out email
    update_user id (emailed email)

  unfoldable pub change_username : ℕ → String → M (Unit {0})
  change_username id username = do
    lift (validate_user_name out (some username))
    throw_if_name_taken out username
    update_user id (named username)

  unfoldable pub update : ℕ → Option String → Option String → Option String → M (Unit {0})
  unfolding change_email change_username change_display_name
  update id username display_name email = do
    u ← find_one id
    when (is_changed email u.email) (change_email id (text_of email))
    when (is_changed username u.username) (change_username id (text_of username))
    when (is_changed display_name u.display_name) (change_display_name id (text_of display_name))

  unfoldable pub update_password : ℕ → String → String → String → M (Unit {0})
  unfolding validate_password
  update_password id old_password new_password salt = do
    u ← find_one id
    lift (validate_password old_password u.password)
    throw_if (old_password == new_password) same_password
    update_user id (λ x. record x { password = out.hash salt new_password })

  -- `resetPassword`, of what the token holds. Where the token is refused the `catch` reads the
  -- email of `undefined`.
  unfoldable pub reset_with : Option EmailPayload → String → String → M (Unit {0})
  reset_with none new_password salt = throw type_error
  reset_with (some payload) new_password salt = do
    u ← find_one payload.id
    update_user u.id (λ x. record x { password = out.hash salt new_password })

  unfoldable pub reset_password : String → String → String → M (Unit {0})
  unfolding reset_with
  reset_password token = reset_with (out.verify_token token)

  -- `verifyEmail`, of what the token holds
  unfoldable pub verify_with : Option EmailPayload → ℕ → M (Unit {0})
  verify_with none now = throw type_error
  verify_with (some payload) now = do
    u ← find_one payload.id
    lift (validate_email out payload.email)
    when (not (u.email == payload.email)) (throw_if_email_taken out payload.email)
    throw_if ((u.email == payload.email) && is_some u.email_verified_at) already_verified
    update_user payload.id (verified payload (is_some u.referred_at) now)

  unfoldable pub verify_email : String → ℕ → M (Unit {0})
  unfolding verify_with
  verify_email token = verify_with (out.verify_token token)

-- `catch` of `pseudoDelete` and `pseudoRecover`
abbrev pub not_found_for :
    Result UserError (Unit {0}) × Accounts → Result UserError (Unit {0}) × Accounts
not_found_for (ok u, s) = (ok u, s)
not_found_for (err e, s) = (err user_not_found, s)

abbrev pub or_not_found : M (Unit {0}) → M (Unit {0})
or_not_found m s = not_found_for (m s)

unfoldable pub pseudo_delete : ℕ → ℕ → M (Unit {0})
pseudo_delete id now = or_not_found (update_user id (λ u. record u { deleted_at = some now }))

unfoldable pub pseudo_recover : ℕ → M (Unit {0})
pseudo_recover id = or_not_found (update_user id (λ u. record u { deleted_at = none }))

unfoldable pub remove_avatar : ℕ → M (Unit {0})
remove_avatar id = do u ← find_one id; update_user id (λ x. record x { avatar = "" })

unfoldable pub insert_device_token : String → ℕ → M (Unit {0})
insert_device_token token user_id s =
    if any (λ d. (d.token == token) && (d.user_id == user_id)) s.devices
    then pure tt s
    else modify
        (λ s. record s { devices = record { token = token; user_id = user_id } ∷ s.devices }) s

unfoldable pub create_user_privacy_consent : Consent → M (Unit {0})
create_user_privacy_consent consent = modify (λ s. record s { consents = consent ∷ s.consents })
