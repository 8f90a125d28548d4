-- ===== src/Users/Requests/Sound/Handled.antt =====
-- What each request to src/user/user.service.ts keeps, but `update` and `verifyEmail`.
use d_reader_backend.Users.Names.{
  update_user, has_name, has_email, find_by_name, find_by_email, find_one,
}
use d_reader_backend.Users.Accounts.{
  is_ok, validate_password, not_found_for, or_not_found, sign_in_found, login,
  find_by_name_or_email, remove_avatar, reset_with, update_password,
}
use d_reader_backend.Base.{
  refl, is_some, Bool, nat_eq, err, string_eq, ok, ◌==◌, none, if_both, find_first, Keeps-lift,
  some, after_check, Result, String, Keeps-bind, Option, Keeps-find, Keeps, ℕ,
}
use d_reader_backend.Users.Model.{
  user_not_found, User, Accounts, Outside, UserError, M, EmailPayload,
}
use d_reader_backend.Users.Requests.Sound.{Sound}
use d_reader_backend.Users.Requests.Sound.Changes.{update_user-Keeps}

module _ (out : Outside) (x n : ℕ) where
  pub find_one-Keeps : (i : ℕ) → Keeps (Sound out x n) (find_one i)
  unfolding find_one
  find_one-Keeps i =
      Keeps-find (Sound out x n) (λ s. find_first (λ u. u.id == i) s.users) user_not_found

  pub find_by_name_or_email-Keeps :
      (name : String) → Keeps (Sound out x n) (find_by_name_or_email out name)
  unfolding find_by_name_or_email find_by_email find_by_name
  find_by_name_or_email-Keeps name s k =
      if_both (λ (m : M User). Sound out x n (m s).1) (out.is_email name) _ _
        (Keeps-find (Sound out x n) (λ s. find_first (has_email out name) s.users) user_not_found s
          k)
        (Keeps-find (Sound out x n) (λ s. find_first (has_name out name) s.users) user_not_found s
          k)

  pub login-Keeps :
      (name password : String) (now : ℕ) → Keeps (Sound out x n) (login out name password now)
  unfolding login
  login-Keeps name password now s k = after_check (Sound out x n) (name == "") _ _ s k (λ _.
      Keeps-bind (Sound out x n) (find_by_name_or_email out name) _
        (find_by_name_or_email-Keeps name)
        (λ u s k. after_check (Sound out x n) (u.password == "") _ _ s k (λ _.
          Keeps-lift (Sound out x n) (validate_password out password u.password) _
            (λ _ _.
              update_user-Keeps out x n u.id (λ x. record x { last_login = some now }) (λ u. refl))
            s k))
        s k)

  pub sign_in_found-Keeps :
      (o : Option User) (now : ℕ) → Keeps (Sound out x n) (sign_in_found out o now)
  unfolding sign_in_found
  sign_in_found-Keeps none now s k = k
  sign_in_found-Keeps (some u) now s k =
      if_both (λ (m : Result UserError Bool × Accounts). Sound out x n m.1)
        (is_some u.email_verified_at) _ _ k
        (of_write (update_user u.id (λ x. record x { email_verified_at = some now }) s) (
          update_user-Keeps out x n u.id (λ x. record x { email_verified_at = some now })
            (λ u. refl) s k))
    where
      of_write :
          (m : Result UserError (Unit {0}) × Accounts)
          → Sound out x n m.1
          → Sound out x n (is_ok m).1
      of_write (ok u, t) h = h
      of_write (err e, t) h = h

  pub or_not_found-Keeps :
      (m : M (Unit {0})) → Keeps (Sound out x n) m → Keeps (Sound out x n) (or_not_found m)
  or_not_found-Keeps m h s k = of_run (m s) (h s k)
    where
      of_run :
          (m : Result UserError (Unit {0}) × Accounts)
          → Sound out x n m.1
          → Sound out x n (not_found_for m).1
      of_run (ok u, t) h = h
      of_run (err e, t) h = h

  pub update_password-Keeps :
      (i : ℕ) (old_password new_password salt : String)
      → Keeps (Sound out x n) (update_password out i old_password new_password salt)
  unfolding update_password
  update_password-Keeps i old_password new_password salt =
      Keeps-bind (Sound out x n) (find_one i) _ (find_one-Keeps i) (λ u.
        Keeps-lift (Sound out x n) (validate_password out old_password u.password) _ (λ _ _ s k.
          after_check (Sound out x n) (old_password == new_password) _ _ s k (λ _.
            update_user-Keeps out x n i (λ x. record x { password = out.hash salt new_password })
              (λ u. refl) s k)))

  pub reset_with-Keeps :
      (o : Option EmailPayload) (new_password salt : String)
      → Keeps (Sound out x n) (reset_with out o new_password salt)
  unfolding reset_with
  reset_with-Keeps none new_password salt s k = k
  reset_with-Keeps (some payload) new_password salt s k =
      Keeps-bind (Sound out x n) (find_one payload.id) _ (find_one-Keeps payload.id)
        (λ u.
          update_user-Keeps out x n u.id (λ x. record x { password = out.hash salt new_password })
            (λ u. refl))
        s k

  pub remove_avatar-Keeps : (i : ℕ) → Keeps (Sound out x n) (remove_avatar i)
  unfolding remove_avatar
  remove_avatar-Keeps i =
      Keeps-bind (Sound out x n) (find_one i) _ (find_one-Keeps i)
        (λ u. update_user-Keeps out x n i (λ x. record x { avatar = "" }) (λ u. refl))
