-- ===== src/Users/Partial.antt =====
-- An `update` of src/user/user.service.ts that ends in the middle.
use d_reader_backend.Users.Requests.Sound.{has_id}
use d_reader_backend.Users.Names.{
  set_user, has_name, validate_user_name, has_email, throw_if_name_taken, update_user,
  throw_if_email_taken, find_one, validate_email,
}
use d_reader_backend.Users.Accounts.{emailed, change_username, update, change_email}
use d_reader_backend.Base.{
  refl, string_eq, any-same, any-find_first, arith, err, ok, false, ◌||◌, any, ◌==◌, true, some,
  ◌≡◌, find_first, Option, String, ℕ,
}
use d_reader_backend.Users.Model.{username_taken, User, Accounts, Outside}

module _ (out : Outside) where
  -- The first part of an update that changes the email writes it.
  changed_email :
      (id : ℕ) (email : String) (u : User) (s : Accounts)
      → find_first (has_id id) s.users ≡ some u
      → out.is_email email ≡ true
      → any (has_email out email) s.users ≡ false
      → change_email out id email s ≡ (ok tt, set_user id (emailed email) s)
  unfolding change_email validate_email throw_if_email_taken update_user
  changed_email id email u s found valid free =
      ground (arith, any-find_first (has_id id) s.users u found)

  -- A request that changes the email to a valid one that is free, and the username to a valid one
  -- that is taken, throws for the username after it wrote the email and took back its verification.
  pub update-partly :
      (id : ℕ) (username email : String) (display_name : Option String) (u : User) (s : Accounts)
      → find_first (has_id id) s.users ≡ some u
      → (email == "" || email == u.email) ≡ false
      → (username == "" || username == u.username) ≡ false
      → validate_user_name out (some username) ≡ ok tt
      → any (has_name out username) s.users ≡ true
      → out.is_email email ≡ true
      → any (has_email out email) s.users ≡ false
      → update out id (some username) display_name (some email) s
        ≡ (err username_taken, set_user id (emailed email) s)
  unfolding update find_one change_username throw_if_name_taken
  update-partly id username email display_name u s found new_email new_name valid taken is_email
        free =
      ground (
        arith,
        found,
        changed_email id email u s found is_email free,
        any-same (has_name out username) (has_id id) (emailed email) s.users (λ x. refl),
        valid,
        taken,
      )
