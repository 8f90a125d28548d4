-- ===== src/Users/Passwords.antt =====
-- The password that `updatePassword` of src/user/user.service.ts stores, and `login` with it.
use d_reader_backend.Users.Requests.Sound.{has_id}
use d_reader_backend.Users.Names.{
  has_name, has_email, set_user, update_user, find_by_name, find_by_email, find_one,
}
use d_reader_backend.Users.Accounts.{
  find_by_name_or_email, validate_password, login, update_password,
}
use d_reader_backend.Base.{
  ◌∙◌, any-same, continue, any-found, refl, true, ap, any, find_first-update_where, update_where,
  none, some, find_first, or_throw, List, Bool, Option, string_eq, err, if◌then◌else◌, arith, false,
  ◌==◌, ok, ◌≡◌, String, ℕ,
}
use d_reader_backend.Users.Model.{user_not_found, incorrect_password, User, Accounts, Outside, M}

abbrev pub repassword : String → User → User
repassword hash u = record u { password = hash }

-- the end of a login, of whether the password was accepted
logged_in :
    (c : Bool) (id : ℕ) (s : Accounts) (f : User → User)
    → any (has_id id) s.users ≡ true
    → (continue (λ _. update_user id f) (if c then ok tt else err incorrect_password, s)).0
      ≡ (if c then ok tt else err incorrect_password)
unfolding update_user
logged_in true id s f h = ground (arith, h)
logged_in false id s f h = refl

module _ (out : Outside) where
  update_password-state :
      (id : ℕ) (old_password new_password salt : String) (s : Accounts)
      → (update_password out id old_password new_password salt s).0 ≡ ok tt
      → (update_password out id old_password new_password salt s).1
        ≡ set_user id (repassword (out.hash salt new_password)) s
  unfolding update_password validate_password find_one update_user
  update_password-state id old_password new_password salt s h = ground arith

  -- the row that a test finds, found again after the update of its password
  find_first-repassword :
      (p : User → Bool) (u : User) (hash : String) (us : List User)
      → ((x : User) → p (repassword hash x) ≡ p x)
      → find_first p us ≡ some u
      → find_first p (update_where (has_id u.id) (repassword hash) us) ≡ some (repassword hash u)
  find_first-repassword p u hash us keeps e =
      ground (arith, find_first-update_where p (has_id u.id) (repassword hash) us u keeps e)

  found_by :
      (o : Option User) (u : User) (s : Accounts)
      → or_throw o user_not_found s ≡ (ok u, s)
      → o ≡ some u
  found_by none u s h = absurd (cc)
  found_by (some x) u s h = ground arith

  or_throw-repassword :
      (p : User → Bool) (u : User) (hash : String) (s : Accounts)
      → ((x : User) → p (repassword hash x) ≡ p x)
      → or_throw (find_first p s.users) user_not_found s ≡ (ok u, s)
      → or_throw
          (find_first p (update_where (has_id u.id) (repassword hash) s.users))
          user_not_found
          (set_user u.id (repassword hash) s)
        ≡ (ok (repassword hash u), set_user u.id (repassword hash) s)
  or_throw-repassword p u hash s keeps h =
      ap (λ o. or_throw o user_not_found (set_user u.id (repassword hash) s))
        (find_first-repassword p u hash s.users keeps (found_by (find_first p s.users) u s h))

  abbrev found_in : Bool → String → M User
  found_in b name = if b then find_by_email out name else find_by_name out name

  found_again :
      (b : Bool) (name : String) (u : User) (hash : String) (s : Accounts)
      → found_in b name s ≡ (ok u, s)
      → found_in b name (set_user u.id (repassword hash) s)
        ≡ (ok (repassword hash u), set_user u.id (repassword hash) s)
  unfolding find_by_email find_by_name
  found_again true name u hash s h = or_throw-repassword (has_email out name) u hash s (λ x. refl) h
  found_again false name u hash s h = or_throw-repassword (has_name out name) u hash s (λ x. refl) h

  found_has_id :
      (b : Bool) (name : String) (u : User) (s : Accounts)
      → found_in b name s ≡ (ok u, s)
      → any (has_id u.id) s.users ≡ true
  unfolding find_by_email find_by_name
  found_has_id true name u s h =
      any-found (has_email out name) (has_id u.id) s.users u
        (found_by (find_first (has_email out name) s.users) u s h) (ground arith)
  found_has_id false name u s h =
      any-found (has_name out name) (has_id u.id) s.users u
        (found_by (find_first (has_name out name) s.users) u s h) (ground arith)

  -- the result of `login` with `p` where the row found is the one that the password was written to
  login-repassword :
      ((q salt : String) → (out.hash salt q == "") ≡ false)
      → (u : User) (name p old_password new_password salt : String) (now : ℕ) (s : Accounts)
      → (name == "") ≡ false
      → find_by_name_or_email out name s ≡ (ok u, s)
      → (update_password out u.id old_password new_password salt s).0 ≡ ok tt
      → (login out name p now (update_password out u.id old_password new_password salt s).1).0 ≡ (
          if out.compare_hash p (out.hash salt new_password) then ok tt else err incorrect_password)
  unfolding login find_by_name_or_email validate_password update_user
  login-repassword full u name p old_password new_password salt now s named found h =
      let hash = out.hash salt new_password in
      let s' = set_user u.id (repassword hash) s in
      let b = out.is_email name in
      rw (update_password-state u.id old_password new_password salt s h) (
        rw (named, found_again b name u hash s found, full new_password salt)
          (logged_in (out.compare_hash p hash) u.id s' (λ x. record x { last_login = some now })
            (any-same (has_id u.id) (has_id u.id) (repassword hash) s.users (λ x. refl)
              ∙ found_has_id b name u s found)))

  -- Where the login names a user, no hash is empty and bcrypt's `compare` accepts a password with
  -- its own hash: once `updatePassword` of this user returned, `login` with the same name returns
  -- for the new password, and for any password it returns or throws that the password is incorrect,
  -- as `compare` with the hash of the new password tells, whatever the old one was.
  pub login-update_password :
      ((q salt : String) → out.compare_hash q (out.hash salt q) ≡ true)
      → ((q salt : String) → (out.hash salt q == "") ≡ false)
      → (u : User) (name p old_password new_password salt : String) (now : ℕ) (s : Accounts)
      → (name == "") ≡ false
      → find_by_name_or_email out name s ≡ (ok u, s)
      → (update_password out u.id old_password new_password salt s).0 ≡ ok tt
      → ((login out name new_password now
            (update_password out u.id old_password new_password salt s).1).0
          ≡ ok tt)
        × ((login out name p now (update_password out u.id old_password new_password salt s).1).0
            ≡ (if out.compare_hash p (out.hash salt new_password)
                then ok tt
                else err incorrect_password))
  login-update_password accepts full u name p old_password new_password salt now s named found h = (
    login-repassword full u name new_password old_password new_password salt now s named found h
        ∙ ap (λ (b : Bool). if b then ok tt else err incorrect_password)
            (accepts new_password salt),
    login-repassword full u name p old_password new_password salt now s named found h,
  )
