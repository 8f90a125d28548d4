-- ===== src/Users/Names.antt =====
-- The checks of names and emails: src/utils/user.ts, and `throwIfNameTaken`, `throwIfEmailTaken`,
-- `findOne`, `findByEmail` and `findByName` of src/user/user.service.ts.
use d_reader_backend.Base.{
  ℕ, String, Bool, not, ◌||◌, Option, none, some, ◌==◌, nat_eq, string_eq, ltb, any, find_first,
  update_where, if◌then◌else◌, Check, err, fail_if, throw, throw_if, or_throw, modify,
}
use d_reader_backend.Users.Model.{
  M, User, Accounts, Outside, UserError, bad_username, bad_email, username_taken, email_taken,
  user_not_found, record_not_found,
}

abbrev pub username_min_size : ℕ
username_min_size = 3

abbrev pub username_max_size : ℕ
username_max_size = 20

abbrev pub set_user : ℕ → (User → User) → Accounts → Accounts
set_user id f s = record s { users = update_where (λ u. u.id == id) f s.users }

-- `user.update` by the key
unfoldable pub update_user : ℕ → (User → User) → M (Unit {0})
update_user id f s =
    if any (λ u. u.id == id) s.users then modify (set_user id f) s else throw record_not_found s

-- `findOne`
unfoldable pub find_one : ℕ → M User
find_one id s = or_throw (find_first (λ u. u.id == id) s.users) user_not_found s

module _ (out : Outside) where
  -- `findUsernameError` for a text
  unfoldable pub find_username_error : String → Bool
  find_username_error name =
      ltb username_max_size (out.length_of name)
      || ltb (out.length_of name) username_min_size
      || not (out.is_username name)
      || any (λ w. w == out.to_lower name) out.naughty_words

  -- `undefined` is no text
  unfoldable pub validate_user_name : Option String → Check UserError
  unfolding find_username_error
  validate_user_name none = err bad_username
  validate_user_name (some name) = fail_if (find_username_error name) bad_username

  unfoldable pub validate_email : String → Check UserError
  validate_email email = fail_if (not (out.is_email email)) bad_email

  abbrev pub has_name : String → User → Bool
  has_name name u = out.insensitive name u.username

  abbrev pub has_email : String → User → Bool
  has_email email u = out.insensitive email u.email

  unfoldable pub throw_if_name_taken : String → M (Unit {0})
  throw_if_name_taken name s = throw_if (any (has_name name) s.users) username_taken s

  unfoldable pub throw_if_email_taken : String → M (Unit {0})
  throw_if_email_taken email s = throw_if (any (has_email email) s.users) email_taken s

  unfoldable pub find_by_email : String → M User
  find_by_email email s = or_throw (find_first (has_email email) s.users) user_not_found s

  unfoldable pub find_by_name : String → M User
  find_by_name name s = or_throw (find_first (has_name name) s.users) user_not_found s
