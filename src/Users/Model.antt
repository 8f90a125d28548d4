-- ===== src/Users/Model.antt =====
-- The rows of users (prisma/schema.prisma), and what src/user/user.service.ts and
-- src/auth/ call outside the repository.
use d_reader_backend.Base.{ℕ, String, Bool, Option, List, Action}

pub record User : Type 0 where
  pub id : ℕ
  pub email : String
  pub password : String
  pub username : String
  pub display_name : String
  pub avatar : String
  pub referrer_id : Option ℕ
  pub referrals_remaining : ℕ
  pub deleted_at : Option ℕ
  pub referred_at : Option ℕ
  pub last_login : Option ℕ
  pub last_active_at : Option ℕ
  pub email_verified_at : Option ℕ
  pub refer_completed_at : Option ℕ

pub data ConsentType : Type 0 where
  marketing data_analytics : ConsentType

-- `UserPrivacyConsent`
pub record Consent : Type 0 where
  pub user_id : ℕ
  pub consent_type : ConsentType
  pub is_consent_given : Bool

pub record Device : Type 0 where
  pub token : String
  pub user_id : ℕ

-- the tables, and the key that the sequence of the database gives to the next user
pub record Accounts : Type 0 where
  pub users : List User
  pub consents : List Consent
  pub devices : List Device
  pub next_id : ℕ

pub data UserError : Type 0 where
  bad_username bad_email username_taken email_taken : UserError
  google_account_linked incorrect_password same_password : UserError
  user_not_found already_verified already_referred cannot_refer_yourself : UserError
  missing_name : UserError
  type_error : UserError  -- a field of `null` or `undefined` is read
  record_not_found : UserError  -- an `update` finds no row
  bad_data : UserError  -- Prisma refuses `undefined` for a field that is required

-- what an email token holds
pub record EmailPayload : Type 0 where
  pub id : ℕ
  pub email : String

-- The database's comparison that ignores case (`insensitive`), class-validator's `isEmail`,
-- `maxLength` and `minLength` by the length that they count, `RegExp.test` with the expression of a
-- username, `toLowerCase`, bcrypt (`hash` with its salt, and `compare`), and the verification of a
-- token of an email by the JWT library, which throws where the token is not valid.
pub record Outside : Type 0 where
  pub insensitive : String → String → Bool
  pub is_email : String → Bool
  pub length_of : String → ℕ
  pub is_username : String → Bool
  pub to_lower : String → String
  pub naughty_words : List String
  pub hash : (salt password : String) → String
  pub compare_hash : (password hash : String) → Bool
  pub verify_token : String → Option EmailPayload

abbrev pub M : Type 0 → Type 0
M = Action Accounts UserError
