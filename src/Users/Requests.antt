-- ===== src/Users/Requests.antt =====
-- The requests to src/user/user.service.ts, one after the other, and what all of them keep.
pub mod Sound
use d_reader_backend.Base.{ℕ, String, Option, List, [], ◌∷◌, Action, ◌>>◌, pure}
use d_reader_backend.Users.Model.{M, Accounts, Outside, Consent}
use d_reader_backend.Users.Referrals.{redeem_referral}
use d_reader_backend.Users.Accounts.{
  NewUser, register, login, handle_google_sign_in, find_me, update, update_password, reset_password,
  verify_email, pseudo_delete, pseudo_recover, remove_avatar, insert_device_token,
  create_user_privacy_consent,
}

pub data Request : Type 0 where
  registers : (dto : NewUser) (salt : String) (avatar : Option String) (now : ℕ) → Request
  redeems : (ref : Option String) (referee_id now : ℕ) → Request
  logs_in : (name_or_email password : String) (now : ℕ) → Request
  signs_in_by_google : (email : String) (now : ℕ) → Request
  finds_me : (id now : ℕ) → Request
  updates : (id : ℕ) (username display_name email : Option String) → Request
  updates_password : (id : ℕ) (old_password new_password salt : String) → Request
  resets_password : (token new_password salt : String) → Request
  verifies_email : (token : String) (now : ℕ) → Request
  deletes : (id now : ℕ) → Request
  recovers : (id : ℕ) → Request
  removes_avatar : (id : ℕ) → Request
  inserts_device : (token : String) (user_id : ℕ) → Request
  creates_consent : Consent → Request

module _ (out : Outside) where
  abbrev pub handle : Request → Accounts → Accounts
  handle (registers dto salt avatar now) s = (register out dto salt avatar now s).1
  handle (redeems ref referee_id now) s = (redeem_referral out ref referee_id now s).1
  handle (logs_in name_or_email password now) s = (login out name_or_email password now s).1
  handle (signs_in_by_google email now) s = (handle_google_sign_in out email now s).1
  handle (finds_me id now) s = (find_me id now s).1
  handle (updates id username display_name email) s =
      (update out id username display_name email s).1
  handle (updates_password id old_password new_password salt) s =
      (update_password out id old_password new_password salt s).1
  handle (resets_password token new_password salt) s =
      (reset_password out token new_password salt s).1
  handle (verifies_email token now) s = (verify_email out token now s).1
  handle (deletes id now) s = (pseudo_delete id now s).1
  handle (recovers id) s = (pseudo_recover id s).1
  handle (removes_avatar id) s = (remove_avatar id s).1
  handle (inserts_device token user_id) s = (insert_device_token token user_id s).1
  handle (creates_consent consent) s = (create_user_privacy_consent consent s).1

  -- requests in their order, each whatever became of those before
  abbrev pub handle_all : List Request → Accounts → Accounts
  handle_all [] s = s
  handle_all (r ∷ rs) s = handle_all rs (handle r s)
