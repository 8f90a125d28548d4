-- ===== src/Users/Tests.antt =====
-- Accounts of src/user/user.service.ts at concrete inputs.
use d_reader_backend.Users.Passwords.{login-update_password}
use d_reader_backend.Users.Requests.Sound.All.{handle_all-WellFormed, referrals-handle_all}
use d_reader_backend.Users.Requests.{verifies_email, redeems, registers, Request, handle_all}
use d_reader_backend.Users.Names.{update_user, find_one}
use d_reader_backend.Users.Requests.Sound.{referrals, WellFormed}
use d_reader_backend.Users.Accounts.{login, update_password, find_by_name_or_email}
use d_reader_backend.Base.{
  ok, IsEuclidean, ◌≤◌, ◌+◌, refl, ap, if◌then◌else◌, string_eq, err, true, false, eq_iff, Bool,
  ◌||◌, [], Option, some, ◌≡◌, arith, List, ◌==◌, String, ◌∷◌, none,
}
use d_reader_backend.Users.Model.{incorrect_password, User, Accounts, Outside, EmailPayload}
use Prim.Native.String.{count, [], String, ◌++◌}
use text.Mathlib.TextLemmas.{length-append}

abbrev same : String → String → Bool
same a b = a == b

same-IsEuclidean : IsEuclidean same
same-IsEuclidean t a b h k = ground (arith, eq_iff t a, eq_iff t b, eq_iff a b)

-- a hash that shows the password
abbrev hashed : String → String → String
hashed salt p = "#" ++ p

abbrev matches : String → String → Bool
matches p hash = hash == "#" ++ p

abbrev holds_mail : String → Option EmailPayload
holds_mail token = if token == "token" then some record { id = 1; email = "a@b" } else none

abbrev out : Outside
out = record {
  insensitive = same;
  is_email = λ t. (t == "a@b") || (t == "c@d");
  length_of = λ t. 4;
  is_username = λ t. true;
  to_lower = λ t. t;
  naughty_words = [];
  hash = hashed;
  compare_hash = matches;
  verify_token = holds_mail;
}

accepts : (q salt : String) → matches q (hashed salt q) ≡ true
accepts q salt = (eq_iff ("#" ++ q) ("#" ++ q)).1 refl

full : (q salt : String) → (hashed salt q == "") ≡ false
full q salt =
    ground (arith, eq_iff ("#" ++ q) "", ap count {x = "#" ++ q} {y = ""}, length-append "#" q)

abbrev ann : User
ann = record {
  id = 1;
  email = "a@b";
  password = "#old";
  username = "ann";
  display_name = "Ann";
  avatar = "";
  referrer_id = none;
  referrals_remaining = 2;
  deleted_at = none;
  referred_at = none;
  last_login = none;
  last_active_at = none;
  email_verified_at = some 1;
  refer_completed_at = none;
}

abbrev bob : User
bob = record ann { id = 2; email = "b@b"; username = "bob"; referrals_remaining = 0 }

abbrev accounts : Accounts
accounts = record { users = ann ∷ bob ∷ []; consents = []; devices = []; next_id = 3 }

of_two :
    (t a b : String)
    → same a b ≡ false
    → (if same t a then 1 else 0) + ((if same t b then 1 else 0) + 0) ≤ 1
of_two t a b h = ground (arith, same-IsEuclidean t a b)

accounts-WellFormed : WellFormed out accounts
accounts-WellFormed = record {
  ids = λ i. ground arith;
  names = λ t. of_two t "ann" "bob" refl;
  emails = λ t. of_two t "a@b" "b@b" refl;
  below = refl;
  clear = refl;
}

abbrev requests : List Request
requests =
    registers
      record {
        name = some "cat";
        username = none;
        email = "c@d";
        password = some "p";
        ref = some "ann";
      }
      "" none 5
    ∷ redeems (some "ann") 2 6
    ∷ verifies_email "token" 7
    ∷ []

handle_all-WellFormed_example : WellFormed out (handle_all out requests accounts)
handle_all-WellFormed_example =
    handle_all-WellFormed out same-IsEuclidean requests accounts accounts-WellFormed

referrals-handle_all_example : referrals 1 (handle_all out requests accounts).users ≡ 2
referrals-handle_all_example =
    referrals-handle_all out same-IsEuclidean requests accounts 1 accounts-WellFormed

login-update_password_example :
    ((login out "ann" "new" 9 (update_password out 1 "old" "new" "" accounts).1).0 ≡ ok tt)
    × ((login out "ann" "old" 9 (update_password out 1 "old" "new" "" accounts).1).0
        ≡ err incorrect_password)
unfolding find_by_name_or_email update_password find_one update_user
login-update_password_example =
    login-update_password out accepts full ann "ann" "old" "old" "new" "" 9 accounts refl refl refl
