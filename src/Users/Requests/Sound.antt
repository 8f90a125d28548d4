-- ===== src/Users/Requests/Sound.antt =====
-- Rows that no request to src/user/user.service.ts breaks: unique keys, names and emails, and the
-- referrals that are left with those that were used.
pub mod Updates
pub mod Changes
pub mod Referred
pub mod Added
pub mod Handled
pub mod Kept
pub mod All
use d_reader_backend.Base.{
  if◌then◌else◌, none, ℕ, ◌+◌, ◌≤◌, ◌≡◌, String, Bool, true, false, not, ◌&&◌, Option, some, List,
  ◌==◌, nat_eq, leb, any, count_where, sum_of, is_some,
}
use d_reader_backend.Users.Model.{User, Accounts, Outside}
use d_reader_backend.Users.Names.{has_name, has_email}

abbrev pub has_id : ℕ → User → Bool
has_id id u = u.id == id

abbrev pub is_referrer : ℕ → Option ℕ → Bool
is_referrer x none = false
is_referrer x (some r) = r == x

-- the referrals that the user has left
abbrev pub remaining : ℕ → User → ℕ
remaining x u = if u.id == x then u.referrals_remaining else 0

-- the referrals that the user has left and those that were used
abbrev pub referrals : ℕ → List User → ℕ
referrals x us = sum_of (remaining x) us + count_where (λ u. is_referrer x u.referrer_id) us

-- a referrer with no instant of the referral
abbrev pub is_unclear : User → Bool
is_unclear u = not (is_some u.referred_at) && is_some u.referrer_id

pub record WellFormed (out : Outside) (s : Accounts) : Type 0 where
  pub ids : (i : ℕ) → count_where (has_id i) s.users ≤ 1
  pub names : (t : String) → count_where (has_name out t) s.users ≤ 1
  pub emails : (t : String) → count_where (has_email out t) s.users ≤ 1
  pub below : any (λ u. leb s.next_id u.id) s.users ≡ false
  pub clear : any is_unclear s.users ≡ false

-- with a given number of referrals of a user, left or used
pub record Sound (out : Outside) (x n : ℕ) (s : Accounts) : Type 0 where
  pub formed : WellFormed out s
  pub conserved : referrals x s.users ≡ n
