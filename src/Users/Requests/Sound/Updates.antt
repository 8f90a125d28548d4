-- ===== src/Users/Requests/Sound/Updates.antt =====
-- Updates of a row of src/user/user.service.ts, and what they keep.
use d_reader_backend.Base.{
  none-of_same, IsEuclidean, ap, count_where-none, leb, ℕ, ◌≤◌, ◌≡◌, refl, String, Bool, false,
  Option, List, [], ◌∷◌, nat_eq, arith, any, count_where, sum_of, update_where, count_where-same,
  any-same, count_where-update_none, count_where-update_where, Bool-cases, inl, inr,
}
use d_reader_backend.Users.Model.{User, Accounts, Outside}
use d_reader_backend.Users.Names.{set_user}
use d_reader_backend.Users.Requests.Sound.{has_id, is_referrer, remaining, is_unclear, Sound}

-- the key and the referral of a row
abbrev pub key_of : User → ℕ × Option ℕ × Option ℕ × ℕ
key_of u = (u.id, u.referrer_id, u.referred_at, u.referrals_remaining)

-- an update that leaves them alone
abbrev pub IsKept : (User → User) → Type 0
IsKept f = (u : User) → key_of (f u) ≡ key_of u

-- and the names too
abbrev pub names_of : User → (ℕ × Option ℕ × Option ℕ × ℕ) × String × String
names_of u = (key_of u, u.username, u.email)

abbrev pub IsHarmless : (User → User) → Type 0
IsHarmless f = (u : User) → names_of (f u) ≡ names_of u

pub sum_of-same {ℓ} :
    {A : Type ℓ} (g : A → ℕ) (q : A → Bool) (f : A → A) (xs : List A)
    → ((x : A) → g (f x) ≡ g x)
    → sum_of g (update_where q f xs) ≡ sum_of g xs
sum_of-same g q f [] h = refl
sum_of-same g q f (x ∷ xs) h = ground (arith, h x, sum_of-same g q f xs h)

-- the unique texts of a column
abbrev pub IsOnce : (same : String → String → Bool) (key : User → String) → List User → Type 0
IsOnce same key us = (t : String) → count_where (λ u. same t (key u)) us ≤ 1

module _ (out : Outside) (x n : ℕ) where
  pub set_user-Sound_by :
      (i : ℕ) (f : User → User) (s : Accounts)
      → IsKept f
      → IsOnce out.insensitive (λ u. u.username) (update_where (has_id i) f s.users)
      → IsOnce out.insensitive (λ u. u.email) (update_where (has_id i) f s.users)
      → Sound out x n s
      → Sound out x n (set_user i f s)
  set_user-Sound_by i f s h names emails k = record {
    formed = record {
      ids = λ j.
          rw (count_where-same (has_id j) (has_id i) f s.users (λ u. rw (ap (λ k. k.0) (h u))))
            (k.formed.ids j);
      names = names;
      emails = emails;
      below =
          rw
            (any-same (λ u. leb s.next_id u.id) (has_id i) f s.users
              (λ u. rw (ap (λ k. k.0) (h u))))
            k.formed.below;
      clear =
          rw
            (any-same is_unclear (has_id i) f s.users
              (λ u. rw (ap (λ k. k.2) (h u), ap (λ k. k.1) (h u))))
            k.formed.clear;
    };
    conserved =
        rw
          (
            sum_of-same (remaining x) (has_id i) f s.users
                (λ u. rw (ap (λ k. k.0) (h u), ap (λ k. k.3) (h u))),
            count_where-same (λ u. is_referrer x u.referrer_id) (has_id i) f s.users
                (λ u. rw (ap (λ k. k.1) (h u))),
          )
          k.conserved;
  }

  pub IsOnce-same :
      (key : User → String) (i : ℕ) (f : User → User) (us : List User)
      → ((u : User) → key (f u) ≡ key u)
      → IsOnce out.insensitive key us
      → IsOnce out.insensitive key (update_where (has_id i) f us)
  IsOnce-same key i f us h once t =
      rw (count_where-same (λ u. out.insensitive t (key u)) (has_id i) f us (λ u. rw (h u)))
        (once t)

  pub set_user-Sound :
      (i : ℕ) (f : User → User) (s : Accounts)
      → IsHarmless f
      → Sound out x n s
      → Sound out x n (set_user i f s)
  set_user-Sound i f s h k =
      set_user-Sound_by i f s (λ u. ap (λ k. k.0) (h u))
        (IsOnce-same (λ u. u.username) i f s.users (λ u. ap (λ k. k.1) (h u)) k.formed.names)
        (IsOnce-same (λ u. u.email) i f s.users (λ u. ap (λ k. k.2) (h u)) k.formed.emails) k

-- A new value of a field is one that no row has, and goes to the one row of a key.
module _ (same : String → String → Bool) (law : IsEuclidean same) (key : User → String) where
  pub IsOnce-renamed :
      (i : ℕ) (v : String) (f : User → User) (us : List User)
      → ((u : User) → key (f u) ≡ v)
      → any (λ u. same v (key u)) us ≡ false
      → count_where (has_id i) us ≤ 1
      → IsOnce same key us
      → IsOnce same key (update_where (has_id i) f us)
  IsOnce-renamed i v f us new free once old t = elim (Bool-cases (same t v)) [
    | inl e ↦ omega (
      arith,
      count_where-update_none (λ u. same t (key u)) (has_id i) f us
          (none-of_same same law key t v us e free),
      once,
    )
    | inr e ↦ omega (
      arith,
      count_where-update_where (λ u. same t (key u)) (has_id i) f us (λ u _ _. rw (new u) e),
      old t,
    )
  ]

  pub IsOnce-added :
      (u : User) (us : List User)
      → any (λ x. same (key u) (key x)) us ≡ false
      → IsOnce same key us
      → IsOnce same key (u ∷ us)
  IsOnce-added u us free old t = ground (
    arith,
    old t,
    none-of_same same law key t (key u) us,
    count_where-none (λ x. same t (key x)) us,
  )
