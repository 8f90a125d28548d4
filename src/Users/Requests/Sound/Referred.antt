-- ===== src/Users/Requests/Sound/Referred.antt =====
-- What `redeemReferral` of src/user/user.service.ts keeps: a referral that is used is one less left.
use d_reader_backend.Users.Requests.Sound.Updates.{sum_of-same}
use d_reader_backend.Users.Referrals.{refer_by, refer_found, redeem_referral, use_referral, refer}
use d_reader_backend.Users.Names.{has_email, has_name, set_user}
use d_reader_backend.Base.{
  string_eq, if_both, Keeps, find_first-holds, ==→eq, String, if_cases, Result, find_first_unique,
  any-found, find_first-update_where, leb, true, ap, nat_eq, count_where-sum_of, sum_of-update_one,
  ◌&&◌, refl, if◌then◌else◌, ◌+◌, [], not, Option, arith, none, ◌==◌, ◌∙◌, ◌∷◌, some, any-same,
  false, count_where-same, find_first, any, update_where, ◌≤◌, ◌≡◌, count_where, List, Bool,
  is_some, ℕ,
}
use d_reader_backend.Users.Model.{User, Accounts, Outside, UserError}
use d_reader_backend.Users.Requests.Sound.{
  remaining, is_referrer, referrals, is_unclear, Sound, has_id,
}

any-kept_none {ℓ} :
    {A : Type ℓ} (p q : A → Bool) (f : A → A) (xs : List A)
    → ((x : A) → p x ≡ false → p (f x) ≡ false)
    → any p xs ≡ false
    → any p (update_where q f xs) ≡ false
any-kept_none p q f [] h e = refl
any-kept_none p q f (x ∷ xs) h e = ground (arith, h x, any-kept_none p q f xs h)

-- the referee of a referral that can be redeemed has no referrer
no_referrer :
    (u : User) → is_some u.referred_at ≡ false → is_unclear u ≡ false → u.referrer_id ≡ none
no_referrer u h c = of_cases u.referred_at u.referrer_id h c
  where
    of_cases :
        (a b : Option ℕ) → is_some a ≡ false → not (is_some a) && is_some b ≡ false → b ≡ none
    of_cases a none h c = refl
    of_cases none (some r) h c = absurd (cc)
    of_cases (some t) (some r) h c = absurd (cc)

none-found {ℓ} :
    {A : Type ℓ} (p q : A → Bool) (xs : List A) (a : A)
    → find_first p xs ≡ some a
    → any q xs ≡ false
    → q a ≡ false
none-found p q xs a e h = ground (arith, any-found p q xs a e)

id_self : (u : User) → has_id u.id u ≡ true
id_self u = ground arith

module _ (out : Outside) (x n now : ℕ) (r e : User) (s : Accounts) where
  abbrev referred : List User
  referred = update_where (has_id e.id) (refer r.id now) s.users

  abbrev both : Accounts
  both = set_user r.id use_referral (set_user e.id (refer r.id now) s)

  count_where-both :
      (p : User → Bool)
      → ((u : User) → p (refer r.id now u) ≡ p u)
      → ((u : User) → p (use_referral u) ≡ p u)
      → count_where p both.users ≡ count_where p s.users
  count_where-both p h k =
      count_where-same p (has_id r.id) use_referral referred k
      ∙ count_where-same p (has_id e.id) (refer r.id now) s.users h

  any-both :
      (p : User → Bool)
      → ((u : User) → p (refer r.id now u) ≡ p u)
      → ((u : User) → p (use_referral u) ≡ p u)
      → any p both.users ≡ any p s.users
  any-both p h k =
      any-same p (has_id r.id) use_referral referred k
      ∙ any-same p (has_id e.id) (refer r.id now) s.users h

  referrals-refer :
      count_where (has_id e.id) s.users ≤ 1
      → find_first (has_id e.id) s.users ≡ some e
      → e.referrer_id ≡ none
      → referrals x referred ≡ referrals x s.users + (if r.id == x then 1 else 0)
  referrals-refer once found free = ground (
    arith,
    sum_of-same (remaining x) (has_id e.id) (refer r.id now) s.users (λ u. refl),
    count_where-sum_of (λ u. is_referrer x u.referrer_id) s.users,
    count_where-sum_of (λ u. is_referrer x u.referrer_id) referred,
    sum_of-update_one (has_id e.id) (refer r.id now)
        (λ u. if is_referrer x u.referrer_id then 1 else 0) s.users e once found,
    ap (is_referrer x) free,
  )

  referrals-use_referral :
      count_where (has_id r.id) referred ≤ 1
      → find_first (has_id r.id) referred ≡ some r
      → r.referrals_remaining == 0 ≡ false
      → referrals x both.users + (if r.id == x then 1 else 0) ≡ referrals x referred
  referrals-use_referral once found left = ground (
    arith,
    count_where-same (λ u. is_referrer x u.referrer_id) (has_id r.id) use_referral referred
        (λ u. refl),
    sum_of-update_one (has_id r.id) use_referral (remaining x) referred r once found,
  )

  find_first-referred :
      (p : User → Bool)
      → find_first p s.users ≡ some r
      → r.id == e.id ≡ false
      → count_where (has_id r.id) s.users ≤ 1
      → find_first (has_id r.id) referred ≡ some r
  find_first-referred p found other once = ground (
    arith,
    find_first-update_where (has_id r.id) (has_id e.id) (refer r.id now) s.users r (λ u. refl)
        (find_first_unique p (has_id r.id) s.users r found (id_self r) once),
  )

  both-Sound :
      (p : User → Bool)
      → find_first p s.users ≡ some r
      → find_first (has_id e.id) s.users ≡ some e
      → r.id == e.id ≡ false
      → is_some e.referred_at ≡ false
      → r.referrals_remaining == 0 ≡ false
      → Sound out x n s
      → Sound out x n both
  both-Sound p found_r found_e other new left k =
      let free : e.referrer_id ≡ none =
        no_referrer e new (none-found (has_id e.id) is_unclear s.users e found_e k.formed.clear) in
      let found : find_first (has_id r.id) referred ≡ some r =
        (find_first-referred p found_r other (k.formed.ids r.id)) in
      record {
        formed = record {
          ids = λ j. rw (count_where-both (has_id j) (λ u. refl) (λ u. refl)) (k.formed.ids j);
          names = λ t.
              rw (count_where-both (has_name out t) (λ u. refl) (λ u. refl)) (k.formed.names t);
          emails = λ t.
              rw (count_where-both (has_email out t) (λ u. refl) (λ u. refl)) (k.formed.emails t);
          below = any-both (λ u. leb s.next_id u.id) (λ u. refl) (λ u. refl) ∙ k.formed.below;
          clear =
              any-same is_unclear (has_id r.id) use_referral referred (λ u. refl)
              ∙ any-kept_none is_unclear (has_id e.id) (refer r.id now) s.users (λ u _. refl)
                  k.formed.clear;
        };
        conserved = omega (
          arith,
          referrals-refer (k.formed.ids e.id) found_e free,
          referrals-use_referral
              (rw
                (count_where-same (has_id r.id) (has_id e.id) (refer r.id now) s.users (λ u. refl))
                (k.formed.ids r.id))
              found left,
          k.conserved,
        );
      }

module _ (out : Outside) (x n : ℕ) where
  abbrev After : Result UserError (Unit {0}) × Accounts → Type 0
  After m = Sound out x n m.1

  refer_found-Sound :
      (p : User → Bool) (r : User) (i now : ℕ) (s : Accounts)
      → find_first p s.users ≡ some r
      → r.id == i ≡ false
      → r.referrals_remaining == 0 ≡ false
      → Sound out x n s
      → (o : Option User) → find_first (has_id i) s.users ≡ o
      → After (refer_found o r now s)
  unfolding refer_found
  refer_found-Sound p r i now s found other left k none h = k
  refer_found-Sound p r i now s found other left k (some e) h =
      let same : e.id ≡ i = ==→eq e.id i (find_first-holds (has_id i) s.users e h) in
      if_cases After (is_some e.referred_at) _ _ (λ _. k)
        (λ new.
          both-Sound out x n now r e s p found (ap (λ j. find_first (has_id j) s.users) same ∙ h)
            (rw same other) new left k)

  refer_by-Sound :
      (p : User → Bool) (i now : ℕ) (s : Accounts)
      → Sound out x n s
      → (o : Option User) → find_first p s.users ≡ o
      → After (refer_by o i now s)
  unfolding refer_by
  refer_by-Sound p i now s k none h = k
  refer_by-Sound p i now s k (some r) h =
      if_cases After (r.referrals_remaining == 0) _ _ (λ _. k)
        (λ left.
          if_cases After (r.id == i) _ _ (λ _. k)
            (λ other.
              refer_found-Sound p r i now s h other left k (find_first (has_id i) s.users) refl))

  pub redeem_referral-Keeps :
      (ref : Option String) (i now : ℕ) → Keeps (Sound out x n) (redeem_referral out ref i now)
  unfolding redeem_referral
  redeem_referral-Keeps none i now s k = k
  redeem_referral-Keeps (some ref) i now s k = if_both After (ref == "") _ _ k (
      if_both After (i == 0) _ _ k
        (refer_by-Sound (has_name out ref) i now s k (find_first (has_name out ref) s.users) refl))
