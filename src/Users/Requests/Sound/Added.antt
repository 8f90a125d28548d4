-- ===== src/Users/Requests/Sound/Added.antt =====
-- What `register` of src/user/user.service.ts keeps.
use d_reader_backend.Users.Requests.Sound.Referred.{redeem_referral-Keeps}
use d_reader_backend.Users.Referrals.{redeem_referral}
use d_reader_backend.Users.Requests.Sound.Changes.{then-Keeps, update_user-Keeps}
use d_reader_backend.Users.Accounts.{
  add_consents, or_other, text_of, NewUser, not_awaited, set_avatar, create_user, register,
  add_user,
}
use d_reader_backend.Users.Names.{
  validate_email, validate_user_name, throw_if_email_taken, throw_if_name_taken, has_email,
  has_name,
}
use d_reader_backend.Base.{
  IsEuclidean, ◌>>◌, continue_both, modify, after_check, Keeps-lift, some, String, Keeps, Option,
  refl, count_where-none, [], ap, arith, suc, ◌∷◌, false, leb, any, none, List, ◌≡◌, ℕ,
}
use d_reader_backend.Users.Model.{M, User, Accounts, Outside}
use d_reader_backend.Users.Requests.Sound.{is_unclear, has_name, Sound, has_id}
use d_reader_backend.Users.Requests.Sound.Updates.{IsOnce-added}

-- a key that is above those of the rows is free
has_id-below :
    (m : ℕ) (us : List User) → any (λ u. leb m u.id) us ≡ false → any (has_id m) us ≡ false
has_id-below m [] h = refl
has_id-below m (u ∷ us) h = ground (arith, has_id-below m us)

below_suc :
    (m : ℕ) (us : List User)
    → any (λ u. leb m u.id) us ≡ false
    → any (λ u. leb (suc m) u.id) us ≡ false
below_suc m [] h = refl
below_suc m (u ∷ us) h = ground (arith, below_suc m us)

unreferred : (u : User) → u.referrer_id ≡ none → is_unclear u ≡ false
unreferred u h = ground (arith, h)

module _ (out : Outside) (law : IsEuclidean out.insensitive) (x n : ℕ) where
  pub add_user-Sound :
      (u : User) (s : Accounts)
      → u.id ≡ s.next_id
      → u.referrals_remaining ≡ 0
      → u.referrer_id ≡ none
      → any (has_name out u.username) s.users ≡ false
      → any (has_email out u.email) s.users ≡ false
      → Sound out x n s
      → Sound out x n (add_user u s)
  add_user-Sound u s id zero_left no_referrer name email k = record {
    formed = record {
      ids = λ j. ground (
        arith,
        k.formed.ids j,
        id,
        ap (λ m. any (has_id m) s.users) {x = s.next_id} {y = j},
        count_where-none (has_id j) s.users,
        has_id-below s.next_id s.users k.formed.below,
      );
      names = IsOnce-added out.insensitive law (λ u. u.username) u s.users name k.formed.names;
      emails = IsOnce-added out.insensitive law (λ u. u.email) u s.users email k.formed.emails;
      below = ground (arith, id, below_suc s.next_id s.users k.formed.below);
      clear = ground (arith, unreferred u no_referrer, k.formed.clear);
    };
    conserved = rw (zero_left, no_referrer) (ground (arith, k.conserved));
  }

  pub Sound-rows :
      (s t : Accounts)
      → t.users ≡ s.users
      → t.next_id ≡ s.next_id
      → Sound out x n s
      → Sound out x n t
  Sound-rows s t users next k = record {
    formed = record {
      ids = λ j. rw users (k.formed.ids j);
      names = λ j. rw users (k.formed.names j);
      emails = λ j. rw users (k.formed.emails j);
      below = rw (users, next) k.formed.below;
      clear = rw users k.formed.clear;
    };
    conserved = rw users k.conserved;
  }

  pub create_user-Sound :
      (name email : String) (password : Option String) (salt : String) (now : ℕ) (s : Accounts)
      → any (has_name out name) s.users ≡ false
      → any (has_email out email) s.users ≡ false
      → Sound out x n s
      → Sound out x n (create_user out name email password salt now s).1
  unfolding create_user
  create_user-Sound name email none salt now s free_name free_email k = k
  create_user-Sound name email (some password) salt now s free_name free_email k =
      add_user-Sound _ s refl refl refl free_name free_email k

  not_awaited-Keeps :
      (m : M (Unit {0})) → Keeps (Sound out x n) m → Keeps (Sound out x n) (not_awaited m)
  not_awaited-Keeps m h s k = h s k

  set_avatar-Keeps : (i : ℕ) (avatar : Option String) → Keeps (Sound out x n) (set_avatar i avatar)
  set_avatar-Keeps i none s k = k
  set_avatar-Keeps i (some avatar) s k =
      update_user-Keeps out x n i (λ u. record u { avatar = avatar }) (λ u. refl) s k

  -- what follows the row of the new user
  written-Keeps :
      (i : ℕ) (ref avatar : Option String) (now : ℕ)
      → Keeps (Sound out x n) (
          modify (add_consents i)
          >> (not_awaited (redeem_referral out ref i now) >> not_awaited (set_avatar i avatar)))
  written-Keeps i ref avatar now =
      then-Keeps out x n (modify (add_consents i))
        (not_awaited (redeem_referral out ref i now) >> not_awaited (set_avatar i avatar))
        (λ s. Sound-rows s (add_consents i s) refl refl)
        (then-Keeps out x n (not_awaited (redeem_referral out ref i now))
          (not_awaited (set_avatar i avatar))
          (not_awaited-Keeps (redeem_referral out ref i now)
            (redeem_referral-Keeps out x n ref i now))
          (not_awaited-Keeps (set_avatar i avatar) (set_avatar-Keeps i avatar)))

  pub register-Keeps :
      (dto : NewUser) (salt : String) (avatar : Option String) (now : ℕ)
      → Keeps (Sound out x n) (register out dto salt avatar now)
  unfolding register throw_if_name_taken throw_if_email_taken
  register-Keeps dto salt avatar now =
      let name = text_of (or_other dto.username dto.name) in
      Keeps-lift (Sound out x n) (validate_user_name out (or_other dto.username dto.name)) _ (λ _ _.
        Keeps-lift (Sound out x n) (validate_email out dto.email) _ (λ _ _ s k.
          after_check (Sound out x n) (any (has_name out name) s.users) _ _ s k (λ free_name.
            after_check (Sound out x n) (any (has_email out dto.email) s.users) _ _ s k
              (λ free_email.
                continue_both (λ r. Sound out x n r.1) _
                  (create_user out name dto.email dto.password salt now s)
                  (λ u _. written-Keeps u.id dto.ref avatar now _ (
                    create_user-Sound name dto.email dto.password salt now s free_name free_email
                      k))
                  (λ _ _.
                    create_user-Sound name dto.email dto.password salt now s free_name free_email
                      k)))))
