-- ===== src/Users/Requests/Sound/Changes.antt =====
-- The writes of src/user/user.service.ts that change a name or an email or add a row, and what they
-- keep.
use d_reader_backend.Users.Accounts.{named, emailed, change_username, change_email}
use d_reader_backend.Users.Names.{
  has_name, validate_email, validate_user_name, throw_if_email_taken, throw_if_name_taken, set_user,
  update_user,
}
use d_reader_backend.Base.{
  IsEuclidean, Keeps-bind, ◌>>◌, refl, count_where-update_one, nat_eq, Keeps-check, arith, ◌==◌,
  Result, Keeps-lift, if_both, false, some, find_first, any, String, ◌≡◌, Keeps, ℕ,
}
use d_reader_backend.Users.Model.{
  M, User, Accounts, Outside, UserError, username_taken, email_taken,
}
use d_reader_backend.Users.Requests.Sound.{has_email, Sound, has_id}
use d_reader_backend.Users.Requests.Sound.Updates.{
  IsOnce-renamed, IsOnce-same, set_user-Sound_by, set_user-Sound, IsHarmless, IsKept,
}

named-IsKept : (name : String) → IsKept (named name)
named-IsKept name u = refl

emailed-IsKept : (email : String) → IsKept (emailed email)
emailed-IsKept email u = refl

module _ (out : Outside) (x n : ℕ) where
  pub update_user-Sound_by :
      (i : ℕ) (f : User → User) (s : Accounts)
      → Sound out x n s
      → Sound out x n (set_user i f s)
      → Sound out x n (update_user i f s).1
  unfolding update_user
  update_user-Sound_by i f s k h =
      if_both (λ (m : Result UserError (Unit {0}) × Accounts). Sound out x n m.1)
        (any (λ u. u.id == i) s.users) _ _ h k

  pub update_user-Keeps :
      (i : ℕ) (f : User → User) → IsHarmless f → Keeps (Sound out x n) (update_user i f)
  update_user-Keeps i f h s k = update_user-Sound_by i f s k (set_user-Sound out x n i f s h k)

  -- two runs, one after the other
  pub then-Keeps :
      (m k : M (Unit {0}))
      → Keeps (Sound out x n) m
      → Keeps (Sound out x n) k
      → Keeps (Sound out x n) (m >> k)
  then-Keeps m k h l = Keeps-bind (Sound out x n) m (λ _. k) h (λ _. l)

module _ (out : Outside) (law : IsEuclidean out.insensitive) (x n : ℕ) where
  pub change_username-Keeps :
      (i : ℕ) (name : String) → Keeps (Sound out x n) (change_username out i name)
  unfolding change_username throw_if_name_taken
  change_username-Keeps i name =
      Keeps-lift (Sound out x n) (validate_user_name out (some name)) _ (λ _ _.
        Keeps-check (Sound out x n) (λ s. any (has_name out name) s.users) username_taken _
          (λ s free k. update_user-Sound_by out x n i (named name) s k (
            set_user-Sound_by out x n i (named name) s (named-IsKept name)
              (IsOnce-renamed out.insensitive law (λ u. u.username) i name _ s.users (λ u. refl)
                free (k.formed.ids i) k.formed.names)
              (IsOnce-same out x n (λ u. u.email) i _ s.users (λ u. refl) k.formed.emails) k)))

  -- a write of the row of a key with an email that no row has
  pub new_email-Sound :
      (i : ℕ) (email : String) (f : User → User) (s : Accounts)
      → IsKept f
      → ((u : User) → (f u).email ≡ email)
      → ((u : User) → (f u).username ≡ u.username)
      → any (has_email out email) s.users ≡ false
      → Sound out x n s
      → Sound out x n (set_user i f s)
  new_email-Sound i email f s kept new same free k =
      set_user-Sound_by out x n i f s kept
        (IsOnce-same out x n (λ u. u.username) i f s.users same k.formed.names)
        (IsOnce-renamed out.insensitive law (λ u. u.email) i email f s.users new free
          (k.formed.ids i) k.formed.emails)
        k

  -- a write of the row of a key with the email that it has
  pub same_email-Sound :
      (i : ℕ) (u : User) (f : User → User) (s : Accounts)
      → IsKept f
      → (f u).email ≡ u.email
      → ((u : User) → (f u).username ≡ u.username)
      → find_first (has_id i) s.users ≡ some u
      → Sound out x n s
      → Sound out x n (set_user i f s)
  same_email-Sound i u f s kept old same found k =
      set_user-Sound_by out x n i f s kept
        (IsOnce-same out x n (λ u. u.username) i f s.users same k.formed.names)
        (λ t. omega (
          arith,
          k.formed.emails t,
          count_where-update_one (has_email out t) (has_id i) f s.users u (k.formed.ids i) found
              (rw old),
        ))
        k

  pub change_email-Keeps :
      (i : ℕ) (email : String) → Keeps (Sound out x n) (change_email out i email)
  unfolding change_email throw_if_email_taken
  change_email-Keeps i email = Keeps-lift (Sound out x n) (validate_email out email) _ (λ _ _.
      Keeps-check (Sound out x n) (λ s. any (has_email out email) s.users) email_taken _
        (λ s free k. update_user-Sound_by out x n i (emailed email) s k (
          new_email-Sound i email (emailed email) s (emailed-IsKept email) (λ u. refl) (λ u. refl)
            free k)))
