-- ===== src/Base/Monad.antt =====
-- A handler's run: a result or an exception, and the state of the database, which keeps what was
-- written before an exception.
use mathlib.Core.Path.{◌≡◌, refl}
use mathlib.Core.Bool.{Bool, true, false}
use mathlib.Core.Option.{Option, none, some}
use d_reader_backend.Base.Tests.{if◌then◌else◌}

pub data Result (E A : Type 0) : Type 0 where
  ok : A → Result E A
  err : E → Result E A

abbrev pub Action : Type 0 → Type 0 → Type 0 → Type 0
Action S E A = S → Result E A × S

module _ {S E A : Type 0} where
  abbrev pub pure : A → Action S E A
  pure a s = (ok a, s)

  abbrev pub throw : E → Action S E A
  throw e s = (err e, s)

  abbrev pub gets : (S → A) → Action S E A
  gets f s = (ok (f s), s)

  abbrev pub or_throw : Option A → E → Action S E A
  or_throw none e = throw e
  or_throw (some a) _ = pure a

  -- a call of code outside the repository, which throws or returns
  abbrev pub lift : Result E A → Action S E A
  lift r s = (r, s)

-- what follows a call: an exception ends the run
abbrev pub continue : {S E A B : Type 0} → (A → Action S E B) → Result E A × S → Result E B × S
continue f (ok a, s) = f a s
continue f (err e, s) = (err e, s)

infixl 5 ◌>>=◌ ◌>>◌
abbrev pub ◌>>=◌ : {S E A B : Type 0} → Action S E A → (A → Action S E B) → Action S E B
◌>>=◌ m f s = continue f (m s)

abbrev pub ◌>>◌ : {S E A B : Type 0} → Action S E A → Action S E B → Action S E B
m >> k = m >>= λ _. k

abbrev pub throw_if : {S E : Type 0} → Bool → E → Action S E (Unit {0})
throw_if c e s = (if c then err e else ok tt, s)

abbrev pub modify : {S E : Type 0} → (S → S) → Action S E (Unit {0})
modify f s = (ok tt, f s)

-- a check with no effect on the state
abbrev pub Check : Type 0 → Type 0
Check E = Result E (Unit {0})

abbrev pub fail_if : {E : Type 0} → Bool → E → Check E
fail_if c e = if c then err e else ok tt

abbrev pub ◌then_check◌ : {E : Type 0} → Check E → Check E → Check E
◌then_check◌ (ok _) k = k
◌then_check◌ (err e) k = err e

infixr 5 ◌then_check◌
-- What holds of the run's state after both a result and an exception holds of what follows a call.
pub continue_both :
    {S E A B : Type 0} (P : Result E B × S → Type 0) (f : A → Action S E B) (m : Result E A × S)
    → ((a : A) → m.0 ≡ ok a → P (f a m.1))
    → ((e : E) → m.0 ≡ err e → P (err e, m.1))
    → P (continue f m)
continue_both P f (ok a, s) h k = h a refl
continue_both P f (err e, s) h k = k e refl

-- A run that returns nothing and changes nothing is an exception that changes nothing.
pub err_of_ne_ok :
    {S E A : Type 0} (m : Result E A × S) (s : S)
    → ((a : A) → m.0 ≡ ok a → ⊥)
    → m.1 ≡ s
    → (e : E) × (m ≡ (err e, s))
err_of_ne_ok (ok a, s') s h k = absurd (h a refl)
err_of_ne_ok (err e, s') s h k = (e, cc)

-- An invariant of the state, kept by a run whatever its result.
module _ {S E : Type 0} (P : S → Type 0) where
  abbrev pub Keeps : {A : Type 0} → Action S E A → Type 0
  Keeps m = (s : S) → P s → P (m s).1

  pub Keeps-bind :
      {A B : Type 0} (m : Action S E A) (k : A → Action S E B)
      → Keeps m
      → ((a : A) → Keeps (k a))
      → Keeps (m >>= k)
  Keeps-bind m k h n s p =
      continue_both (λ r. P r.1) k (m s) (λ a _. n a (m s).1 (h s p)) (λ _ _. h s p)

  -- a read, and a check that passes: what follows starts from the same state
  pub Keeps-gets :
      {A B : Type 0} (f : S → A) (k : A → Action S E B)
      → ((s : S) → P s → P (k (f s) s).1)
      → Keeps (gets f >>= k)
  Keeps-gets f k n s p = n s p

  pub Keeps-or_throw :
      {A B : Type 0} (o : Option A) (e : E) (k : A → Action S E B)
      → ((a : A) → Keeps (k a))
      → Keeps (or_throw o e >>= k)
  Keeps-or_throw none e k n s p = p
  Keeps-or_throw (some a) e k n s p = n a s p

  -- a check of the arguments, which tells what follows its outcome
  pub after_lift :
      {A B : Type 0} (r : Result E A) (k : A → Action S E B) (s : S)
      → P s
      → ((a : A) → r ≡ ok a → P (k a s).1)
      → P ((lift r >>= k) s).1
  after_lift (ok a) k s p n = n a refl
  after_lift (err e) k s p n = p

  pub Keeps-lift :
      {A B : Type 0} (r : Result E A) (k : A → Action S E B)
      → ((a : A) → r ≡ ok a → Keeps (k a))
      → Keeps (lift r >>= k)
  Keeps-lift r k n s p = after_lift r k s p (λ a h. n a h s p)

  -- a check of the state, which tells what follows its outcome
  pub after_check :
      {B : Type 0} (c : Bool) (e : E) (k : Action S E B) (s : S)
      → P s
      → (c ≡ false → P (k s).1)
      → P ((throw_if c e >> k) s).1
  after_check true e k s p n = p
  after_check false e k s p n = n refl

  pub Keeps-check :
      {B : Type 0} (c : S → Bool) (e : E) (k : Action S E B)
      → ((s : S) → c s ≡ false → P s → P (k s).1)
      → Keeps ((λ s. throw_if (c s) e s) >> k)
  Keeps-check c e k n s p = after_check (c s) e k s p (λ h. n s h p)

  -- a read of a row, which tells what follows the row
  pub after_found :
      {A B : Type 0} (o : Option A) (e : E) (k : A → Action S E B) (s : S)
      → P s
      → ((a : A) → o ≡ some a → P (k a s).1)
      → P ((or_throw o e >>= k) s).1
  after_found none e k s p n = p
  after_found (some a) e k s p n = n a refl

  pub Keeps-find : {A : Type 0} (o : S → Option A) (e : E) → Keeps (λ s. or_throw (o s) e s)
  Keeps-find {A = A} o e s p = of_row (o s)
    where
      of_row : (r : Option A) → P (or_throw r e s).1
      of_row none = p
      of_row (some a) = p

  pub Keeps-if :
      {B : Type 0} (c : Bool) (m k : Action S E B)
      → Keeps m
      → Keeps k
      → Keeps (λ s. if c then m s else k s)
  Keeps-if true m k h n = h
  Keeps-if false m k h n = n
