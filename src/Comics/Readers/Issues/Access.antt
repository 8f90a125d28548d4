-- ===== src/Comics/Readers/Issues/Access.antt =====
-- Who may read an issue by `checkCanUserRead` of src/comic-issue/user-comic-issue.service.ts.
use d_reader_backend.Base.{
  pure, if◌then◌else◌, Result, if_both, ◌↔◌, ok, refl, [], inr, none, inl, Bool-cases, ==→eq, ◌∷◌,
  ap, eq_iff, any, arith, List, Bool, Option, ◌⊎◌, false, nat_eq, true, some, ◌≡◌, ◌==◌, find_first,
  String, ℕ,
}
use mathlib.Core.List.{Memᴰ}
use mathlib.Core.List.Memᴰ.{head, tail}
use d_reader_backend.Comics.Model.{Library, ComicError, ComicIssue, Collection, CollectibleComic}
use d_reader_backend.Comics.Readers.Issues.{
  check_can_user_read, can_read_found, is_owned_by, opens, is_locked,
}

-- a copy that opens an issue of the collection to the user: one of the user's, not burned, and either
-- used or of a locked collection
pub record IsCopy (u : ℕ) (address : String) (c : CollectibleComic) : Type 0 where
  pub of_collection : c.collection_address ≡ address
  pub owned : c.owner ≡ some u
  pub kept : c.is_burned ≡ false
  pub unwrapped : (is_locked address ≡ true) ⊎ (c.is_used ≡ true)

-- reading an issue, for a user
pub data CanRead (issue u : ℕ) (s : Library) : Type 0 where
  free :
      (i : ComicIssue)
      → find_first (λ i. i.id == issue) s.issues ≡ some i
      → i.is_free_to_read ≡ true
      → CanRead issue u s
  owner :
      (i : ComicIssue) (c : Collection) (x : CollectibleComic)
      → find_first (λ i. i.id == issue) s.issues ≡ some i
      → find_first (λ c. c.comic_issue_id == issue) s.collections ≡ some c
      → Memᴰ x s.collectibles
      → IsCopy u c.address x
      → CanRead issue u s

owner_of : (u : ℕ) (o : Option ℕ) → is_owned_by u o ≡ true → o ≡ some u
owner_of u none h = absurd (cc)
owner_of u (some o) h = ap some (==→eq o u h)

-- the conditions of the query, of a copy
opened :
    (u : ℕ) (address : String) (c : CollectibleComic) (locked : Bool)
    → opens locked address u c ≡ true
    → (c.collection_address ≡ address)
      × (c.owner ≡ some u)
      × (c.is_burned ≡ false)
      × ((locked ≡ true) ⊎ (c.is_used ≡ true))
opened u address c locked h = (
  ground (arith, h, eq_iff c.collection_address address),
  owner_of u c.owner (ground (arith, h)),
  ground (arith, h),
  elim (Bool-cases locked) [ inl e ↦ inl e | inr e ↦ inr (ground (arith, h, e)) ],
)

opens-IsCopy :
    (u : ℕ) (address : String) (c : CollectibleComic)
    → opens (is_locked address) address u c ≡ true
    → IsCopy u address c
opens-IsCopy u address c h =
    let k = opened u address c (is_locked address) h in
    record { of_collection = k.0; owned = k.1; kept = k.2; unwrapped = k.3 }

IsCopy-opens :
    (u : ℕ) (address : String) (c : CollectibleComic) (locked : Bool)
    → c.collection_address ≡ address
    → c.owner ≡ some u
    → c.is_burned ≡ false
    → (locked ≡ true) ⊎ (c.is_used ≡ true)
    → opens locked address u c ≡ true
IsCopy-opens u address c locked e o b k =
    ground (arith, eq_iff c.collection_address address, e, ap (is_owned_by u) o, b, k)

any-Mem {ℓ} :
    {A : Type ℓ} (p : A → Bool) (xs : List A) → any p xs ≡ true → (x : A) × Memᴰ x xs × (p x ≡ true)
any-Mem p [] h = absurd (cc)
any-Mem p (x ∷ xs) h = elim (Bool-cases (p x)) [
  | inl e ↦ (x, head refl, e)
  | inr e ↦ later (any-Mem p xs (ground (arith, h, e)))
]
  where
    later : (y : _) × Memᴰ y xs × (p y ≡ true) → (y : _) × Memᴰ y (x ∷ xs) × (p y ≡ true)
    later (y, m, e) = (y, tail m, e)

Mem-any {ℓ} :
    {A : Type ℓ} (p : A → Bool) (xs : List A) (x : A) → Memᴰ x xs → p x ≡ true → any p xs ≡ true
Mem-any p [] x m h = elim m [ ]
Mem-any p (y ∷ xs) x (head e) h = ground (arith, ap p e, h)
Mem-any p (y ∷ xs) x (tail m) h = ground (arith, Mem-any p xs x m h)

copy_found :
    (is_free copy : Bool) (s : Library)
    → is_free ≡ false
    → (if is_free then pure {E = ComicError} true s else pure copy s).0 ≡ ok true
    → copy ≡ true
copy_found is_free copy s b h = ground (arith, b, h)

module _ (issue u : ℕ) (s : Library) where
  granted :
      (o : Option ComicIssue) (k : Option Collection)
      → find_first (λ i. i.id == issue) s.issues ≡ o
      → find_first (λ c. c.comic_issue_id == issue) s.collections ≡ k
      → (can_read_found o k u s).0 ≡ ok true
      → CanRead issue u s
  unfolding is_locked
  granted none k e f h = absurd (cc)
  granted (some i) none e f h = free i e (ground (arith, h))
  granted (some i) (some c) e f h = elim (Bool-cases i.is_free_to_read) [
    | inl b ↦ free i e b
    | inr b ↦ by_copy (
        any-Mem (opens (is_locked c.address) c.address u) s.collectibles (
          copy_found i.is_free_to_read
            (any (opens (is_locked c.address) c.address u) s.collectibles) s b h))
  ]
    where
      by_copy :
          (x : CollectibleComic) × Memᴰ x s.collectibles
            × (opens (is_locked c.address) c.address u x ≡ true)
          → CanRead issue u s
      by_copy (x, m, k) = owner i c x e f m (opens-IsCopy u c.address x k)

  grants : CanRead issue u s → (check_can_user_read issue (some u) s).0 ≡ ok true
  unfolding check_can_user_read is_locked
  grants (free i e b) = rw (e, b) refl
  grants (owner i c x e f m k) =
      rw (e, f)
        (if_both (λ (a : Result ComicError Bool × Library). a.0 ≡ ok true) i.is_free_to_read _ _
          refl
          (ap ok (
            Mem-any (opens (is_locked c.address) c.address u) s.collectibles x m (
              IsCopy-opens u c.address x (is_locked c.address) k.of_collection k.owned k.kept
                k.unwrapped))))

-- `checkCanUserRead` lets a user read an issue exactly if the issue exists and is free to read, or
-- the user owns a collectible of its collection that is not burned, and is used unless the
-- collection is one of the locked ones.
pub check_can_user_read_iff :
    (issue u : ℕ) (s : Library)
    → ((check_can_user_read issue (some u) s).0 ≡ ok true) ↔ CanRead issue u s
unfolding check_can_user_read
check_can_user_read_iff issue u s = (
  granted issue u s (find_first (λ i. i.id == issue) s.issues)
      (find_first (λ c. c.comic_issue_id == issue) s.collections) refl refl,
  grants issue u s,
)
