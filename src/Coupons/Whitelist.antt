-- ===== src/Coupons/Whitelist.antt =====
-- The wallets of a coupon after `addWhitelistedWalletsToCoupon` of
-- src/candy-machine/candy-machine.service.ts.
use d_reader_backend.Base.{
  Result, err, if_cases, ◌++◌, false, Option, ok, refl, [], count_where-none, nat_eq, ap, eq_iff,
  ◌∷◌, string_eq, arith, none, ◌||◌, ◌==◌, not, count_where, some, any, true, ◌&&◌, Bool, ◌≡◌, ◌≤◌,
  List, String, ℕ,
}
use d_reader_backend.Coupons.{
  unique_violation, store_wallets, has_coupon, insert_wallets, is_wallet_row,
  add_whitelisted_wallets, new_wallets,
}
use d_reader_backend.Coupons.Model.{unique_violation, Desk, DeskError}
use d_reader_backend.Mint.Model.{WhitelistedWallet}

abbrev pub on_list : ℕ → String → List WhitelistedWallet → Bool
on_list c w rows = any (is_wallet_row c w) rows

abbrev pub is_given : String → List String → Bool
is_given w ws = any (λ v. v == w) ws

insert_wallets-on_list :
    (c k : ℕ) (w : String) (ws : List String) (rows after : List WhitelistedWallet)
    → insert_wallets c ws rows ≡ some after
    → on_list k w after ≡ (on_list k w rows || ((c == k) && is_given w ws))
unfolding insert_wallets
insert_wallets-on_list c k w [] rows after e =
    ground (arith, ap (on_list k w) {x = rows} {y = after})
insert_wallets-on_list c k w (v ∷ ws) rows after e = ground (
  arith,
  insert_wallets-on_list c k w ws (record { coupon_id = c; wallet_address = v } ∷ rows) after,
)

is_given-new :
    (c : ℕ) (w : String) (ws : List String) (s : Desk)
    → is_given w (new_wallets c ws s) ≡ (is_given w ws && not (on_list c w s.wallet_rows))
is_given-new c w [] s = refl
is_given-new c w (v ∷ ws) s =
    ground (
      arith,
      is_given-new c w ws s,
      eq_iff v w,
      ap (λ x. on_list c x s.wallet_rows) {x = v} {y = w},
    )

insert_wallets-taken :
    (c : ℕ) (w : String) (ws : List String) (rows : List WhitelistedWallet)
    → is_given w ws ≡ true
    → on_list c w rows ≡ true
    → insert_wallets c ws rows ≡ none
unfolding insert_wallets
insert_wallets-taken c w [] rows g o = absurd (cc)
insert_wallets-taken c w (v ∷ ws) rows g o = ground (
  arith,
  insert_wallets-taken c w ws (record { coupon_id = c; wallet_address = v } ∷ rows),
  eq_iff v w,
  ap (λ x. on_list c x rows) {x = v} {y = w},
)

insert_wallets-twice :
    (c : ℕ) (w : String) (ws : List String) (rows : List WhitelistedWallet)
    → 2 ≤ count_where (λ v. v == w) ws
    → insert_wallets c ws rows ≡ none
unfolding insert_wallets
insert_wallets-twice c w [] rows h = absurd (omega (arith, h))
insert_wallets-twice c w (v ∷ ws) rows h = ground (
  arith,
  insert_wallets-twice c w ws (record { coupon_id = c; wallet_address = v } ∷ rows),
  insert_wallets-taken c w ws (record { coupon_id = c; wallet_address = v } ∷ rows),
  eq_iff v w,
  count_where-none (λ x. x == w) ws,
)

store_wallets-on_list :
    (c k : ℕ) (w : String) (ws : List String) (o : Option (List WhitelistedWallet)) (s : Desk)
    → ((rows : List WhitelistedWallet)
        → o ≡ some rows
        → on_list k w rows ≡ (on_list k w s.wallet_rows || ((c == k) && is_given w ws)))
    → (store_wallets o (new_wallets c ws s) s).0 ≡ ok tt
    → on_list k w (store_wallets o (new_wallets c ws s) s).1.wallet_rows
      ≡ (on_list k w s.wallet_rows || ((c == k) && is_given w ws))
store_wallets-on_list c k w ws none s h e = absurd (cc)
store_wallets-on_list c k w ws (some rows) s h e = h rows refl

-- After `addWhitelistedWalletsToCoupon` returned, a wallet is on the list of a coupon exactly if it was so before, or the
-- coupon is the one that was given and the wallet is one of the holders or of the wallets that were given.
pub add_whitelisted_wallets-on_list :
    (c k : ℕ) (w : String) (holders wallets : List String) (s : Desk)
    → (add_whitelisted_wallets c holders wallets s).0 ≡ ok tt
    → on_list k w (add_whitelisted_wallets c holders wallets s).1.wallet_rows
      ≡ (on_list k w s.wallet_rows || ((c == k) && is_given w (holders ++ wallets)))
unfolding add_whitelisted_wallets
add_whitelisted_wallets-on_list c k w holders wallets s =
    let ws = holders ++ wallets in
    if_cases
      (λ (r : Result DeskError (Unit {0}) × Desk).
        r.0 ≡ ok tt
        → on_list k w r.1.wallet_rows ≡ (on_list k w s.wallet_rows || ((c == k) && is_given w ws)))
      (has_coupon c s) _ _
      (λ _.
        store_wallets-on_list c k w ws (insert_wallets c (new_wallets c ws s) s.wallet_rows) s
          (λ rows e. ground (
            arith,
            insert_wallets-on_list c k w (new_wallets c ws s) s.wallet_rows rows e,
            is_given-new c w ws s,
            ap (λ x. on_list x w s.wallet_rows) {x = c} {y = k},
          )))
      (λ _ e. absurd (cc))

count_where-new :
    (c : ℕ) (w : String) (ws : List String) (s : Desk)
    → on_list c w s.wallet_rows ≡ false
    → count_where (λ v. v == w) (new_wallets c ws s) ≡ count_where (λ v. v == w) ws
count_where-new c w [] s h = refl
count_where-new c w (v ∷ ws) s h = ground (
  arith,
  count_where-new c w ws s h,
  eq_iff v w,
  ap (λ x. on_list c x s.wallet_rows) {x = v} {y = w},
)

-- A wallet that is given twice, or is given and is a holder too, and is not on the list of the coupon, makes
-- `addWhitelistedWalletsToCoupon` of a coupon that exists throw, and nothing is added.
pub add_whitelisted_wallets-twice :
    (c : ℕ) (w : String) (holders wallets : List String) (s : Desk)
    → has_coupon c s ≡ true
    → on_list c w s.wallet_rows ≡ false
    → 2 ≤ count_where (λ v. v == w) (holders ++ wallets)
    → add_whitelisted_wallets c holders wallets s ≡ (err unique_violation, s)
unfolding add_whitelisted_wallets
add_whitelisted_wallets-twice c w holders wallets s known absent twice =
    let ws = holders ++ wallets in
    let refused =
      insert_wallets-twice c w (new_wallets c ws s) s.wallet_rows
        (omega (arith, twice, count_where-new c w ws s absent)) in
    rw known (ap (λ o. store_wallets o (new_wallets c ws s) s) refused)
