-- ===== src/Wheel/Vault.antt =====
-- `validateWalletBalance` of src/utils/wheel.ts. Where the token account does not exist the
-- function returns `undefined`, which its caller takes for false.
use d_reader_backend.Base.{
  ℕ, String, Bool, false, not, Option, none, some, leb, ◌==◌, string_eq, if◌then◌else◌, Result, ok,
  err,
}
use d_reader_backend.Wheel.Model.{Outside, Error}

abbrev covers : ℕ → Result Error ℕ → Result Error Bool
covers target (ok balance) = ok (leb target balance)
covers target (err e) = err e

abbrev covers_account : ℕ → Result Error (Option ℕ) → Result Error Bool
covers_account target (ok (some balance)) = ok (leb target balance)
covers_account target (ok none) = ok false
covers_account target (err e) = err e

unfoldable pub validate_wallet_balance : Outside → String → ℕ → String → Result Error Bool
validate_wallet_balance out wallet target_balance spl_token_address =
    let is_sol = spl_token_address == out.sol_address in
    if not is_sol
    then covers target_balance (out.sol_balance wallet)
    else covers_account target_balance (out.token_balance spl_token_address wallet)
