-- ===== src/Mint/Balance.antt =====
-- `validateBalanceForMint` of src/utils/candy-machine.ts. The message of an error names the missing
-- funds in SOL or in the token, rounded to three digits; the error here holds them as they are.
-- The two fees are constants of src/constants.ts.
pub mod Funds
use d_reader_backend.Base.{
  ℕ, ◌+◌, ◌-◌, ◌*◌, Bool, true, false, ◌&&◌, not, ltb, if◌then◌else◌, Check, ok, err,
}
use d_reader_backend.Mint.Model.{
  TokenStandard, core, legacy, compression, MintError, missing_fee, missing_sol, missing_token,
}

-- what a wallet holds and is to pay
pub record Payment : Type 0 where
  pub mint_price : ℕ
  pub sol_balance : ℕ
  pub token_balance : ℕ
  pub number_of_items : ℕ
  pub is_sol_payment : Bool
  pub is_sponsored : Bool
  pub token_standard : TokenStandard

abbrev pub min_mint_protocol_fee : ℕ
min_mint_protocol_fee = 29000000

abbrev pub min_core_mint_protocol_fee : ℕ
min_core_mint_protocol_fee = 5500000

abbrev pub protocol_fee : TokenStandard → ℕ
protocol_fee core = min_core_mint_protocol_fee
protocol_fee legacy = min_mint_protocol_fee
protocol_fee compression = min_mint_protocol_fee

abbrev pub total_mint_price : Payment → ℕ
total_mint_price p = p.number_of_items * p.mint_price

-- a sponsored mint has its fees paid
abbrev pub total_protocol_fee : Payment → ℕ
total_protocol_fee p =
    if p.is_sponsored then 0 else p.number_of_items * protocol_fee p.token_standard

-- `missingSolFunds`, read only where it is not negative
abbrev pub missing_sol_funds : Payment → ℕ
missing_sol_funds p =
    if p.is_sol_payment
    then total_mint_price p + total_protocol_fee p - p.sol_balance
    else total_protocol_fee p - p.sol_balance

unfoldable pub validate_balance_for_mint : Payment → Check MintError
validate_balance_for_mint p =
    if ltb p.sol_balance (total_protocol_fee p)
    then err (missing_fee (missing_sol_funds p))
    else if p.is_sol_payment && ltb p.sol_balance (total_mint_price p + total_protocol_fee p)
    then err (missing_sol (missing_sol_funds p))
    else if not p.is_sol_payment && ltb p.token_balance (total_mint_price p)
    then err (missing_token (total_mint_price p - p.token_balance))
    else ok tt
