-- ===== src/Mint/Balance/Funds.antt =====
-- When `validateBalanceForMint` of src/utils/candy-machine.ts lets a wallet pay.
use d_reader_backend.Base.{◌*◌, Bool, ℕ, ◌+◌, ◌≤◌, ◌≡◌, ◌↔◌, true, false, arith, ok, err}
use d_reader_backend.Mint.Model.{
  compression, legacy, core, TokenStandard, missing_fee, missing_sol, missing_token, MintError,
}
use d_reader_backend.Mint.Balance.{
  TokenStandard, Payment, total_protocol_fee, validate_balance_for_mint,
}

-- what one item costs beside its price
abbrev pub fee_of : TokenStandard → ℕ
fee_of core = 5500000
fee_of legacy = 29000000
fee_of compression = 29000000

-- `n` items at `price` and `fee` each, with the balances in SOL and in the token: a mint that is
-- sponsored costs its price only, and a price that is not in SOL is paid in the token
abbrev pub Pays : (is_sponsored is_sol_payment : Bool) (n price fee sol tokens : ℕ) → Type 0
Pays true true n price fee sol tokens = n * price ≤ sol
Pays true false n price fee sol tokens = n * price ≤ tokens
Pays false true n price fee sol tokens = n * price + n * fee ≤ sol
Pays false false n price fee sol tokens = (n * fee ≤ sol) × (n * price ≤ tokens)

-- the wallet can pay
abbrev pub CanPay : Payment → Type 0
CanPay p =
    Pays p.is_sponsored p.is_sol_payment p.number_of_items p.mint_price (fee_of p.token_standard)
      p.sol_balance p.token_balance

CanPay-of_ok : (p : Payment) → validate_balance_for_mint p ≡ ok tt → CanPay p
unfolding validate_balance_for_mint
CanPay-of_ok p h = ground arith

ok-of_CanPay : (p : Payment) → CanPay p → validate_balance_for_mint p ≡ ok tt
unfolding validate_balance_for_mint
ok-of_CanPay p h = ground (arith)

-- the balance check passes exactly if the wallet can pay the price and the fees
pub validate_balance_for_mint_iff : (p : Payment) → (validate_balance_for_mint p ≡ ok tt) ↔ CanPay p
validate_balance_for_mint_iff p = (CanPay-of_ok p, ok-of_CanPay p)

abbrev add_sol : ℕ → Payment → Payment
add_sol n p = record p { sol_balance = p.sol_balance + n }

abbrev add_tokens : ℕ → Payment → Payment
add_tokens n p = record p { token_balance = p.token_balance + n }

abbrev PassesInSol : Bool → ℕ → Payment → Type 0
PassesInSol true n p = validate_balance_for_mint (add_sol n p) ≡ ok tt
PassesInSol false n p = Unit

-- What the wallet is left with if it gets what the check says is missing: the fees at least, and
-- with SOL to pay in, or with the missing tokens, the check passes.
abbrev pub Suffices : Payment → MintError → Type 0
Suffices p (missing_fee n) =
    (total_protocol_fee p ≤ p.sol_balance + n) × PassesInSol p.is_sol_payment n p
Suffices p (missing_sol n) = validate_balance_for_mint (add_sol n p) ≡ ok tt
Suffices p (missing_token n) = validate_balance_for_mint (add_tokens n p) ≡ ok tt
Suffices p _ = ⊥

-- The check fails only for missing funds, and what it names as missing is enough: the missing SOL
-- covers the fees, and the price too where the price is in SOL; the missing tokens let it pass.
pub missing_funds_suffice :
    (p : Payment) (e : MintError) → validate_balance_for_mint p ≡ err e → Suffices p e
unfolding validate_balance_for_mint
missing_funds_suffice p e h = ground arith
