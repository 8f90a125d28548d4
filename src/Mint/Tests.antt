-- ===== src/Mint/Tests.antt =====
-- Minting of src/candy-machine/candy-machine.service.ts and src/utils/candy-machine.ts, and its
-- theorems at concrete inputs.
use d_reader_backend.Base.{
  ◌+◌, ℕ, ◌≤◌, ◌≡◌, ◌≢◌, ◌↔◌, refl, true, false, none, some, List, [], ◌∷◌, String, ok, err, length,
}
use d_reader_backend.Mint.Model.{
  Coupon, MintReceipt, MintStore, public_user, registered_user, core, confirmed, processing,
  missing_sol,
}
use d_reader_backend.Mint.Balance.{Payment, validate_balance_for_mint}
use d_reader_backend.Mint.Checks.{
  MintRequest, prepare_mint_transaction, validate_mint_limit, validate_mint_eligibility,
  items_minted, validate_coupon_dates, validate_token_standard, count_user_items_minted,
}
use d_reader_backend.Mint.Checks.Allowed.{MayMint, prepare_mint_transaction_iff}
use d_reader_backend.Mint.Checks.Limit.{
  with_receipts, add_receipts, validate_mint_limit-pending, mint_within_limit,
}
use d_reader_backend.Mint.Stats.{get_candy_machine_coupon_stats}
use d_reader_backend.Mint.Stats.Agreement.{stats-validate_iff}
use d_reader_backend.Mint.Items.{
  Item, InsertItems, ItemMetadata, common, one_rarity_share, unused_unsigned,
  get_rarity_share_table, batch_insert_core_items,
}
use d_reader_backend.Mint.Items.Placement.{flatten, placed, in_order, batch_insert-in_order}

abbrev payment : Payment
payment = record {
  mint_price = 100000000;
  sol_balance = 300000000;
  token_balance = 0;
  number_of_items = 2;
  is_sol_payment = true;
  is_sponsored = false;
  token_standard = core;
}

abbrev request : MintRequest
request = record {
  coupon_id = 1;
  coupon_type = registered_user;
  number_of_redemptions = some 3;
  starts_at = some 10;
  expires_at = none;
  payment = payment;
  wallet = "w";
  user_id = some 7;
}

abbrev receipt_of : MintReceipt
receipt_of = record {
  user_id = some 7;
  buyer_address = "w";
  coupon_id = 1;
  number_of_items = 1;
  status = confirmed;
}

abbrev store : MintStore
store = record { receipts = receipt_of ∷ []; wallets = []; users = [] }

abbrev coupon_with : ℕ → Coupon
coupon_with limit = record {
  id = 1;
  supply = 10;
  number_of_redemptions = some limit;
  starts_at = none;
  expires_at = none;
  type = registered_user;
  is_sponsored = false;
}

mints : prepare_mint_transaction request 10 store ≡ ok tt
unfolding prepare_mint_transaction validate_coupon_dates validate_token_standard
    validate_mint_eligibility validate_balance_for_mint validate_mint_limit items_minted
    count_user_items_minted
mints = refl

prepare_mint_transaction_iff_example :
    (prepare_mint_transaction request 10 store ≡ ok tt) ↔ MayMint request 10 store
prepare_mint_transaction_iff_example = prepare_mint_transaction_iff request 10 store

abbrev poor : Payment
poor = record payment { sol_balance = 100000000 }

cannot_pay : validate_balance_for_mint poor ≡ err (missing_sol 111000000)
unfolding validate_balance_for_mint
cannot_pay = refl

within_limit : validate_mint_limit (some 3) 2 registered_user 1 "w" (some 7) store ≡ ok tt
unfolding validate_mint_limit items_minted count_user_items_minted
within_limit = refl

abbrev minted_two : MintReceipt
minted_two = record receipt_of { number_of_items = 2 }

-- a mint of the same user that is confirmed in between, and one of another user
abbrev between : List MintReceipt
between = record minted_two { number_of_items = 1 } ∷ record minted_two { user_id = some 8 } ∷ []

mint_within_limit_example :
    items_minted registered_user 1 "w" (some 7) (add_receipts (minted_two ∷ between) store)
    ≤ 3 + items_minted registered_user 1 "w" (some 7) (with_receipts between store)
mint_within_limit_example =
    mint_within_limit 3 2 registered_user 1 "w" (some 7) minted_two between store within_limit
      (refl, refl, refl, refl, refl)

abbrev under_way : MintReceipt
under_way = record receipt_of { status = processing; number_of_items = 100 }

validate_mint_limit-pending_example :
    validate_mint_limit
      (some 3)
      2
      registered_user
      1
      "w"
      (some 7)
      (add_receipts (under_way ∷ []) store)
    ≡ validate_mint_limit (some 3) 2 registered_user 1 "w" (some 7) store
validate_mint_limit-pending_example =
    validate_mint_limit-pending (some 3) 2 registered_user 1 "w" (some 7) (under_way ∷ []) store
      (refl, tt)

abbrev some_wallet : String
some_wallet = "w"

w_ne_empty : some_wallet ≢ ""
w_ne_empty e = cc

two_ne_zero : (coupon_with 2).number_of_redemptions ≢ some 0
two_ne_zero e = cc

stats-validate_iff_example :
    ((get_candy_machine_coupon_stats (coupon_with 2) (some "w") (some 7) store).is_eligible ≡ true)
    ↔ ((validate_mint_eligibility registered_user (some 7) "w" 1 store ≡ ok tt)
        × (validate_mint_limit (some 2) 1 registered_user 1 "w" (some 7) store ≡ ok tt))
stats-validate_iff_example =
    stats-validate_iff (coupon_with 2) "w" (some 7) store w_ne_empty two_ne_zero

not_public : registered_user ≢ public_user
not_public e = cc

may_use : validate_mint_eligibility registered_user (some 7) "w" 1 store ≡ ok tt
unfolding validate_mint_eligibility
may_use = refl

-- chunks of one item each
abbrev ones : List Item → ℕ → List (List Item)
ones [] n = []
ones (item ∷ items) n = (item ∷ []) ∷ ones items n

ones_keep : (xs : List Item) (n : ℕ) → flatten (ones xs n) ≡ xs
ones_keep [] n = refl
ones_keep (x ∷ xs) n = rw (ones_keep xs n)

abbrev metadata : ItemMetadata
metadata = record { uri = "u"; is_used = false; is_signed = false; rarity = common }

one_table :
    get_rarity_share_table (length (unused_unsigned (metadata ∷ []))) ≡ some one_rarity_share
unfolding get_rarity_share_table unused_unsigned
one_table = refl

one_unused : unused_unsigned (metadata ∷ []) ≡ metadata ∷ []
unfolding unused_unsigned
one_unused = refl

batch_insert-in_order_example :
    (inserted : List InsertItems) × (batch_insert_core_items ones 10 (metadata ∷ []) 3
      ≡ some inserted)
    × (placed inserted ≡ in_order 10 0 3)
batch_insert-in_order_example =
    batch_insert-in_order ones 10 3 (metadata ∷ []) one_rarity_share ones_keep one_table
      (rw one_unused ((metadata, refl), tt))
