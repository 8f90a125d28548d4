-- ===== src/Mint.antt =====
-- Minting from a candy machine: src/candy-machine/candy-machine.service.ts,
-- src/utils/candy-machine.ts and the coupon helpers of src/utils/helpers.ts.
pub mod Model
pub mod Balance
pub mod Checks
pub mod Stats
pub mod Items
mod Tests
