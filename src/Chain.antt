-- ===== src/Chain.antt =====
-- The collectible comics that src/webhooks/helius/helius.service.ts indexes, with their metadata, and
-- the receipts of their mint. What the chain and the network give is an argument, which may be an
-- exception.
pub mod Model
pub mod Metadata
pub mod Indexing
pub mod Handlers
pub mod Linked
mod Tests
use d_reader_backend.Base.{ℕ}
