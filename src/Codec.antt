-- ===== src/Codec.antt =====
-- The encoding of transactions and blocks in the store: `to_storage_bytes` and `from_storage_bytes` of
-- src/tsarchain/core/tx.py and src/tsarchain/core/block.py. Ids and cached hashes are not stored; they
-- are computed again by the native core, and are left out.
mod Tests
mod Pack
mod Stored
pub mod Packed
pub mod Restored
pub mod Blocks
pub mod Whole
unfoldable pub use Pack.*
unfoldable pub use Stored.*
