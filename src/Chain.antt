-- ===== src/Chain.antt =====
-- Validation of a whole candidate chain: `_validate_complete_chain` and the methods that it calls, of
-- class ChainOperations in src/tsarchain/consensus/chain_ops.py.
-- The proof-of-work hash, the Merkle root and the serialisation behind a transaction id are native
-- code: they are the fields of Native, and so are the clock and the optional genesis lock.
mod Tests
pub mod Native
mod Spend
mod Validate
pub mod Supply
pub mod Inputs
pub mod Links
pub mod Reorg
pub use Native.*
pub use Spend.*
pub use Validate.*
