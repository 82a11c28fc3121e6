-- ===== src/Utxo.antt =====
-- The node's set of unspent outputs: the UTXODB of src/tsarchain/storage/utxo.py and its mixins in
-- src/tsarchain/storage/utxo_logic (database.py, validate.py, balances.py). The set lives in memory
-- and is written to a key-value store, either whole or by the keys that were touched.
mod Tests
pub mod Store
mod Addresses
pub mod Balances
mod Update
pub mod Disk
pub mod Sync
pub mod Blocks
unfoldable pub use Store.*
unfoldable pub use Update.*
