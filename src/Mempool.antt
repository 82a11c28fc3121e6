-- ===== src/Mempool.antt =====
-- The pool of transactions that wait for a block: TxPool of src/tsarchain/mempool/pool.py and its
-- mixins in storage.py and policy.py beside it. The estimate of a transaction's size in bytes and the
-- verdict of `validate_transaction`, which Mempool.Rules works out, are arguments of the pool; the
-- orphan pool is left out.
mod Tests
mod Pool
mod Evict
mod Admit
pub mod Rules
pub mod Index
pub mod Removal
pub mod Joining
pub mod Admission
pub mod Space
unfoldable pub use Pool.*
unfoldable pub use Evict.*
unfoldable pub use Admit.*
