-- ===== src/Node.antt =====
-- The node: a block that has passed the checks goes on the chain, to the store of unspent outputs and
-- through the mempool, of src/tsarchain/consensus/chain_ops.py and src/tsarchain/mempool/policy.py.
pub mod Tests
mod Prune
mod Append
pub mod Extends
pub mod Pruned
unfoldable pub use Prune.*
unfoldable pub use Append.*
