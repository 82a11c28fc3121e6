-- ===== src/Mining.antt =====
-- The miner's blocks: class MiningManager of src/tsarchain/consensus/mining.py and CoinbaseTx of
-- src/tsarchain/core/coinbase.py. The search for a nonce, which runs in other processes, is a
-- parameter.
mod Tests
mod PostTests
mod WaitingTests
mod MinedTests
mod Posts
mod Template
mod Miner
pub mod Paid
pub mod Apart
pub mod Agreed
pub mod TwoPosts
pub mod Mined
unfoldable pub use Posts.*
unfoldable pub use Template.*
unfoldable pub use Miner.*
