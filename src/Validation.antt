-- ===== src/Validation.antt =====
-- The checks of a block that a node receives or mines: class BlockValidator of
-- src/tsarchain/consensus/validation.py.
pub mod Tests
pub mod PayoutTests
mod Reason
mod Context
mod Guardrails
mod Posts
mod Payouts
mod Amounts
mod Block
pub mod Accepted
pub mod Paid
pub mod Snapshot
pub mod Payable
pub mod Passing
pub mod Unproved
unfoldable pub use Reason.*
unfoldable pub use Context.*
unfoldable pub use Guardrails.*
unfoldable pub use Posts.*
unfoldable pub use Payouts.*
unfoldable pub use Amounts.*
unfoldable pub use Block.*
