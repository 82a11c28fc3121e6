-- ===== src/Graffiti.antt =====
-- Graffiti: src/tsarchain/contracts/graffiti.py, with the fees and shares, the storage challenges,
-- and the payloads of posts, comments and payouts.
mod Tests
mod Fees
mod Payload
mod Parse
mod Payer
pub mod Shares
pub mod Balanced
pub mod Payouts
pub mod Selection
unfoldable pub use Fees.*
unfoldable pub use Parse.*
unfoldable pub use Payload.*
unfoldable pub use Payer.*
