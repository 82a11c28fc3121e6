-- ===== src/Registry.antt =====
-- The registry of graffiti: class GraffitiRegistry of src/tsarchain/contracts/graffiti_registry.py,
-- with the posts, comments, payouts and storage proofs that a node knows, in memory and on disk.
-- Art ids, transaction ids, addresses and texts are only compared, so they are numbers, 0 being the
-- empty string. The binary encoding of an entry is left out: the disk holds entries under their keys.
mod Tests
mod Data
mod Record
mod Read
pub mod Replay
pub mod Written
unfoldable pub use Data.*
unfoldable pub use Record.*
unfoldable pub use Read.*
