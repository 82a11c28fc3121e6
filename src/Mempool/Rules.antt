-- ===== src/Mempool/Rules.antt =====
-- The verdict on a transaction that wants to wait or to be mined: class TxMempoolValidator of
-- src/tsarchain/mempool/validation.py.
mod Tests
mod Outcome
mod Graffiti
mod Payout
mod Transaction
pub mod Admit
pub mod Funded
pub mod Doubled
unfoldable pub use Outcome.*
unfoldable pub use Graffiti.*
unfoldable pub use Payout.*
unfoldable pub use Transaction.*
unfoldable pub use Admit.*
