-- ===== src/Events.antt =====
-- The graffiti events of a block, as the output store records them in the registry: class
-- UTXOGraffitiMixin of src/tsarchain/storage/utxo_logic/graff_utxo.py.
mod Tests
mod Record
pub mod Raising
pub mod Overpaid
unfoldable pub use Record.*
