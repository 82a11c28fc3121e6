-- ===== src/Script.antt =====
-- Scripts as bytes: class Script and the readers of pushes in src/tsarchain/utils/helpers.py, and the
-- readers of an OP_RETURN payload in src/tsarchain/storage/utxo_logic/graff_utxo.py and
-- src/tsarchain/contracts/graffiti.py. A byte is a number below 256, and an index into a script is
-- what is left of it from there.
mod Tests
mod Commands
mod Reader
pub mod RoundTrip
pub mod Payload
unfoldable pub use Commands.*
unfoldable pub use Reader.*
