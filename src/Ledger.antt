-- ===== src/Ledger.antt =====
-- The data of the ledger: Tx, TxIn and TxOut of src/tsarchain/core/tx.py and Block of
-- src/tsarchain/core/block.py, with the fields that the modelled code reads.
-- Transaction ids, hashes and Merkle roots are only compared and ordered, so they are numbers; a
-- script is its list of bytes. TxOut's constructor refuses negative amounts, and heights,
-- timestamps and bits are unsigned in the header's encoding.
mod Value
unfoldable pub use Value.*
