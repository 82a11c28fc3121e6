-- ===== src/Lib.antt =====
-- Tsarchain, the Graffiti Protocol's chain: the rules that decide which chain a node keeps, the
-- money that they let exist, and the node's state around them.
--
-- The program and this model of it. A node keeps a chain of blocks and a set of unspent outputs, and
-- talks to its peers. Paths are from the repository's root.
--   Rewards      The block subsidy, src/tsarchain/consensus/rewards.py: scheduled_reward,
--                cumulative_supply_until and get_block_reward.
--   Compact      Compact difficulty bits, bits_to_target to difficulty_to_target of
--                src/tsarchain/utils/helpers.py.
--   Difficulty   The difficulty rules, src/tsarchain/consensus/difficulty.py: the weighted average,
--                the clamp, the emergency adjustment, the median time past, and the work of a chain.
--   Ledger       Transactions and blocks, src/tsarchain/core/tx.py and block.py.
--   Chain        Validation of a whole candidate chain, and the replacement of our chain or of its
--                tip, src/tsarchain/consensus/chain_ops.py. Chain.Validate calls Rewards and
--                Difficulty, Chain.Reorg calls Chain.Validate and Difficulty.Work.
--   Utxo         The store of unspent outputs, src/tsarchain/storage/utxo_logic/database.py and
--                validate.py: memory, disk and the notes of what the disk lacks; and balances.py: the
--                index of outputs by script and the balances.
--   Mempool      The pool of waiting transactions, src/tsarchain/mempool/storage.py and policy.py: the
--                index of spent outputs, sizes, eviction by fee rate, and replacement. Mempool.Rules is the
--                check of one transaction, src/tsarchain/mempool/validation.py, which reads Registry,
--                Utxo, Script and Graffiti.
--   Registry     The registry of graffiti, src/tsarchain/contracts/graffiti_registry.py: posts,
--                comments, payouts and storage proofs, in memory and on disk.
--   Script       Scripts as bytes, class Script and the readers of pushes in
--                src/tsarchain/utils/helpers.py.
--   Graffiti     Fees, shares, challenges, payloads, and the transactions that pay out of a pool,
--                src/tsarchain/contracts/graffiti.py.
--   Validation   The validator of one new block, src/tsarchain/consensus/validation.py, which reads
--                Chain.Native, Difficulty, Rewards, Utxo, Registry, Script and Graffiti.
--   Events       The events of a block as they reach the registry,
--                src/tsarchain/storage/utxo_logic/graff_utxo.py: between Graffiti, Validation.Posts
--                and Registry.
--   Codec        The encoding of transactions and blocks in the store,
--                src/tsarchain/core/tx.py and block.py.
--   Node         A block that goes on the chain, to the store of outputs and through the mempool:
--                add_block of src/tsarchain/consensus/chain_ops.py, with Utxo, Mempool and
--                prune_stale_entries of src/tsarchain/mempool/policy.py.
--   Mining       The miner's blocks, src/tsarchain/consensus/mining.py and
--                src/tsarchain/core/coinbase.py: Mempool.Rules says which transactions are taken,
--                Validation and Node what becomes of the block.
--   RateLimit    The handshake limiter, src/tsarchain/network/node_logic/ratelimit.py.
--   Dandelion    The relay of transactions, src/tsarchain/network/dandelion_pp.py.
--   Config       The constants of src/tsarchain/utils/config.py that the model reads.
--   Base         Names, Booleans, lists, integers and dicts that the parts share.
--
-- How the source is read. A method that changes an object is a function from the old state to the new
-- one with the method's result; a method that raises or returns False to refuse gives `none`, `false`
-- or a reason. Hashes, transaction ids, addresses and node ids are only compared, so they are
-- numbers. Python's ints have no bound, so amounts, targets and work are not cut off; where the source
-- wraps around, as in the version counter of the output store, the remainder is written out. Locked
-- sections are steps of a relation in Dandelion.Interleaving.
--
-- Parameters. Hashing, Merkle roots, the serialisation behind a transaction id, the native code
-- that works out the changes of a block and the key-value store that applies them, the parsing of
-- addresses, the proof of work of a handshake, the size of a serialised transaction, the count of
-- signature operations of a script, the native check of a block's transactions, Python's operations
-- on texts and its reader of JSON, the random choice of a peer, the answers of peers, the clock,
-- the balance of an address for the handlers of events, the native check of a transaction, the
-- scripts of addresses and pools, the writer of JSON, and the search for a nonce, are arguments of
-- the definitions.
--
-- Fuel. The supply loop runs on the height as fuel: each round takes at least one block off the
-- remaining ones. The bit length of a number runs on the number. Eviction from the mempool runs on
-- the length of the heap, from which each round takes an entry. The readers of a script run on its
-- length: each round takes a byte at least. The bytes of a height run on the height: each round
-- divides by 256. The fee of a payout that claims all there is is estimated in two rounds, as in
-- the source.
--
-- Not modelled: signatures and the execution of scripts, which are native code, files and databases,
-- sockets and message formats, the wallet, the archivist and the web programs; also the orphan pool,
-- the genesis block's making, the builders of posts and comments, and what a replaced chain does to
-- the store of outputs and to the mempool. The pool's add_valid_tx takes the verdict on a transaction
-- as an argument, and Mempool.Rules.Admit puts the two together. add_block leaves out the graffiti
-- events of the block, so the registry that the mempool is checked against is the one before it, and
-- the exceptions of the store; and the store leaves out a native call that fails, the struct encoding
-- of an output, and the entries that _load_kv skips.
pub mod Base
pub mod Config
pub mod Ledger
pub mod Rewards
pub mod Compact
pub mod Codec
pub mod Difficulty
pub mod Chain
pub mod Utxo
pub mod Validation
pub mod Script
pub mod Events
pub mod Graffiti
pub mod Mempool
pub mod Mining
pub mod Node
pub mod Registry
pub mod RateLimit
pub mod Dandelion
