-- ===== src/Lib.antt =====
-- Kabu is a framework for arbitrage on Ethereum and its like. It keeps the recent blocks with
-- their forks and states, the pending transactions, the nonces and balances of its accounts, and
-- the market: tokens, pools, and the closed swap paths through them. A block or a transaction
-- that changes pools starts a search through the paths of these pools, and what pays is encoded
-- into calls and sent. This library models the data that these parts share and the operations on
-- it, all in the crates crates/types/entities, crates/types/blockchain, crates/types/market,
-- crates/types/swap, crates/execution/multicaller and crates/evm/db.
--
-- - Base, with its children: tests on numbers, lists measured by native numbers, and hash maps as
--   association lists (lookup, insert, erase, retain, alter), with the laws that all other
--   modules use.
-- - Types: the types of a network (crates/types/blockchain/src/kabu_data_types.rs) as a record,
--   and the header fields that the code reads.
-- - BlockHistory: the store of crates/types/entities/src/block_history/block_history_impl.rs, one
--   function for each method, returning the new store beside the result. Entries, Consistent and
--   Histories carry the invariant of the tables, Headers, Blocks and Retention what one header or
--   block does.
-- - BlockHistory.Manager: BlockHistoryManager of the same file. States is about get_parent_state,
--   Rewind, Ends and Head about set_chain_head.
-- - Mempool: crates/types/blockchain/src/mempool.rs with mempool_tx.rs and accountnoncetx.rs.
-- - Accounts: crates/types/entities/src/account_nonce_balance.rs.
-- - LatestBlock: crates/types/entities/src/latest_block.rs.
-- - Market: tokens, pools and single swap paths (crates/types/market/src/token.rs, pool.rs,
--   swap_direction.rs, swap_path.rs). Market.Paths is SwapPaths, with the tables in Index and the
--   disabling of pools in Disable.
-- - Market.Store: market.rs, with the tables of trades in Trades and those of symbols and cells
--   in Lookups. Market.Builder: the search of swap_path_builder.rs; Routes is about one turn of
--   its loops, Found and Search about what all of it gives, Complete about what it finds.
-- - Swap: lines of crates/types/swap/src/swap_line.rs, with their calculations; Split is about
--   parts of a line, Optimize the search for the best amount. Swap.Step: steps and merges
--   (swap_step.rs) and the split of a line into two steps. Swap.Step.Calculate and
--   Swap.Step.Optimize: the calculations, profits and searches of steps. Swap.Whole: a whole swap
--   (swap.rs). Swap.Tips: the percentage of tips.rs, and in Value the tips of a whole swap.
-- - Multicaller: calls and their packing (crates/types/blockchain/src/opcodes.rs,
--   crates/execution/multicaller/src/opcodes_encoder.rs); Bits and Bytes are the arithmetic of
--   fields and bytes, Packed the number that a call starts with, Unpack a reader of packed calls.
--   Multicaller.Stack: how a call takes its amount (opcodes_helpers.rs). Multicaller.Lines, Steps
--   and Encode: the calls of a line, of two steps and of a whole swap (swapline_encoder.rs,
--   swapstep_encoder.rs, multicaller_encoder.rs, swap_encoder.rs), with the encoders of the
--   protocols as an interface, and Multicaller.Protocols: those of Uniswap v2 and v3 and of Curve
--   (pool_opcodes_encoder).
-- - Db: KabuDB, the database of a simulation (crates/evm/db/src/kabu_db.rs, kabu_db_helper.rs,
--   and FastDbAccount of fast_cache_db.rs). A database is a list of layers, its own first. Reads
--   is about the reads that cache, Updates about what writes, Merge about the merges into the
--   layer below, Slots and Contracts about lemmas that they share.
--
-- The manager works on the store through its methods, and asks a node for blocks that are
-- missing. The search reads the market, and its paths are added to the market's SwapPaths, from
-- which they are read by pool.
--
-- Hashes, addresses and identifiers are numbers, since they are only compared. 64-bit and 256-bit
-- sums keep their wrap or their check. The order of a hash map, which Rust leaves open, is that
-- of insertion. The node of the block history, the application of a state update, the clock, the
-- hash of a path, the answers of a pool and the encoding by the ABI are parameters.
--
-- Two loops run on fuel, the one of get_parent_state and the one of set_chain_head. Both go from
-- a block to its parent, so fuel above the number of the first block is enough. Where the code
-- panics, the result says so. The searches for the best amounts have their thirty turns as fuel,
-- as the code counts them.
--
-- Not modelled: the searches of four hops, which nothing calls; floats; the calls of staking
-- pools, which no encoder uses; the strategies; and everything that is input and output, the
-- actors, nodes, the other databases and the EVM.
pub mod Base
pub mod Types
pub mod Accounts
pub mod BlockHistory
pub mod Db
pub mod LatestBlock
pub mod Market
pub mod Mempool
pub mod Multicaller
pub mod Swap
