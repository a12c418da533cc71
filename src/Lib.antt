-- ===== src/Lib.antt =====
-- The Zcash mining pool, modelled and verified: the money in its database, the distribution of
-- rewards, the validation of shares, and the path of a won block.
--
-- The parts and where they stand. The paths are those of the repository.
--   Ledger   crates/pool-db/src/queries.rs and crates/pool-db/migrations. `Ledger.Tables` has the
--            tables as records in a `Db`; an operation is a function from a `Db` to a result and a
--            `Db`, and `transact` rolls an error back. `Ledger.Payouts` (reserve_payout,
--            confirm_payout, refund_payout, create_payout, void_reorged_payout), `Ledger.Credits`
--            (distribute_block_credits, reverse_block_credits_precise, orphan_block and the rest),
--            `Ledger.Costs` (record_tx_cost, take_costs_for_block), `Ledger.Blocks` (record_block,
--            the block submissions, the sums over the tables). `Ledger.Cycle` has the interleavings of
--            these operations as a step relation.
--   Sql      SELECT, UPDATE and DELETE on lists of rows, with the lemmas that the ledger uses.
--   Rewards  crates/rewards/src/pplns.rs: PplnsCalculator::distribute.
--   Share    crates/pool-core/src/share.rs and block.rs: `Share.Session` is SessionDifficulty,
--            `Share.Validate` is validate_share, `Share.Handler` is the loop of run with the
--            counters of `Share.Counters`, `Share.Blocks` is the path of a won block and startup_block_sweep; `Share.Target` and
--            `Share.Reward` are the comparison with a target and the reward schedule.
--   Vardiff  crates/pool-core/src/difficulty.rs: VardiffTracker.
--   Wire     the compactSize integers of share.rs and crates/pool-core/src/coinbase.rs.
--   Coinbase the rest of coinbase.rs: the tag in the scriptSig of a coinbase transaction, the digests and
--            the commitments that follow from it.
--   Stratum  crates/stratum/src: the errors of messages.rs; `Stratum.Codec` of codec.rs;
--            `Stratum.Nonce` the allocator of session.rs; `Stratum.Request` the parser of
--            messages.rs; `Stratum.Server` handle_request and handle_connection of server.rs with
--            the MinerSession of session.rs; `Stratum.Connections` the limit in listen.
--   Payout   crates/pool-dashboard/src: `Payout.Round` is process_payouts of main.rs, as the sequence of
--            its effects on the tables and the wallet, with `Payout.Selection` (who is paid what)
--            and `Payout.Address` (is_valid_zcash_address); `Payout.Attempts` has the
--            queries of payout_attempts, `Payout.Maturity` check_block_maturity, `Payout.Rpc` the errors of
--            crates/node-rpc/src/client.rs and wait_for_operation. `Payout.Reconciler` is
--            reconciler.rs: reconcile_reserved_payouts, in `Stale` resolve_stale_attempts, in
--            `Phantoms` check_phantom_payouts and check_invariant, in `Outputs` check_coinbase_outputs. `Payout.Crash` puts a round
--            that crashes before a sweep.
--   Lag      crates/pool-core/src/lag.rs: the window of samples.
--   Text     texts as lists of characters.
--   Bytes    byte strings and the numbers that they spell. `Prelude` has what all files share.
--   LedgerTests, ShareTests, CoreTests, PayoutTests and ServerTests apply the theorems to concrete states.
--
-- How they interact: `Share.Handler` validates shares with `Share.Validate` on a `Share.Session`,
-- whose tracker is of `Vardiff`; a share that is a block goes through `Share.Blocks`, which writes
-- to the `Db` of `Ledger`; `Rewards` takes costs and writes credits in the same `Db`, which payouts
-- then reserve, confirm or refund. `Payout.Round` and `Payout.Reconciler` drive those operations; where the
-- process dies in a round, the tables it leaves are the ones that the reconciler sweeps. The events of
-- `Stratum.Server` are what `Share.Handler` works off.
--
-- Choices. f64 is the parameter `Float`, and a theorem names what it needs of it; hashes, the
-- Equihash verifier, hex and the node's answers are parameters too. An i64 amount is an integer
-- without a bound: the money of the chain is far below 2^63. A usize is a 64-bit number. Of the
-- foreign keys, those of block_credits are checked; what else the database may refuse is a
-- parameter. Times are numbers, in milliseconds for an Instant and in seconds for the database.
-- Maps are association lists. Loops run over a list or count down, and three count rounds: the
-- wait for the wallet polls every 5 seconds for 120 seconds, so it has 25 rounds; the
-- authorisation root halves a level in each round and has a round for each leaf; the next power of
-- two of n needs at most n doublings.
--
-- Not modelled: the job manager, the shielding of the payout daemon and its health record, the
-- reconciler's alerts on clawbacks, coinbases of version 6 (the zebra-chain crate rebuilds those),
-- the transport, pings and timeouts of the stratum server, the percentiles of the lag, the calls
-- of the node's client over HTTP, the API and its pages, the start-up of the server, the test
-- miner; of share.rs the worker cache, block luck, the heartbeat and the snapshots for the
-- dashboard; of the database the tables that hold no money.
mod Prelude
mod LedgerTests
mod ShareTests
mod PayoutTests
mod ServerTests
mod CoreTests
pub mod Sql
pub mod Bytes
pub mod Text
pub mod Lag
pub mod Ledger
pub mod Payout
pub mod Float
pub mod Rewards
pub mod Share
pub mod Stratum
pub mod Vardiff
pub mod Wire
pub mod Coinbase
