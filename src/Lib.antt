-- ===== src/Lib.antt =====
-- The proposer of OP Succinct (proposer/op/proposer): it cuts the finalized L2 chain into span proofs,
-- has an external server prove them, aggregates the proven run behind the last output on L1 into one
-- AGG proof, and submits that.
--
-- Parts and their files:
--   * Request, World: the rows of the table `proof_requests` (db/ent/schema/proofrequest.go), the
--     messages of the server (rpc_types.go), and what the proposer runs in. `World` is what the program
--     changes: the table, the transactions sent, the requests handed to goroutines, the driver's flags.
--     `Env` answers what leaves the program, by the number of the call: contracts, rollup node, L1 node,
--     transaction manager, HTTP server, JSON and ABI coding, and whether a database statement fails. A
--     query without ORDER BY hands its rows over in the order `Env.scan`; that it returns the selected
--     rows, each as often as it stands there, is the law `ScansRows`.
--   * Db: the operations of `ProofDB` (db/db.go), named as there. Table is what an ent statement does to
--     the rows; Open opens and closes the database; Chain is the run of completed spans; Claims, Ids,
--     Reads, Fulfil and Tracked carry the invariants, History says how a row may change.
--   * Ent: the generated client below Db (db/ent), down to columns that may be NULL: Mutation what a
--     builder collects, Dynamic its accessors by name, Create and Update the checks and the statements
--     (Insert and Write what they store), Row the reading of a row, Where and Select the predicates of
--     db.go, Query the calls that end a query. What a statement does to columns, and how SQL tests
--     them, are parameters.
--   * Range: the spans of range.go, `SplitRangeBasic` and `SplitRangeBasedOnSafeHeads`, and stage 1.
--   * Tx: the transactions of driver.go.
--   * Prove: the handlers of prove.go (retry, the stages 2 to 5, the goroutine's body `run_request`);
--     Prove.Http its client of the server.
--   * Driver: metrics, output checks, the tick of the loop (`poll`), start and stop (driver.go). System
--     runs the stages of ticks, the goroutines of RequestQueuedProofs, starts and stops as steps in any
--     order; Tick is the order within a tick, Crash a process that dies within a step and the one after
--     it; Submit is about the last stage, Lifecycle about start and stop.
--   * Batches: the block ranges of span batches and the L1 search boundaries (utils/utils.go); Fetch
--     puts them together, from the config of the chain and the frames on L1.
--   * Rollup: the conversion of the rollup config (utils/utils.go): Text the texts, Convert the objects.
--   * Service: the check of the flags (config.go), the initialisation of the service and Stop
--     (service.go), as changes of which resources it holds and on which Stop or Close was called; Life
--     goes from the command line (flags, l2_output_submitter.go) to the service.
--   * Prelude: shared names, list lemmas, the type `Exec` of calls that write a state and may fail, and
--     `Ensures`, what such a call leaves behind on return and on error.
--   * Tests: the theorems at a concrete table and concrete services.
--
-- A stage calls the operations of Db in the order of the source, every error return included; what was
-- written before an error stays written, but for a transaction, which restores the rows. Sums and
-- differences of uint64 wrap around (`% u64`).
--
-- Fuel: the loops of Range run on fuel, and `none` says that it ran out; `split_range_basic` gives
-- `end + 1` and `split_at_heads` the block it stops at plus 1, which is enough as soon as the span size
-- is above 0 and nothing overflows. The retries of `ValidateConfig` count down from 5. The wait for an
-- L1 head counts the ticks until the channel `done` is closed, a parameter.
--
-- Not modelled: the default values of flags, flags that are texts only handed on, the commands (cmd),
-- the batches in a channel's frames (processFrames, a copy of op-node's), of the ent client its hooks,
-- bulk and delete builders and the migration, the generated bindings, and what is not Go.
-- `poll` runs without a goroutine's writes in between; `Step` interleaves them by whole stages:
-- a stage, the mark of a goroutine, and its request with what follows the answer are one step each, so
-- the database calls inside one step are not interleaved. The loop itself is no definition: what it runs
-- are the stages of its ticks, and the wait for the node's sync (WaitNodeSync) is left out. A crash is a
-- step whose calls from one on reach neither the database nor L1; the process after it runs InitDB,
-- which removes the table unless USE_CACHED_DB is set, as it is not by default. An error of the
-- transaction manager may stand for a transaction that is out (`Sending`). Logging and Prometheus
-- counters are left out.
pub mod Prelude
pub mod Request
pub mod World
pub mod Db
pub mod Tx
pub mod Range
pub mod Prove
pub mod Driver
pub mod Batches
pub mod Rollup
pub mod Service
pub mod Ent
pub mod Tests
