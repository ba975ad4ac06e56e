-- ===== src/Lib.antt =====
-- A model of the AZCOIN Stratum pool, a mining pool server, with the theorems that make it correct.
--
-- A miner's session sends shares to the pool. The pool looks a share up in its registry of active
-- jobs, checks it against the session's context, rebuilds the block header that the share stands
-- for, and compares its double SHA-256 with the target of the job and of the pool. Every result is
-- kept in a buffer of recent shares. A share that meets the job's target becomes a raw block, which
-- the pool submits to its node.
--
-- PoolCore, the crate crates/pool_core:
--   PoolCore.Types      src/{job,share,worker,stats,block}.rs: records and enumerations as they are.
--   PoolCore.Worker     src/worker.rs and InMemoryWorkerRegistry of src/services.rs.
--   PoolCore.Registry   ActiveJobRegistry of src/services.rs. A method holds the lock for its whole
--                       body and is one function from state to state. Registry.Refinement states
--                       the registry as the list of its jobs, Registry.Laws what a caller sees,
--                       Registry.Eviction the eviction loop as a relation (Prelude.While).
--   PoolCore.Buffer     src/share_buffer.rs.
--   PoolCore.Stats      InMemoryStatsSnapshot of src/services.rs: atomic counters modulo 2 ^ 64.
--   PoolCore.Processor  JobAwareShareProcessor of src/services.rs; the calls of the share sink are
--                       kept as a list in the state.
--   PoolCore.Services   the job sources, the stub processor and PoolServices of src/services.rs.
-- Coin, the crate crates/coin_azcoin:
--   Coin.Target, Coin.Header, Coin.ShareValidator
--                       src/share_validator.rs: targets, the parts of the header, the decision.
--   Coin.Coinbase       src/coinbase_builder.rs; PoolError is that of crates/common/src/error.rs.
--                       Coinbase.NumberLoop is the loop of a script number as a relation.
--   Coin.Template       src/template_mapper.rs, with the template types of src/daemon.rs.
--                       Template.Content reads the fields of a template apart from the mapper.
--   Coin.RawBlock       src/raw_block_builder.rs.
--   Coin.Candidate      src/candidate_submit.rs; the submitter is a parameter with a state, so that
--                       the theorems can say whether it was called.
--   Coin.Http           what the clients ask of the crates reqwest and serde_json.
--   Coin.Daemon         the client of src/daemon.rs and the submitter of src/block_submit.rs.
--   Coin.NodeApi        src/node_api.rs.
--   Coin.ApiTemplate    src/api_template_mapper.rs.
--   Coin.JobSource      src/job_source.rs.
-- Sv1, the crate crates/protocol_sv1:
--   Sv1.Messages        src/messages.rs, and the negotiation of version rolling of src/session.rs.
--   Sv1.Mapper          src/domain_mapper.rs; JSON values are the interface Sv1.Messages.Json.
--   Sv1.Session         src/session_state.rs and dispatch_request of src/server.rs; the handler is a
--                       parameter with a state, a response is named by its builder.
--                       Session.Unwired is the handler `()` of src/server.rs.
--   Sv1.Server          handle_sv1_session and run_listener_inner of src/server.rs: one turn of
--                       `select!` is one function, and Server.Reach is the relation of the server's
--                       steps. An event says what was read and which writes succeed. on_submit may
--                       panic: its answer is then `none`, and the session's task ends as it stands,
--                       without on_disconnect.
--   Sv1.Notify          src/notify.rs and the builders of src/session.rs: the messages as JSON.
-- App, the crate crates/azcoin-pool:
--   App.Poller          the job poller of src/main.rs, tick by tick.
--   App.Handler         src/sv1_handler.rs. The job source and the submitter share one state, the
--                       node's; where a submission ends, which the code logs, is an outcome.
--   App.Composition     src/composition.rs.
--   App.System          src/main.rs: the services, the submitter, the handler, the poller and the
--                       sessions over one pool, as a step relation. A Wiring is what main puts
--                       together, an Outside what it takes from outside the repository. A call of
--                       the handler is one step; a broadcast reaches a session only when the poller
--                       has sent it.
--                       System.Blocks and System.History extend the node's state by a list of the
--                       blocks that it was given, and of the jobs that it answered.
--   App.Api             crates/api_server/src/routes.rs.
-- Sv2, the crate crates/sv2_scaffold:
--   Sv2.Aggregation     src/aggregation.rs.
--   Sv2.Template        src/template_adapter.rs and src/job_bridge.rs.
--   Sv2.Flow            src/pool_flow.rs and src/share_flow_check.rs.
--   Sv2.Errors          the texts of the errors of these files.
-- Common, the crate crates/common:
--   Common.Sections, Common.Config
--                       src/config.rs; its error type is in Coin.Coinbase.
-- Prelude holds what these share: tests, lists and results, words and bits, texts and numerals, and
-- hash maps as association lists.
--
-- A byte is a number below 256 and a machine word a number with its bound as a hypothesis;
-- operations that wrap are written with `%`. A panic of an index out of bounds is `none`.
--
-- Fuel: the eviction loop of the registry runs with the length of the queue, since each round takes
-- one entry; the loop of a script number has eight rounds, which are enough for 64 bits; a decimal
-- numeral has twenty digits, which are enough for 64 bits. The theorems on these definitions carry no
-- hypothesis that the fuel suffices.
--
-- Parameters: SHA-256 of the crate sha2 (a theorem that needs it supposes digests of 32 bytes), the
-- encoder and decoder of the crate hex (a theorem that needs it supposes that it decodes to bytes),
-- the encoders of the crate bitcoin (the record Coin.Coinbase.Bitcoin), the HTTP exchange and the JSON
-- values of the crates reqwest and serde_json (Coin.Http, Sv1.Messages.Json, Sv1.Notify.JsonMake), the
-- TOML parser, the environment and the file system, the validator and the sink of the share processor,
-- and the submitter.
--
-- Not modelled: the sockets of crates/protocol_sv1 and the texts of its JSON values, the binding of the
-- listeners in crates/azcoin-pool, the listener of the HTTP API, crates/storage and the records of
-- balances, payouts and rounds (stubs and plain data that the pool does not use yet), the stub clients
-- of crates/coin_azcoin, the SV2 orchestrator, and the log. Time, scheduling and the network are outside the model; the HTTP exchange of the clients is a
-- parameter with a state.
pub mod Prelude
pub mod PoolCore
pub mod Common
pub mod Coin
pub mod Sv1
pub mod App
pub mod Sv2
