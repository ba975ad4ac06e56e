-- ===== src/App/Handler.antt =====
-- crates/azcoin-pool/src/sv1_handler.rs: what the pool does when a session calls it.
-- `N` is the state of the node, which the job source and the submitter ask. `hex_decode` is
-- `hex::decode`, `None` where it fails. Logging is left out; where a submission ends is an `Outcome`.
pub mod Laws
pub mod Keeps
pub mod Node
use azcoin_stratum_pool.Prelude.{
  ℕ, String, Bool, true, false, not, ◌||◌, Option, none, some, List, Result, ok, err, if◌then◌else◌,
  string_eq, nat_eq, ◌==◌,
}
use azcoin_stratum_pool.PoolCore.Types.{
  Bytes, Job, ShareSubmission, ShareResult, accepted, block, low_difficulty, malformed, unknown_job,
  rejected, BlockCandidate,
}
use azcoin_stratum_pool.PoolCore.Worker
use azcoin_stratum_pool.PoolCore.Worker.{InMemoryWorkerRegistry}
use azcoin_stratum_pool.PoolCore.Stats.{
  InMemoryStatsSnapshot, record_connection, record_disconnection,
}
use azcoin_stratum_pool.PoolCore.Registry
use azcoin_stratum_pool.PoolCore.Registry.{ActiveJobRegistry, get_job}
use azcoin_stratum_pool.PoolCore.Processor.{
  JobAwareShareProcessor, PoolState, session_extranonce1, process_share,
}
use azcoin_stratum_pool.Coin.Coinbase.{Bitcoin}
use azcoin_stratum_pool.Coin.ShareValidator.{build_solved_block_header}
use azcoin_stratum_pool.Coin.Candidate.{CandidateSubmissionResult, submit_block_candidate}

-- What `Sv1SessionHandler` shares with the other tasks.
pub record Pool (N : Type 0) : Type 0 where
  pub stats : InMemoryStatsSnapshot
  pub worker_registry : InMemoryWorkerRegistry
  pub state : PoolState
  pub node : N

pub data Outcome : Type 0 where
  job_missing : Outcome
  stale : Outcome
  invalid_extranonce1 : Outcome
  no_header : String → Outcome
  answered : CandidateSubmissionResult → Outcome
  panicked : Outcome

-- `block_assembly.as_ref().map(|b| b.height).unwrap_or_default()`
unfoldable pub block_height : Job → ℕ
block_height job = elim job.block_assembly [ none ↦ 0 | some a ↦ a.height ]

-- The solved job is no longer the current one.
unfoldable pub is_stale : Job → Option Job → Bool
is_stale job none = false
is_stale job (some current) =
    not (current.job_id == job.job_id) || not (block_height current == block_height job)

abbrev pub is_block : ShareResult → Bool
is_block accepted = false
is_block block = true
is_block (low_difficulty r) = false
is_block (malformed r) = false
is_block (unknown_job r) = false
is_block (rejected r) = false

-- A panic does not return.
unfoldable pub returned : ShareResult → Outcome → Option ShareResult
returned result job_missing = some result
returned result stale = some result
returned result invalid_extranonce1 = some result
returned result (no_header message) = some result
returned result (answered r) = some result
returned result panicked = none

unfoldable pub told : {N : Type 0} → N → Option (N × CandidateSubmissionResult) → N × Outcome
told n none = (n, panicked)
told n (some (n', r)) = (n', answered r)

unfoldable pub on_connect : {N : Type 0} → Pool N → Pool N
on_connect pool = record pool { stats = record_connection pool.stats }

unfoldable pub on_disconnect : {N : Type 0} → Pool N → Pool N
on_disconnect pool = record pool { stats = record_disconnection pool.stats }

unfoldable pub on_notify_sent : {N : Type 0} → Pool N → Job → Pool N
on_notify_sent pool job = record pool {
  state = record pool.state { job_registry = Registry.register pool.state.job_registry job };
}

module _ {N : Type 0} (current_job : N → N × Option Job) where
  unfoldable pub on_authorize : Pool N → String → Pool N × Result (Option Job) String
  on_authorize pool username =
      let (n', job) = current_job pool.node in
      (
        record pool {
          worker_registry = Worker.register pool.worker_registry (Worker.new username);
          node = n';
        },
        ok job,
      )

  module _ (hex_decode : String → Option Bytes) (sha256 : Bytes → Bytes)
      (hex_encode : Bytes → String) (b : Bitcoin)
      (submit_block : N → BlockCandidate → N × Result Bool String) where
    -- The candidate of a job that is current.
    unfoldable pub submit_solved : N → Job → ShareSubmission → N × Outcome
    submit_solved n job share = elim (session_extranonce1 hex_decode share) [
      | none ↦ (n, invalid_extranonce1)
      | some extranonce1 ↦
          elim (build_solved_block_header sha256 hex_encode job share extranonce1) [
            | err message ↦ (n, no_header message)
            | ok solved_header ↦ told n (
                submit_block_candidate submit_block b n solved_header job extranonce1
                  share.extra_nonce2)
          ]
    ]

    unfoldable pub maybe_submit_block_candidate :
        N → ActiveJobRegistry → ShareSubmission → N × Outcome
    maybe_submit_block_candidate n job_registry share = elim (get_job job_registry share.job_id) [
      | none ↦ (n, job_missing)
      | some job ↦
          let (n', current) = current_job n in
          if is_stale job current then (n', stale) else submit_solved n' job share
    ]

    unfoldable pub on_submit :
        JobAwareShareProcessor → Pool N → ShareSubmission → Pool N × Option ShareResult
    on_submit processor pool share =
        let (result, s') = process_share hex_decode processor pool.state share in
        let (n', outcome) = maybe_submit_block_candidate pool.node s'.job_registry share in
        if is_block result
        then (record pool { state = s'; node = n' }, returned result outcome)
        else (record pool { state = s' }, some result)
