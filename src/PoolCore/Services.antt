-- ===== src/PoolCore/Services.antt =====
-- crates/pool_core/src/services.rs: the job sources and validators for tests, the stub processor, and the
-- assembly of the services. A job source has a state `J` that its calls change.
use azcoin_stratum_pool.Prelude.{
  ℕ, ◌+◌, ◌%◌, ◌^◌, String, Option, none, some, List, [], ◌∷◌, length, get_elem?, nat_eq,
}
use azcoin_stratum_pool.PoolCore.Types.{
  Job, placeholder, ShareSubmission, ShareResult, accepted, rejected,
}
use azcoin_stratum_pool.PoolCore.Worker.{InMemoryWorkerRegistry}
use azcoin_stratum_pool.PoolCore.Stats
use azcoin_stratum_pool.PoolCore.Stats.{InMemoryStatsSnapshot}
use azcoin_stratum_pool.PoolCore.Registry
use azcoin_stratum_pool.PoolCore.Buffer.{RecentSharesBuffer, record_share}
use azcoin_stratum_pool.PoolCore.Processor.{
  ShareValidator, ShareSink, JobAwareShareProcessor, default_pool_difficulty, PoolState,
  new_with_share_sink, with_validator_and_share_sink,
}

-- The trait `JobSource`.
abbrev pub JobSource : Type 0 → Type 0
JobSource J = J → J × Option Job

abbrev pub stub_job_source : JobSource (Unit {0})
stub_job_source s = (s, some placeholder)

abbrev pub no_job_source : JobSource (Unit {0})
no_job_source s = (s, none)

-- `FixedJobSource`, whose state is its job.
abbrev pub fixed_job_source : JobSource Job
fixed_job_source job = (job, some job)

-- `VecJobSource`: the jobs in turn; the state is `next`, a `usize` that wraps around.
unfoldable pub vec_job_source : List Job → JobSource ℕ
vec_job_source [] next = (next, none)
vec_job_source (job ∷ jobs) next =
    ((next + 1) % 2 ^ 64, get_elem? (job ∷ jobs) (next % length (job ∷ jobs)))

-- `AcceptAllShareValidator`
abbrev pub accept_all : ShareValidator
accept_all job share extranonce1 pool_difficulty = accepted

-- `StubShareProcessor::process_share`
unfoldable pub stub_process_share :
    RecentSharesBuffer → ShareSubmission → ShareResult × RecentSharesBuffer
stub_process_share recent_buffer share =
    let result : ShareResult = rejected "share validation not implemented" in
    (result, record_share recent_buffer share result)

-- The registry and the buffer are in the state of the processor, `pool_state`.
pub record PoolServices (J : Type 0) : Type 0 where
  pub worker_registry : InMemoryWorkerRegistry
  pub stats : InMemoryStatsSnapshot
  pub job_source : JobSource J
  pub share_processor : JobAwareShareProcessor
  pub pool_state : PoolState

module _ {J : Type 0} where
  unfoldable pub new_inner :
      String → JobSource J → Option ShareValidator → ℕ → Option ShareSink → PoolServices J
  new_inner pool_name job_source share_validator pool_difficulty share_sink = record {
    worker_registry = [];
    stats = Stats.new pool_name;
    job_source = job_source;
    share_processor = elim share_validator [
      | none ↦ new_with_share_sink share_sink
      | some validator ↦ with_validator_and_share_sink validator pool_difficulty share_sink
    ];
    pool_state = record {
      job_registry = Registry.new;
      recent_buffer = [];
      posted = [];
      sink_failures = 0;
    };
  }

  unfoldable pub new : String → JobSource J → PoolServices J
  new pool_name job_source = new_inner pool_name job_source none default_pool_difficulty none

  unfoldable pub new_with_validator_and_share_sink :
      String → JobSource J → ShareValidator → ℕ → Option ShareSink → PoolServices J
  new_with_validator_and_share_sink pool_name job_source share_validator pool_difficulty
        share_sink =
      new_inner pool_name job_source (some share_validator) pool_difficulty share_sink

  unfoldable pub new_with_validator : String → JobSource J → ShareValidator → ℕ → PoolServices J
  new_with_validator pool_name job_source share_validator pool_difficulty =
      new_with_validator_and_share_sink pool_name job_source share_validator pool_difficulty none

unfoldable pub with_placeholder_job_source : String → PoolServices (Unit {0})
with_placeholder_job_source pool_name = new pool_name stub_job_source

unfoldable pub with_no_job_source : String → PoolServices (Unit {0})
with_no_job_source pool_name = new pool_name no_job_source
