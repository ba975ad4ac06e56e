-- ===== src/App/Api.antt =====
-- crates/api_server/src/routes.rs: what the routes of the HTTP API answer, before it is written as JSON.
-- `hex_encode` is `hex::encode`.
pub mod Laws
use azcoin_stratum_pool.Prelude.{
  ℕ, zero, suc, ◌+◌, String, Bool, true, false, ◌||◌, Option, none, some, List, [], ◌∷◌, map,
  length, if◌then◌else◌, string_eq, nat_eq, ◌==◌, ◌≡◌, refl, sym, ap, ◌∙◌, arith, Bool-cases, inl,
  inr, All, length-map,
}
use azcoin_stratum_pool.Prelude.HashMap
use azcoin_stratum_pool.Prelude.HashMap.{HashMap}
use azcoin_stratum_pool.PoolCore.Types.{Bytes, Job, WorkerIdentity, PoolStats}
use azcoin_stratum_pool.PoolCore.Worker
use azcoin_stratum_pool.PoolCore.Worker.{InMemoryWorkerRegistry}
use azcoin_stratum_pool.PoolCore.Stats.{snapshot}
use azcoin_stratum_pool.PoolCore.Buffer.{ShareAttempt, recent}
use azcoin_stratum_pool.App.Handler.{Pool}

pub record WorkerSummary : Type 0 where
  pub id : String
  pub username : Option String

pub record JobSummary : Type 0 where
  pub job_id : String
  pub prev_hash : String
  pub version : ℕ
  pub nbits : ℕ
  pub ntime : ℕ
  pub clean_jobs : Bool

abbrev pub health : String
health = "OK"

abbrev pub ready : String
ready = "OK"

unfoldable pub summarize : WorkerIdentity → WorkerSummary
summarize w = record { id = w.id; username = w.username }

unfoldable pub summarize_job : (Bytes → String) → Option Job → Option JobSummary
summarize_job hex_encode none = none
summarize_job hex_encode (some j) = some (record {
  job_id = j.job_id;
  prev_hash = hex_encode j.prev_hash;
  version = j.version;
  nbits = j.nbits;
  ntime = j.ntime;
  clean_jobs = j.clean_jobs;
})

module _ {N : Type 0} where
  unfoldable pub pool_stats : Pool N → PoolStats
  pool_stats pool = record (snapshot pool.stats) {
    worker_count = Worker.count pool.worker_registry;
  }

  unfoldable pub pool_workers : Pool N → List WorkerSummary
  pool_workers pool = map summarize (Worker.list pool.worker_registry)

  unfoldable pub pool_jobs_current :
      (N → N × Option Job) → (Bytes → String) → Pool N → Pool N × Option JobSummary
  pool_jobs_current current_job hex_encode pool =
      let (n', job) = current_job pool.node in
      (record pool { node = n' }, summarize_job hex_encode job)

  unfoldable pub pool_shares_recent : Pool N → List ShareAttempt
  pool_shares_recent pool = recent pool.state.recent_buffer
