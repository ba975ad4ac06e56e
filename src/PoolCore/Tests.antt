-- ===== src/PoolCore/Tests.antt =====
-- The theorems of pool_core at concrete inputs.
use azcoin_stratum_pool.Prelude.{
  ℕ, zero, suc, ◌-◌, String, Bool, true, false, Option, none, some, List, [], ◌∷◌, length, drop,
  ◌≡◌, ◌↔◌, string_eq, nat_eq,
}
use azcoin_stratum_pool.PoolCore.Types.{
  Bytes, Job, placeholder, WorkerIdentity, ShareSubmission, ShareValidationContext, accepted,
  is_accepted,
}
use azcoin_stratum_pool.PoolCore.Registry
use azcoin_stratum_pool.PoolCore.Registry.{get_job, contains, pop_oldest, evict_loop}
use azcoin_stratum_pool.PoolCore.Registry.Eviction.{is_full, evict_loop-Ends}
use azcoin_stratum_pool.Prelude.While.{While}
use azcoin_stratum_pool.Prelude.Text.{decimal}
use azcoin_stratum_pool.PoolCore.Registry.Refinement
use azcoin_stratum_pool.PoolCore.Registry.Refinement.{
  Implements, admit, admit_all, register_all, register-Implements, registry_refines, new-Implements,
}
use azcoin_stratum_pool.PoolCore.Buffer.{attempt, recent, record_all, max_recent, recent-record_all}
use azcoin_stratum_pool.PoolCore.Processor.{
  process_share, PoolState, JobAwareShareProcessor, with_validator_and_share_sink,
}
use azcoin_stratum_pool.PoolCore.Processor.Laws.{process_share-accepted, Acceptable}

abbrev job_of : String → Bool → Job
job_of id clean = record placeholder { job_id = id; clean_jobs = clean }

abbrev first_job : Job
first_job = job_of "7" true

abbrev second_job : Job
second_job = job_of "8" false

abbrev one_job : Registry.ActiveJobRegistry
one_job = Registry.register Registry.new first_job

abbrev one_job-Implements : Implements one_job (first_job ∷ [])
unfolding Registry.register Registry.new admit Refinement.find
one_job-Implements = register-Implements Registry.new [] first_job new-Implements

abbrev numbered : ℕ → List Job
numbered zero = []
numbered (suc n) = job_of (decimal n) false ∷ numbered n

abbrev full_registry : Registry.ActiveJobRegistry
full_registry = register_all Registry.new (numbered 64)

full_registry-Implements : Implements full_registry (numbered 64)
unfolding admit_all admit Refinement.find decimal
full_registry-Implements = registry_refines (numbered 64)

evict_loop-Ends_example :
    While is_full pop_oldest (pop_oldest full_registry) full_registry
    ↔ (pop_oldest full_registry ≡ evict_loop (length full_registry.order) full_registry)
evict_loop-Ends_example = evict_loop-Ends full_registry (pop_oldest full_registry)

abbrev some_worker : WorkerIdentity
some_worker = record { id = "u.w"; username = some "u"; worker_name = some "w" }

abbrev context : ShareValidationContext
context = record {
  expected_extra_nonce2_len = some 4;
  extranonce1_hex = some "00000001";
  version_rolling_mask = none;
  version_bits = none;
}

abbrev a_share : ShareSubmission
a_share = record {
  job_id = "7";
  worker = some_worker;
  extra_nonce2 = 0 ∷ 0 ∷ 0 ∷ 1 ∷ [];
  ntime = 5;
  nonce = 9;
  validation_context = some context;
}

recent-record_all_example :
    recent (record_all [] ((a_share, accepted) ∷ []))
    ≡ drop (1 - max_recent) (attempt a_share accepted ∷ [])
recent-record_all_example = recent-record_all ((a_share, accepted) ∷ [])

abbrev read_four : String → Option Bytes
read_four s = some (0 ∷ 0 ∷ 0 ∷ 1 ∷ [])

abbrev lenient : JobAwareShareProcessor
lenient = with_validator_and_share_sink (λ job share extranonce1 d. accepted) 1 none

abbrev some_pool : PoolState
some_pool = record { job_registry = one_job; recent_buffer = []; posted = []; sink_failures = 0 }

process_share-accepted_example :
    (is_accepted (process_share read_four lenient some_pool a_share).0 ≡ true)
    ↔ Acceptable read_four lenient some_pool a_share
process_share-accepted_example = process_share-accepted read_four lenient some_pool a_share
