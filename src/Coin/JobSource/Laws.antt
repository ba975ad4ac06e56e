-- ===== src/Coin/JobSource/Laws.antt =====
-- The jobs that the two sources give.
use azcoin_stratum_pool.Prelude.{String, Bool, Option, none, some, Result, ok, err, All, ◌≡◌, refl}
use azcoin_stratum_pool.Prelude.Words.{IsByte}
use azcoin_stratum_pool.PoolCore.Types.{Bytes, Job, BlockCandidate}
use azcoin_stratum_pool.Coin.Coinbase.{Bitcoin, PoolError}
use azcoin_stratum_pool.Coin.Template.{BlockTemplate, template_to_job}
use azcoin_stratum_pool.Coin.Template.Laws.{WellFormed, template_to_job-WellFormed}
use azcoin_stratum_pool.Coin.Http.{Send, JsonValue}
use azcoin_stratum_pool.Coin.Daemon.{get_block_template}
use azcoin_stratum_pool.Coin.NodeApi.{NodeApiTemplate}
use azcoin_stratum_pool.Coin.ApiTemplate.{api_template_to_job}
use azcoin_stratum_pool.Coin.ApiTemplate.Laws.{api_template_to_job-WellFormed}
use azcoin_stratum_pool.Coin.Candidate.{local_error, submit_block_candidate}
use azcoin_stratum_pool.Coin.JobSource.{
  RpcJobSource, NodeApiJobSource, mapped, rpc_job, api_job, rpc_current_job, api_current_job,
}

mapped_ok : (r : Result Job PoolError) (job : Job) → mapped r ≡ some job → r ≡ ok job
unfolding mapped
mapped_ok (ok j) job h = cc
mapped_ok (err e) job h = cc

module _ (hex_decode : String → Result Bytes String)
    (decoded_bytes : (s : String) (bs : Bytes) → hex_decode s ≡ ok bs → All IsByte bs) where
  rpc_job_made :
      (b : Bitcoin) (payout : Option Bytes) (answer : Result (Option BlockTemplate) PoolError)
      (job : Job)
      → rpc_job hex_decode b payout answer ≡ some job
      → (template : BlockTemplate) × (script : Bytes) × (answer ≡ ok (some template))
        × (payout ≡ some script)
        × (template_to_job hex_decode b template script ≡ ok job)
  unfolding rpc_job
  rpc_job_made b none (ok (some template)) job h = cc
  rpc_job_made b none (ok none) job h = cc
  rpc_job_made b none (err e) job h = cc
  rpc_job_made b (some script) (ok none) job h = cc
  rpc_job_made b (some script) (err e) job h = cc
  rpc_job_made b (some script) (ok (some template)) job h =
      (template, script, refl, refl, mapped_ok _ job h)

  api_job_made :
      (answer : Result (Option NodeApiTemplate) PoolError) (job : Job)
      → api_job hex_decode answer ≡ some job
      → (template : NodeApiTemplate) × (answer ≡ ok (some template))
        × (api_template_to_job hex_decode template ≡ ok job)
  unfolding api_job
  api_job_made (ok none) job h = cc
  api_job_made (err e) job h = cc
  api_job_made (ok (some template)) job h = (template, refl, mapped_ok _ job h)

  module _ {N V : Type 0} (send : Send N V) where
    -- Where hexadecimal text decodes to bytes, a job of the RPC source comes from a template that the
    -- daemon has just given and from a payout script, and is well formed for that template.
    pub rpc_current_job-WellFormed :
        (json : JsonValue V) (from_value : V → Result BlockTemplate String) (b : Bitcoin)
        (source : RpcJobSource) (n : N) (job : Job)
        → (rpc_current_job hex_decode send json from_value b source n).1 ≡ some job
        → (template : BlockTemplate) × (script : Bytes) × ((get_block_template json send
              source.daemon from_value n).1
            ≡ ok (some template))
          × (source.payout_script_pubkey ≡ some script)
          × WellFormed hex_decode decoded_bytes b script template job
    unfolding rpc_current_job
    rpc_current_job-WellFormed json from_value b source n job h =
        let (template, script, answered, paid, made) =
          rpc_job_made b source.payout_script_pubkey _ job h in
        (
          template,
          script,
          answered,
          paid,
          template_to_job-WellFormed hex_decode decoded_bytes b template script job made,
        )

    -- Where hexadecimal text decodes to bytes, a job of the REST source has no data for a block.
    pub api_current_job-no_assembly :
        (from_value : V → Result NodeApiTemplate String) (source : NodeApiJobSource) (n : N)
        (job : Job)
        → (api_current_job hex_decode send from_value source n).1 ≡ some job
        → job.block_assembly ≡ none
    unfolding api_current_job
    api_current_job-no_assembly from_value source n job h =
        let (template, answered, made) = api_job_made _ job h in
        (api_template_to_job-WellFormed hex_decode decoded_bytes template job made).no_assembly

    -- Where hexadecimal text decodes to bytes, a job of the REST source is never turned into a block:
    -- the submission of a candidate for it ends with a local error before the submitter is called.
    pub api_current_job-unsubmitted :
        {S : Type 0} (from_value : V → Result NodeApiTemplate String) (source : NodeApiJobSource)
        (n : N) (job : Job) (submit_block : S → BlockCandidate → S × Result Bool String)
        (b : Bitcoin) (s : S) (header extranonce1 extra_nonce2 : Bytes)
        → (api_current_job hex_decode send from_value source n).1 ≡ some job
        → submit_block_candidate submit_block b s header job extranonce1 extra_nonce2
          ≡ some (s, local_error "missing job.block_assembly")
    unfolding submit_block_candidate
    api_current_job-unsubmitted from_value source n job submit_block b s header extranonce1
          extra_nonce2 h =
        rw (api_current_job-no_assembly from_value source n job h, submit_block_candidate) refl
