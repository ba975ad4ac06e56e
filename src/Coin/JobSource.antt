-- ===== src/Coin/JobSource.antt =====
-- crates/coin_azcoin/src/job_source.rs: the two sources of jobs.
pub mod Laws
use azcoin_stratum_pool.Prelude.{String, Option, none, some, Result, ok, err}
use azcoin_stratum_pool.PoolCore.Types.{Bytes, Job}
use azcoin_stratum_pool.Coin.Coinbase.{PoolError, Bitcoin}
use azcoin_stratum_pool.Coin.Template.{BlockTemplate, template_to_job}
use azcoin_stratum_pool.Coin.Http.{Send, JsonValue}
use azcoin_stratum_pool.Coin.Daemon.{DaemonClient, get_block_template}
use azcoin_stratum_pool.Coin.NodeApi.{NodeApiClient, NodeApiTemplate, get_template_current}
use azcoin_stratum_pool.Coin.ApiTemplate.{api_template_to_job}

pub record RpcJobSource : Type 0 where
  pub daemon : DaemonClient
  pub payout_script_pubkey : Option Bytes

pub record NodeApiJobSource : Type 0 where
  pub client : NodeApiClient

-- A job, or no job where the mapping fails.
unfoldable pub mapped : Result Job PoolError → Option Job
mapped (ok job) = some job
mapped (err e) = none

module _ (hex_decode : String → Result Bytes String) where
  unfoldable pub rpc_job :
      Bitcoin → Option Bytes → Result (Option BlockTemplate) PoolError → Option Job
  rpc_job b none (ok (some template)) = none
  rpc_job b (some payout_script_pubkey) (ok (some template)) =
      mapped (template_to_job hex_decode b template payout_script_pubkey)
  rpc_job b payout (ok none) = none
  rpc_job b payout (err e) = none

  unfoldable pub api_job : Result (Option NodeApiTemplate) PoolError → Option Job
  api_job (ok (some template)) = mapped (api_template_to_job hex_decode template)
  api_job (ok none) = none
  api_job (err e) = none

  module _ {N V : Type 0} (send : Send N V) where
    -- `RpcJobSource::current_job`
    unfoldable pub rpc_current_job :
        JsonValue V
        → (V → Result BlockTemplate String)
        → Bitcoin
        → RpcJobSource
        → N
        → N × Option Job
    rpc_current_job json from_value b source n =
        let (n', answer) = get_block_template json send source.daemon from_value n in
        (n', rpc_job b source.payout_script_pubkey answer)

    -- `NodeApiJobSource::current_job`
    unfoldable pub api_current_job :
        (V → Result NodeApiTemplate String) → NodeApiJobSource → N → N × Option Job
    api_current_job from_value source n =
        let (n', answer) = get_template_current send source.client from_value n in
        (n', api_job answer)
