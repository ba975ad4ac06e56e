-- ===== src/Sv2/Flow.antt =====
-- crates/sv2_scaffold/src/{pool_flow,share_flow_check}.rs: the bridge with the accounting, and with the
-- validation of a share. `hex_decode`, `hex_encode` and `sha256` are those of the crates hex and sha2.
use azcoin_stratum_pool.Prelude.{
  ◌^◌, ◌<◌, suc, String, none, some, List, [], ◌∷◌, Result, ok, err, ◌>>=◌, map_err, ok_or, length,
  ◌≡◌, refl, ◌∙◌,
}
use azcoin_stratum_pool.PoolCore.Types.{Bytes, ShareSubmission, ShareResult}
use azcoin_stratum_pool.PoolCore.Worker
use azcoin_stratum_pool.Coin.Coinbase.{Bitcoin}
use azcoin_stratum_pool.Coin.Template.{BlockTemplate}
use azcoin_stratum_pool.Coin.ShareValidator.{validate_share, build_solved_block_header}
use azcoin_stratum_pool.Sv2.Aggregation.{
  MinerId, MinerStats, ShareRecord, AggregationEngine, miner_eq, record_share, get_stats,
}
use azcoin_stratum_pool.Sv2.Aggregation.Laws.{
  Call, share, run, step, known_stats, mentioned, subject, shares_of, summary, get_stats-run,
}
use azcoin_stratum_pool.Sv2.Template.{AzcoinJobBridge, BridgeError, bridge_block_template}

pub record PoolFlowResult : Type 0 where
  pub flow_bridge : AzcoinJobBridge
  pub flow_miner : MinerId
  pub flow_stats : MinerStats

pub data PoolFlowError : Type 0 where
  flow_failed : BridgeError → PoolFlowError
  miner_stats_missing : PoolFlowError

pub record ShareFlowCompatibility : Type 0 where
  pub checked_bridge : AzcoinJobBridge
  pub solved_header : Bytes
  pub validation_result : ShareResult

pub data ShareFlowCheckError : Type 0 where
  check_failed : BridgeError → ShareFlowCheckError
  header_build : String → ShareFlowCheckError

module _ (hex_decode : String → Result Bytes String) (b : Bitcoin) where
  -- The engine is left as it was where the bridge fails.
  unfoldable pub run_pool_flow :
      {D : Type 0}
      → BlockTemplate
      → Bytes
      → MinerId
      → ShareRecord D
      → AggregationEngine D
      → AggregationEngine D × Result PoolFlowResult PoolFlowError
  run_pool_flow template payout_script_pubkey miner r engine =
      elim (bridge_block_template hex_decode b template payout_script_pubkey) [
        | err e ↦ (engine, err (flow_failed e))
        | ok bridge ↦ (
          record_share engine r,
          (do
            stats ← ok_or (get_stats (record_share engine r) miner) miner_stats_missing
            ok (record { flow_bridge = bridge; flow_miner = miner; flow_stats = stats })),
        )
      ]

  unfoldable pub check_share_flow_compatibility :
      (Bytes → Bytes)
      → (Bytes → String)
      → BlockTemplate
      → Bytes
      → Result ShareFlowCompatibility ShareFlowCheckError
  check_share_flow_compatibility sha256 hex_encode template payout_script_pubkey = do
    bridge ← map_err check_failed (bridge_block_template hex_decode b template payout_script_pubkey)
    let compat : ShareSubmission = record {
      job_id = bridge.job.job_id;
      worker = Worker.new "compat.worker";
      extra_nonce2 = 0 ∷ 0 ∷ 0 ∷ 0 ∷ [];
      ntime = bridge.job.ntime;
      nonce = 0;
      validation_context = none;
    }
    let extranonce1 : Bytes = 0 ∷ 0 ∷ 0 ∷ 0 ∷ []
    header ←
        map_err header_build
          (build_solved_block_header sha256 hex_encode bridge.job compat extranonce1)
    ok (record {
      checked_bridge = bridge;
      solved_header = header;
      validation_result = validate_share sha256 hex_encode bridge.job compat extranonce1 1;
    })

  self_mentioned :
      {D : Type 0} (r : ShareRecord D) (history : List (Call D))
      → known_stats r.miner (share r ∷ history)
        ≡ some (summary (shares_of r.miner (share r ∷ history)))
  unfolding known_stats mentioned subject
  self_mentioned r history = rw ((miner_eq.test_iff r.miner r.miner).1 refl, known_stats) refl

  -- After fewer than 2 ^ 64 - 1 calls, where the template passes the bridge, a share of the flow's own
  -- miner is recorded, and the result has the bridge's job and the summary of that miner's shares with
  -- this one, so that its statistics are not missing.
  pub run_pool_flow_own :
      {D : Type 0} (template : BlockTemplate) (payout : Bytes) (r : ShareRecord D)
      (history : List (Call D)) (bridge : AzcoinJobBridge)
      → suc (length history) < 2 ^ 64
      → bridge_block_template hex_decode b template payout ≡ ok bridge
      → run_pool_flow template payout r.miner r (run history) ≡ (
        run (share r ∷ history),
        ok (record {
          flow_bridge = bridge;
          flow_miner = r.miner;
          flow_stats = summary (shares_of r.miner (share r ∷ history));
        }),
      )
  unfolding run_pool_flow run step
  run_pool_flow_own template payout r history bridge bound passed =
      let counted = get_stats-run r.miner (share r ∷ history) bound ∙ self_mentioned r history in
      rw (passed, run_pool_flow) (rw (counted) refl)
