-- ===== src/Sv2/Errors.antt =====
-- crates/sv2_scaffold: what each error says of itself, `fmt::Display` for the error types.
use azcoin_stratum_pool.Prelude.{String, [], ◌∷◌}
use azcoin_stratum_pool.Prelude.Text.{format}
use azcoin_stratum_pool.Sv2.Template.{
  AdapterError, missing_required_field, hex_decode_failure, invalid_numeric_conversion, BridgeError,
  adapter, job_construction,
}
use azcoin_stratum_pool.Sv2.Flow.{
  PoolFlowError, flow_failed, miner_stats_missing, ShareFlowCheckError, check_failed, header_build,
}

unfoldable pub adapter_error_text : AdapterError → String
adapter_error_text (missing_required_field field) = format ("missing required field " ∷ field ∷ [])
adapter_error_text (hex_decode_failure field message) =
    format (field ∷ " hex decode failed: " ∷ message ∷ [])
adapter_error_text (invalid_numeric_conversion field value) =
    format ("invalid numeric conversion for " ∷ field ∷ ": " ∷ value ∷ [])

unfoldable pub bridge_error_text : BridgeError → String
unfolding adapter_error_text
bridge_error_text (adapter error) =
    format ("template adapter error: " ∷ adapter_error_text error ∷ [])
bridge_error_text (job_construction error) = format ("job construction error: " ∷ error ∷ [])

unfoldable pub pool_flow_error_text : PoolFlowError → String
unfolding bridge_error_text
pool_flow_error_text (flow_failed error) = format ("bridge error: " ∷ bridge_error_text error ∷ [])
pool_flow_error_text miner_stats_missing = "miner stats missing after share record"

unfoldable pub share_flow_error_text : ShareFlowCheckError → String
unfolding bridge_error_text
share_flow_error_text (check_failed error) =
    format ("bridge error: " ∷ bridge_error_text error ∷ [])
share_flow_error_text (header_build error) = format ("header build error: " ∷ error ∷ [])
