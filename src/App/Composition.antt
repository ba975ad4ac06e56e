-- ===== src/App/Composition.antt =====
-- crates/azcoin-pool/src/composition.rs: the services that a configuration asks for.
use azcoin_stratum_pool.Prelude.{
  ℕ, ◌^◌, ◌<◌, String, Option, none, some, Result, ok, err, Result-cases, if◌then◌else◌, string_eq,
  ◌==◌, ◌≡◌, ◌≢◌, refl, inl, inr, test-ne, arith,
}
use azcoin_stratum_pool.Prelude.Text.{trim}
use mathlib.Core.Option
use azcoin_stratum_pool.PoolCore.Types.{Bytes, Job}
use azcoin_stratum_pool.PoolCore.Processor.{ShareSink}
use azcoin_stratum_pool.PoolCore.Services.{PoolServices, new_with_validator_and_share_sink}
use azcoin_stratum_pool.Coin.ShareValidator.{validate_share}
use azcoin_stratum_pool.Coin.Coinbase.{PoolError}
use azcoin_stratum_pool.Coin.Daemon
use azcoin_stratum_pool.Coin.NodeApi
use azcoin_stratum_pool.Coin.NodeApi.{NodeApiClient}
use azcoin_stratum_pool.Coin.JobSource.{RpcJobSource, NodeApiJobSource}
use azcoin_stratum_pool.Common.Config.{
  PoolConfig, JobSourceMode, rpc, api, payout_script_pubkey_bytes, load_config,
}
use azcoin_stratum_pool.Common.Config.Laws.{InBounds, load_config-Loaded}

-- The two implementations of the trait `JobSource`.
pub data JobSource : Type 0 where
  from_rpc : RpcJobSource → JobSource
  from_api : NodeApiJobSource → JobSource

-- `.ok().flatten()`
unfoldable pub payout_or_none : Result (Option Bytes) PoolError → Option Bytes
payout_or_none (ok payout) = payout
payout_or_none (err e) = none

unfoldable pub node_api_token : PoolConfig → Option String
node_api_token c = if c.daemon.node_api_token == "" then none else some c.daemon.node_api_token

unfoldable pub source_of : (String → Result Bytes String) → PoolConfig → JobSourceMode → JobSource
source_of hex_decode c rpc = from_rpc (record {
  daemon = Daemon.new c.daemon.url c.daemon.rpc_user c.daemon.rpc_password;
  payout_script_pubkey = payout_or_none (payout_script_pubkey_bytes hex_decode c.pool);
})
source_of hex_decode c api =
    from_api (record { client = NodeApi.new c.daemon.url (node_api_token c) })

unfoldable pub build_job_source : (String → Result Bytes String) → PoolConfig → JobSource
build_job_source hex_decode c = source_of hex_decode c c.daemon.job_source_mode

-- The sink of `build_pool_services`, and the difficulty that it hands to the share processor.
unfoldable pub build_share_sink : PoolConfig → Option NodeApiClient
build_share_sink c =
    if trim c.daemon.share_api_url == ""
    then none
    else some (NodeApi.new c.daemon.share_api_url (node_api_token c))

unfoldable pub pool_difficulty : PoolConfig → ℕ
pool_difficulty c = c.pool.initial_difficulty

-- `share_sink` says what a sink answers, and `job_source` is the source that was built.
unfoldable pub build_pool_services :
    {N : Type 0}
    → (Bytes → Bytes)
    → (Bytes → String)
    → (NodeApiClient → ShareSink)
    → (N → N × Option Job)
    → PoolConfig
    → PoolServices N
unfolding pool_difficulty
build_pool_services sha256 hex_encode share_sink job_source c =
    new_with_validator_and_share_sink c.pool.name job_source (validate_share sha256 hex_encode)
      (pool_difficulty c) (Option.map share_sink (build_share_sink c))

-- Where a file that parses has numbers of the widths of their types, the mode is RPC and the configured
-- payout script is not blank, a configuration that is loaded gives an RPC source whose payout script
-- is the decoding of the configured text, and a difficulty below 2 ^ 32.
pub build_job_source-payout :
    {E : Type 0} (hex_decode : String → Result Bytes String)
    (from_toml : String → Result PoolConfig String) (read_to_string : String → Option String)
    (var : String → Result String E)
    (typed : (s : String) (c : PoolConfig) → from_toml s ≡ ok c → InBounds c) (path : Option String)
    (c : PoolConfig)
    → load_config hex_decode from_toml read_to_string var path ≡ ok c
    → c.daemon.job_source_mode ≡ rpc
    → trim c.pool.payout_script_pubkey_hex ≢ ""
    → (script : Bytes) × (hex_decode (trim c.pool.payout_script_pubkey_hex) ≡ ok script)
      × (build_job_source hex_decode c
          ≡ from_rpc (record {
            daemon = Daemon.new c.daemon.url c.daemon.rpc_user c.daemon.rpc_password;
            payout_script_pubkey = some script;
          }))
      × (pool_difficulty c < 2 ^ 32)
unfolding build_job_source payout_script_pubkey_bytes payout_or_none InBounds pool_difficulty
    source_of
build_job_source-payout hex_decode from_toml read_to_string var typed path c loaded mode set =
    let l = load_config-Loaded hex_decode from_toml read_to_string var typed path c loaded in
    let full = test-ne (trim c.pool.payout_script_pubkey_hex) "" set in
    elim (Result-cases (hex_decode (trim c.pool.payout_script_pubkey_hex))) [
      | inl (script, e) ↦ (
        script,
        e,
        rw (mode, build_job_source) (rw (full, payout_script_pubkey_bytes) (rw (e) refl)),
        l.in_bounds.0,
      )
      | inr (m, e) ↦ absurd (ground (arith, l.payout_decodes, full, e))
    ]
