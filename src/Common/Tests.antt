-- ===== src/Common/Tests.antt =====
-- The theorems on the configuration at concrete inputs.
use azcoin_stratum_pool.Prelude.{
  String, Option, none, [], ◌∷◌, Result, ok, err, if◌then◌else◌, string_eq, ◌==◌, ◌≡◌, ◌≢◌, refl,
}
use azcoin_stratum_pool.Prelude.Text.{trim, trim_start, trim_end, is_blank, lowercase_is}
use azcoin_stratum_pool.PoolCore.Types.{Bytes}
use azcoin_stratum_pool.Common.Config.{
  JobSourceMode, rpc, api, mode_text, deserialize_mode, PoolConfig, default_config,
  payout_script_pubkey_bytes, if_ok, set_pool, set_daemon, set_listeners, apply_env_overrides,
  checked, load_config,
}
use azcoin_stratum_pool.Common.Config.Laws.{InBounds, Loaded, load_config-Loaded}

abbrev pub no_file : String → Option String
no_file path = none

abbrev pub an_env : String → Result String String
an_env key =
    if key == "POOL__PAYOUT_SCRIPT_PUBKEY_HEX"
    then ok "51"
    else if key == "DAEMON__RPC_USER"
    then ok "pool"
    else err "not set"

abbrev decode_one : String → Result Bytes String
decode_one s = ok (0x51 ∷ [])

abbrev pub no_toml : String → Result PoolConfig String
no_toml s = err "unexpected text"

pub no_toml-InBounds : (s : String) (c : PoolConfig) → no_toml s ≡ ok c → InBounds c
no_toml-InBounds s c h = absurd cc

abbrev pub a_config : PoolConfig
a_config = record default_config {
  pool = record default_config.pool { payout_script_pubkey_hex = "51" };
  daemon = record default_config.daemon { rpc_user = "pool" };
}

mode_read_back : (mode : JobSourceMode) → deserialize_mode (mode_text mode) ≡ ok mode
unfolding deserialize_mode mode_text lowercase_is
mode_read_back rpc = refl
mode_read_back api = refl

a_config_loaded : load_config decode_one no_toml no_file an_env none ≡ ok a_config
unfolding load_config checked apply_env_overrides set_pool set_daemon set_listeners if_ok
    payout_script_pubkey_bytes trim trim_start trim_end is_blank
a_config_loaded = refl

load_config-Loaded_example : Loaded decode_one no_toml no_file an_env none a_config
load_config-Loaded_example =
    load_config-Loaded decode_one no_toml no_file an_env no_toml-InBounds none a_config
      a_config_loaded

abbrev fifty_one : String
fifty_one = "51"

not_blank : (s : String) → s ≡ "51" → s ≢ ""
not_blank s h k = cc

payout_set : trim fifty_one ≢ ""
unfolding trim trim_start trim_end is_blank
payout_set = not_blank (trim fifty_one) refl
