-- ===== src/Common/Config.antt =====
-- crates/common/src/config.rs: the configuration, its defaults, the environment and the loading.
-- `hex_decode` is `hex::decode`, `from_toml` is `toml::from_str` at the type of the configuration, with
-- the text of its error.
pub mod Environment
pub mod Laws
use azcoin_stratum_pool.Prelude.{
  ℕ, ◌^◌, String, Option, none, some, [], ◌∷◌, Result, ok, err, ◌>>=◌, map_err, if◌then◌else◌,
  string_eq, ◌==◌,
}
use azcoin_stratum_pool.Prelude.Text.{format, trim, parse_below, lowercase_is}
use azcoin_stratum_pool.PoolCore.Types.{Bytes}
use azcoin_stratum_pool.Coin.Coinbase.{PoolError, config}
pub use azcoin_stratum_pool.Common.Sections.{
  JobSourceMode, rpc, api, PoolSection, ApiSection, StratumSection, DaemonSection, PoolConfig,
  default_config,
}

unfoldable pub payout_script_pubkey_bytes :
    (String → Result Bytes String) → PoolSection → Result (Option Bytes) PoolError
payout_script_pubkey_bytes hex_decode section =
    if trim section.payout_script_pubkey_hex == ""
    then ok none
    else elim (hex_decode (trim section.payout_script_pubkey_hex)) [
      | ok bytes ↦ ok (some bytes)
      | err e ↦ err (config (format ("invalid pool.payout_script_pubkey_hex: " ∷ e ∷ [])))
    ]

unfoldable pub parse_job_source_mode : String → Option JobSourceMode
parse_job_source_mode s =
    if lowercase_is (trim s) "rpc"
    then some rpc
    else if lowercase_is (trim s) "api"
    then some api
    else none

-- `Display` and `Deserialize` for the mode; unlike a variable, the text in a file is not trimmed.
unfoldable pub mode_text : JobSourceMode → String
mode_text rpc = "rpc"
mode_text api = "api"

unfoldable pub deserialize_mode : String → Result JobSourceMode String
deserialize_mode s =
    if lowercase_is s "rpc"
    then ok rpc
    else if lowercase_is s "api"
    then ok api
    else err (format ("invalid job_source_mode '" ∷ s ∷ "', expected 'rpc' or 'api'" ∷ []))

-- A text field that a variable replaces.
unfoldable pub replaced : Option String → String → String
replaced none old = old
replaced (some v) old = v

-- The same, without the blanks around the variable's value.
unfoldable pub replaced_trimmed : Option String → String → String
replaced_trimmed none old = old
replaced_trimmed (some v) old = trim v

-- A number that a variable replaces where it parses.
unfoldable pub replaced_number : ℕ → Option String → ℕ → ℕ
replaced_number bound none old = old
replaced_number bound (some v) old = elim (parse_below bound (trim v)) [ none ↦ old | some n ↦ n ]

unfoldable pub replaced_mode : Option String → JobSourceMode → JobSourceMode
replaced_mode none old = old
replaced_mode (some v) old = elim (parse_job_source_mode v) [ none ↦ old | some mode ↦ mode ]

-- The assignments, one step for each variable that is looked up, in their order.
module _ (env : String → Option String) where
  unfoldable pub override_pool : PoolConfig → PoolConfig
  override_pool c =
      let c1 : PoolConfig = record c {
        pool = record c.pool {
          initial_difficulty =
              replaced_number (2 ^ 32) (env "POOL__INITIAL_DIFFICULTY") c.pool.initial_difficulty;
        };
      } in
      record c1 {
        pool = record c1.pool {
          payout_script_pubkey_hex =
              replaced_trimmed (env "POOL__PAYOUT_SCRIPT_PUBKEY_HEX")
                c1.pool.payout_script_pubkey_hex;
        };
      }

  unfoldable pub override_daemon : PoolConfig → PoolConfig
  override_daemon c0 =
      let d0 = c0.daemon in
      let d1 : DaemonSection = record d0 {
        job_source_mode = replaced_mode (env "DAEMON__JOB_SOURCE_MODE") d0.job_source_mode;
      } in
      let d2 : DaemonSection = record d1 { url = replaced_trimmed (env "DAEMON__URL") d1.url } in
      let d3 : DaemonSection = record d2 {
        rpc_user = replaced (env "DAEMON__RPC_USER") d2.rpc_user;
      } in
      let d4 : DaemonSection = record d3 {
        rpc_password = replaced (env "DAEMON__RPC_PASSWORD") d3.rpc_password;
      } in
      let d5 : DaemonSection = record d4 {
        node_api_token = replaced (env "AZ_NODE_API_TOKEN") d4.node_api_token;
      } in
      let d6 : DaemonSection = record d5 {
        node_api_token = replaced (env "DAEMON__NODE_API_TOKEN") d5.node_api_token;
      } in
      record c0 {
        daemon = record d6 {
          share_api_url = replaced_trimmed (env "DAEMON__SHARE_API_URL") d6.share_api_url;
        };
      }

  unfoldable pub override_listeners : PoolConfig → PoolConfig
  override_listeners c = record c {
    api_section = record {
      bind = replaced_trimmed (env "API__BIND") c.api_section.bind;
      port = replaced_number (2 ^ 16) (env "API__PORT") c.api_section.port;
    };
    stratum = record {
      bind = replaced_trimmed (env "STRATUM__BIND") c.stratum.bind;
      port = replaced_number (2 ^ 16) (env "STRATUM__PORT") c.stratum.port;
    };
  }

  unfoldable pub apply_env_overrides_from : PoolConfig → PoolConfig
  apply_env_overrides_from c = override_listeners (override_daemon (override_pool c))

-- `if let Ok(v) = std::env::var(..)` around an assignment: the field keeps its value otherwise.
unfoldable pub if_ok : {A E : Type 0} → Result String E → A → (String → A) → A
if_ok (ok v) old assign = assign v
if_ok (err e) old assign = old

-- The same assignments as they read the variables of the process; `var` is `std::env::var`.
module _ {E : Type 0} (var : String → Result String E) where
  unfoldable pub set_pool : PoolConfig → PoolConfig
  unfolding if_ok
  set_pool c =
      let c1 : PoolConfig = record c {
        pool = record c.pool {
          initial_difficulty =
              if_ok (var "POOL__INITIAL_DIFFICULTY") c.pool.initial_difficulty (λ v.
                elim (parse_below (2 ^ 32) (trim v)) [
                  | none ↦ c.pool.initial_difficulty
                  | some d ↦ d
                ]);
        };
      } in
      record c1 {
        pool = record c1.pool {
          payout_script_pubkey_hex =
              if_ok (var "POOL__PAYOUT_SCRIPT_PUBKEY_HEX") c1.pool.payout_script_pubkey_hex
                (λ v. trim v);
        };
      }

  unfoldable pub set_daemon : PoolConfig → PoolConfig
  unfolding if_ok
  set_daemon c0 =
      let d0 = c0.daemon in
      let d1 : DaemonSection = record d0 {
        job_source_mode =
            if_ok (var "DAEMON__JOB_SOURCE_MODE") d0.job_source_mode (λ v.
              elim (parse_job_source_mode v) [ none ↦ d0.job_source_mode | some mode ↦ mode ]);
      } in
      let d2 : DaemonSection = record d1 { url = if_ok (var "DAEMON__URL") d1.url (λ v. trim v) } in
      let d3 : DaemonSection = record d2 {
        rpc_user = if_ok (var "DAEMON__RPC_USER") d2.rpc_user (λ v. v);
      } in
      let d4 : DaemonSection = record d3 {
        rpc_password = if_ok (var "DAEMON__RPC_PASSWORD") d3.rpc_password (λ v. v);
      } in
      let d5 : DaemonSection = record d4 {
        node_api_token = if_ok (var "AZ_NODE_API_TOKEN") d4.node_api_token (λ v. v);
      } in
      let d6 : DaemonSection = record d5 {
        node_api_token = if_ok (var "DAEMON__NODE_API_TOKEN") d5.node_api_token (λ v. v);
      } in
      record c0 {
        daemon = record d6 {
          share_api_url = if_ok (var "DAEMON__SHARE_API_URL") d6.share_api_url (λ v. trim v);
        };
      }

  unfoldable pub set_listeners : PoolConfig → PoolConfig
  unfolding if_ok
  set_listeners c = record c {
    api_section = record {
      bind = if_ok (var "API__BIND") c.api_section.bind (λ v. trim v);
      port = if_ok (var "API__PORT") c.api_section.port (λ v. elim (parse_below (2 ^ 16) (trim v)) [
        | none ↦ c.api_section.port
        | some port ↦ port
      ]);
    };
    stratum = record {
      bind = if_ok (var "STRATUM__BIND") c.stratum.bind (λ v. trim v);
      port =
          if_ok (var "STRATUM__PORT") c.stratum.port (λ v. elim (parse_below (2 ^ 16) (trim v)) [
            | none ↦ c.stratum.port
            | some port ↦ port
          ]);
    };
  }

  unfoldable pub apply_env_overrides : PoolConfig → PoolConfig
  apply_env_overrides c = set_listeners (set_daemon (set_pool c))

module _ (hex_decode : String → Result Bytes String)
    (from_toml : String → Result PoolConfig String) where
  unfoldable pub checked : PoolConfig → Result PoolConfig PoolError
  checked c = do payout ← payout_script_pubkey_bytes hex_decode c.pool; ok c

  unfoldable pub parse_config_toml : String → Result PoolConfig PoolError
  parse_config_toml s = do c ← map_err config (from_toml s); checked c

  -- `read_to_string` is that of `std::fs`, `None` where it fails.
  unfoldable pub load_config :
      {E : Type 0}
      → (String → Option String)
      → (String → Result String E)
      → Option String
      → Result PoolConfig PoolError
  load_config read_to_string var path = do
    let path' : String = elim path [ none ↦ "config.toml" | some p ↦ p ]
    c ← elim (read_to_string path') [
      | none ↦ ok default_config
      | some s ↦ map_err config (from_toml s)
    ]
    checked (apply_env_overrides var c)
