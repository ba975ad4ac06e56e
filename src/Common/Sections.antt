-- ===== src/Common/Sections.antt =====
-- crates/common/src/config.rs: the sections of the configuration and their defaults.
use azcoin_stratum_pool.Prelude.{ℕ, String}

pub data JobSourceMode : Type 0 where
  rpc : JobSourceMode
  api : JobSourceMode

pub record PoolSection : Type 0 where
  pub name : String
  pub initial_difficulty : ℕ
  pub payout_script_pubkey_hex : String

pub record ApiSection : Type 0 where
  pub bind : String
  pub port : ℕ

pub record StratumSection : Type 0 where
  pub bind : String
  pub port : ℕ

pub record DaemonSection : Type 0 where
  pub url : String
  pub rpc_user : String
  pub rpc_password : String
  pub job_source_mode : JobSourceMode
  pub node_api_token : String
  pub share_api_url : String

pub record PoolConfig : Type 0 where
  pub pool : PoolSection
  pub api_section : ApiSection
  pub stratum : StratumSection
  pub daemon : DaemonSection

-- The `Default` implementations.
abbrev pub default_pool : PoolSection
default_pool = record {
  name = "azcoin-pool";
  initial_difficulty = 1;
  payout_script_pubkey_hex = "";
}

abbrev pub default_api : ApiSection
default_api = record { bind = "0.0.0.0"; port = 8080 }

abbrev pub default_stratum : StratumSection
default_stratum = record { bind = "0.0.0.0"; port = 3333 }

abbrev pub default_daemon : DaemonSection
default_daemon = record {
  url = "http://127.0.0.1:8332";
  rpc_user = "";
  rpc_password = "";
  job_source_mode = rpc;
  node_api_token = "";
  share_api_url = "";
}

abbrev pub default_config : PoolConfig
default_config = record {
  pool = default_pool;
  api_section = default_api;
  stratum = default_stratum;
  daemon = default_daemon;
}
