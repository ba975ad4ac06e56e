-- ===== src/PoolCore/Types.antt =====
-- crates/pool_core/src/{job,share,worker,stats,block}.rs: the domain data.
-- A byte is a number below 256, a `[u8; 32]` or a `Vec<u8>` a list of them, a `u32` or a `u64` a
-- number whose bound is stated where a theorem needs it.
use azcoin_stratum_pool.Prelude.{ℕ, String, Bool, true, false, Option, none, some, List, [], ◌∷◌}

abbrev pub Bytes : Type 0
Bytes = List ℕ

pub record BlockAssemblyData : Type 0 where
  pub height : ℕ
  pub coinbase_value : ℕ
  pub coinbase_aux_flags : Option Bytes
  pub template_transactions : List Bytes
  pub default_witness_commitment : Option Bytes

pub record Job : Type 0 where
  pub job_id : String
  pub prev_hash : Bytes
  pub coinbase_part1 : Bytes
  pub coinbase_part2 : Bytes
  pub merkle_branch : List Bytes
  pub version : ℕ
  pub nbits : ℕ
  pub ntime : ℕ
  pub clean_jobs : Bool
  pub block_assembly : Option BlockAssemblyData

-- `Job::placeholder`, the job of the stub source.
abbrev pub placeholder : Job
placeholder = record {
  job_id = "0";
  prev_hash =
      0 ∷ 0 ∷ 0 ∷ 0 ∷ 0 ∷ 0 ∷ 0 ∷ 0 ∷ 0 ∷ 0 ∷ 0 ∷ 0 ∷ 0 ∷ 0 ∷ 0 ∷ 0 ∷ 0 ∷ 0 ∷ 0 ∷ 0 ∷ 0 ∷ 0 ∷ 0 ∷ 0
      ∷ 0 ∷ 0 ∷ 0 ∷ 0 ∷ 0 ∷ 0 ∷ 0 ∷ 0 ∷ [];
  coinbase_part1 = 0x01 ∷ 0x00 ∷ 0x00 ∷ 0x00 ∷ 0x00 ∷ [];
  coinbase_part2 = 0xff ∷ 0xff ∷ 0xff ∷ 0xff ∷ [];
  merkle_branch = [];
  version = 0x20000000;
  nbits = 0x1d00ffff;
  ntime = 0;
  clean_jobs = true;
  block_assembly = none;
}

pub record WorkerIdentity : Type 0 where
  pub id : String
  pub username : Option String
  pub worker_name : Option String

pub record ShareValidationContext : Type 0 where
  pub expected_extra_nonce2_len : Option ℕ
  pub extranonce1_hex : Option String
  pub version_rolling_mask : Option ℕ
  pub version_bits : Option ℕ

pub record ShareSubmission : Type 0 where
  pub job_id : String
  pub worker : WorkerIdentity
  pub extra_nonce2 : Bytes
  pub ntime : ℕ
  pub nonce : ℕ
  pub validation_context : Option ShareValidationContext

pub data ShareResult : Type 0 where
  accepted : ShareResult
  block : ShareResult
  low_difficulty : String → ShareResult
  malformed : String → ShareResult
  unknown_job : String → ShareResult
  rejected : String → ShareResult

abbrev pub is_accepted : ShareResult → Bool
is_accepted accepted = true
is_accepted block = true
is_accepted (low_difficulty r) = false
is_accepted (malformed r) = false
is_accepted (unknown_job r) = false
is_accepted (rejected r) = false

abbrev pub reject_reason : ShareResult → Option String
reject_reason accepted = none
reject_reason block = none
reject_reason (low_difficulty r) = some r
reject_reason (malformed r) = some r
reject_reason (unknown_job r) = some r
reject_reason (rejected r) = some r

-- `hashrate`, which is always 0.0, is left out.
pub record PoolStats : Type 0 where
  pub pool_name : String
  pub worker_count : ℕ
  pub round_height : ℕ
  pub round_status : String

pub record BlockCandidate : Type 0 where
  pub block_hash : Bytes
  pub height : ℕ
  pub raw_block : Bytes
