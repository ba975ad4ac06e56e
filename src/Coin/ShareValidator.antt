-- ===== src/Coin/ShareValidator.antt =====
-- crates/coin_azcoin/src/share_validator.rs: `AzcoinShareValidator`.
-- `sha256` is `Sha256::digest` of the crate `sha2`, `hex_encode` is `hex::encode` of the crate `hex`,
-- which only fills the log.
pub mod Outcome
use azcoin_stratum_pool.Prelude.{
  ℕ, ◌≤◌, max, String, Bool, true, false, Option, none, some, List, [], ◌∷◌, Result, ok, err, ◌>>=◌,
  map, reverse, if◌then◌else◌,
}
use azcoin_stratum_pool.Prelude.Text.{format, hex08, decimal}
use mathlib.Core.Option
use azcoin_stratum_pool.PoolCore.Types.{
  Job, Bytes, ShareSubmission, ShareValidationContext, ShareResult, accepted, block, low_difficulty,
  rejected,
}
use azcoin_stratum_pool.Coin.Target.{
  nbits_to_target, diff1_target, div_target_by_difficulty, leq_be,
}
use azcoin_stratum_pool.Coin.Header.{
  build_coinbase, double_sha256, apply_merkle_branch, resolved_version, build_block_header,
}

pub record ShareValidationTrace : Type 0 where
  pub merged_version : ℕ
  pub version_bits_hex : Option String
  pub version_rolling_mask_hex : Option String
  pub merkle_branch_hex : List String
  pub coinbase_hash : Bytes
  pub validator_merkle_root : Bytes
  pub branch_merkle_root_hex : Option String
  pub header : Bytes
  pub hash : Bytes
  pub block_target : Bytes
  pub share_target : Bytes

-- The hexadecimal text of a field of the context, where it is there.
abbrev context_hex : (ShareValidationContext → Option ℕ) → ShareSubmission → Option String
context_hex field share = elim share.validation_context [
  | none ↦ none
  | some ctx ↦ elim (field ctx) [ none ↦ none | some n ↦ some (hex08 n) ]
]

-- `(!merkle_branch.is_empty()).then_some(root).map(hex::encode)`
abbrev branch_hex : (Bytes → String) → List Bytes → Bytes → Option String
branch_hex hex_encode [] root = none
branch_hex hex_encode (b ∷ bs) root = some (hex_encode root)

module _ (sha256 : Bytes → Bytes) (hex_encode : Bytes → String) where
  unfoldable pub build_share_validation_trace :
      Job → ShareSubmission → Bytes → ℕ → Result ShareValidationTrace String
  build_share_validation_trace job share extranonce1 pool_difficulty = do
    let coinbase = build_coinbase job share extranonce1
    let coinbase_hash = double_sha256 sha256 coinbase
    let validator_merkle_root = apply_merkle_branch sha256 coinbase_hash job.merkle_branch
    merged_version ← resolved_version job.version share
    let header =
        build_block_header merged_version job.prev_hash validator_merkle_root share.ntime job.nbits
          share.nonce
    ok (record {
      merged_version = merged_version;
      version_bits_hex = context_hex (λ ctx. ctx.version_bits) share;
      version_rolling_mask_hex = context_hex (λ ctx. ctx.version_rolling_mask) share;
      merkle_branch_hex = map hex_encode job.merkle_branch;
      coinbase_hash = coinbase_hash;
      validator_merkle_root = validator_merkle_root;
      branch_merkle_root_hex = branch_hex hex_encode job.merkle_branch validator_merkle_root;
      header = header;
      hash = reverse (double_sha256 sha256 header);
      block_target = nbits_to_target job.nbits;
      share_target = div_target_by_difficulty diff1_target (max pool_difficulty 1);
    })

  -- The validator's own `pool_difficulty` field is not read.
  unfoldable pub validate_share : Job → ShareSubmission → Bytes → ℕ → ShareResult
  validate_share job share extranonce1 pool_difficulty =
      let diff = max pool_difficulty 1 in
      elim (build_share_validation_trace job share extranonce1 diff) [
        | err reason ↦ rejected reason
        | ok trace ↦
            if leq_be trace.hash trace.block_target
            then block
            else if leq_be trace.hash trace.share_target
            then accepted
            else low_difficulty
                (format ("hash above pool target (pool difficulty " ∷ decimal diff ∷ ")" ∷ []))
      ]

  unfoldable pub build_solved_block_header : Job → ShareSubmission → Bytes → Result Bytes String
  build_solved_block_header job share extranonce1 = do
    trace ← build_share_validation_trace job share extranonce1 1
    ok trace.header
