-- ===== src/Coin/Header.antt =====
-- crates/coin_azcoin/src/share_validator.rs: the parts of the solved block header.
-- `sha256` is `Sha256::digest` of the crate `sha2`.
pub mod Fields
pub mod Version
use azcoin_stratum_pool.Prelude.{
  ℕ, ◌-◌, ◌^◌, String, Bool, true, false, not, Option, none, some, List, [], ◌∷◌, ◌++◌, Result, ok,
  err, bit_and, bit_or, if◌then◌else◌, nat_eq, ◌==◌,
}
use azcoin_stratum_pool.Prelude.Bits.{complement}
use azcoin_stratum_pool.Prelude.Text.{format, hex08}
use azcoin_stratum_pool.Prelude.Words.{le_bytes}
use azcoin_stratum_pool.PoolCore.Types.{Job, Bytes, ShareSubmission}

unfoldable pub build_coinbase : Job → ShareSubmission → Bytes → Bytes
build_coinbase job share extranonce1 =
    job.coinbase_part1 ++ (extranonce1 ++ (share.extra_nonce2 ++ job.coinbase_part2))

module _ (sha256 : Bytes → Bytes) where
  unfoldable pub double_sha256 : Bytes → Bytes
  double_sha256 input = sha256 (sha256 input)

  unfoldable pub apply_merkle_branch : Bytes → List Bytes → Bytes
  apply_merkle_branch merkle_root [] = merkle_root
  apply_merkle_branch merkle_root (branch ∷ rest) =
      apply_merkle_branch (double_sha256 (merkle_root ++ branch)) rest

unfoldable pub resolved_version : ℕ → ShareSubmission → Result ℕ String
resolved_version job_version share = elim share.validation_context [
  | none ↦ ok job_version
  | some ctx ↦ elim ctx.version_bits [
    | none ↦ ok job_version
    | some version_bits ↦ elim ctx.version_rolling_mask [
      | none ↦ err "version rolling not negotiated"
      | some mask ↦
          if not (bit_and version_bits (complement 32 mask) == 0)
          then err (
              format (
                "version_bits "
                ∷ hex08 version_bits
                ∷ " outside negotiated mask "
                ∷ hex08 mask
                ∷ []))
          else ok (bit_or (bit_and job_version (complement 32 mask)) (bit_and version_bits mask))
    ]
  ]
]

unfoldable pub build_block_header : ℕ → Bytes → Bytes → ℕ → ℕ → ℕ → Bytes
build_block_header version prev_hash merkle_root ntime nbits nonce =
    le_bytes 4 version
    ++ (prev_hash ++ (merkle_root ++ (le_bytes 4 ntime ++ (le_bytes 4 nbits ++ le_bytes 4 nonce))))
