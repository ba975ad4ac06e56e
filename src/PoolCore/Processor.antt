-- ===== src/PoolCore/Processor.antt =====
-- crates/pool_core/src/services.rs: `JobAwareShareProcessor`. The registry and the buffer are shared
-- with other tasks; `process_share` reads the registry once, so its effect is one step on both.
pub mod Laws
use Prim.Native.String.{◌++◌}
use azcoin_stratum_pool.Prelude.{
  ℕ, zero, suc, ◌+◌, ◌-◌, ◌^◌, String, Bool, true, false, not, Option, none, some, List, [], ◌∷◌,
  ◌++◌ as append, Result, ok, err, length, bit_and, if◌then◌else◌, nat_eq, ◌==◌,
}
use azcoin_stratum_pool.Prelude.Bits.{complement}
use azcoin_stratum_pool.Prelude.Text.{format, hex08, decimal}
use azcoin_stratum_pool.PoolCore.Types.{
  Job, Bytes, ShareSubmission, ShareValidationContext, ShareResult, accepted, block, low_difficulty,
  malformed, unknown_job, rejected,
}
use azcoin_stratum_pool.PoolCore.Registry.{ActiveJobRegistry, get_job}
use azcoin_stratum_pool.PoolCore.Buffer.{RecentSharesBuffer, record_share}

-- The coin's validator: `validate_share(job, share, extranonce1, pool_difficulty)`.
abbrev pub ShareValidator : Type 0
ShareValidator = Job → ShareSubmission → Bytes → ℕ → ShareResult

-- The external sink: what `submit_share` answers.
abbrev pub ShareSink : Type 0
ShareSink = ShareSubmission → ShareResult → ℕ → Result (Unit {0}) String

pub record JobAwareShareProcessor : Type 0 where
  pub share_validator : Option ShareValidator
  pub pool_difficulty : ℕ
  pub share_sink : Option ShareSink

abbrev pub default_pool_difficulty : ℕ
default_pool_difficulty = 1

-- `posted` lists the calls of the sink, newest first, and `sink_failures` counts its errors, which are
-- only logged.
pub record PoolState : Type 0 where
  pub job_registry : ActiveJobRegistry
  pub recent_buffer : RecentSharesBuffer
  pub posted : List (ShareSubmission × ShareResult × ℕ)
  pub sink_failures : ℕ

-- The constructors.
unfoldable pub new_with_share_sink : Option ShareSink → JobAwareShareProcessor
new_with_share_sink share_sink = record {
  share_validator = none;
  pool_difficulty = default_pool_difficulty;
  share_sink = share_sink;
}

unfoldable pub with_validator_and_share_sink :
    ShareValidator → ℕ → Option ShareSink → JobAwareShareProcessor
with_validator_and_share_sink share_validator pool_difficulty share_sink = record {
  share_validator = some share_validator;
  pool_difficulty = pool_difficulty;
  share_sink = share_sink;
}

unfoldable pub new : JobAwareShareProcessor
new = new_with_share_sink none

unfoldable pub with_validator : ShareValidator → ℕ → JobAwareShareProcessor
with_validator share_validator pool_difficulty =
    with_validator_and_share_sink share_validator pool_difficulty none

unfoldable pub record_share_result :
    JobAwareShareProcessor → PoolState → ShareSubmission → ShareResult → PoolState
record_share_result self s share result =
    let s' : PoolState = record s { recent_buffer = record_share s.recent_buffer share result } in
    elim self.share_sink [
      | none ↦ s'
      | some submit_share ↦ elim (submit_share share result self.pool_difficulty) [
        | ok _ ↦ record s' { posted = (share, result, self.pool_difficulty) ∷ s.posted }
        | err error ↦ record s' {
          posted = (share, result, self.pool_difficulty) ∷ s.posted;
          sink_failures = suc s.sink_failures;
        }
      ]
    ]

-- The two checks of the validation context, in their order; `some` is the early return.
unfoldable pub check_extra_nonce2 : ShareSubmission → ShareValidationContext → Option ShareResult
check_extra_nonce2 share ctx = elim ctx.expected_extra_nonce2_len [
  | none ↦ none
  | some expected_len ↦
      if not (length share.extra_nonce2 == expected_len)
      then some (
          rejected (
            format (
              "extra_nonce2 must be "
              ∷ decimal expected_len
              ∷ " bytes, got "
              ∷ decimal (length share.extra_nonce2)
              ∷ [])))
      else none
]

unfoldable pub check_version_bits : ShareValidationContext → Option ShareResult
check_version_bits ctx = elim ctx.version_bits [
  | none ↦ none
  | some version_bits ↦ elim ctx.version_rolling_mask [
    | some mask ↦
        if not (bit_and version_bits (complement 32 mask) == 0)
        then some (
            rejected (
              format (
                "version_bits "
                ∷ hex08 version_bits
                ∷ " outside negotiated mask "
                ∷ hex08 mask
                ∷ [])))
        else none
    | none ↦ some (rejected "version rolling not negotiated")
  ]
]

unfoldable pub check_context : ShareSubmission → Option ShareResult
check_context share = elim share.validation_context [
  | none ↦ none
  | some ctx ↦ elim (check_extra_nonce2 share ctx) [
    | some result ↦ some result
    | none ↦ check_version_bits ctx
  ]
]

-- `hex_decode` is `hex::decode` of the crate `hex`.
module _ (hex_decode : String → Option Bytes) where
  -- `extranonce1` of the context; `none` where it is no hexadecimal text.
  unfoldable pub session_extranonce1 : ShareSubmission → Option Bytes
  session_extranonce1 share = elim share.validation_context [
    | none ↦ some (0 ∷ 0 ∷ 0 ∷ 0 ∷ [])
    | some ctx ↦ elim ctx.extranonce1_hex [
      | none ↦ some (0 ∷ 0 ∷ 0 ∷ 0 ∷ [])
      | some hex ↦ hex_decode hex
    ]
  ]

  unfoldable pub validate_known : JobAwareShareProcessor → Job → ShareSubmission → ShareResult
  validate_known self job share = elim self.share_validator [
    | none ↦ accepted
    | some validate_share ↦ elim (session_extranonce1 share) [
      | none ↦ malformed "extranonce1 invalid hex"
      | some extranonce1 ↦ validate_share job share extranonce1 self.pool_difficulty
    ]
  ]

  -- The result of every path; each path ends by recording it and returning it.
  unfoldable pub verdict :
      JobAwareShareProcessor → ActiveJobRegistry → ShareSubmission → ShareResult
  verdict self job_registry share = elim (check_context share) [
    | some result ↦ result
    | none ↦ elim (get_job job_registry share.job_id) [
      | none ↦ unknown_job (format ("unknown job_id " ∷ share.job_id ∷ []))
      | some job ↦ validate_known self job share
    ]
  ]

  unfoldable pub process_share :
      JobAwareShareProcessor → PoolState → ShareSubmission → ShareResult × PoolState
  process_share self s share =
      let result = verdict self s.job_registry share in
      (result, record_share_result self s share result)
