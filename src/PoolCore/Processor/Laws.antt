-- ===== src/PoolCore/Processor/Laws.antt =====
-- Which shares the processor accepts, and what every call leaves behind.
use azcoin_stratum_pool.Prelude.{
  ℕ, String, true, false, Option, none, some, ◌∷◌, length, bit_and, ◌≡◌, refl, inl, inr, arith,
  Option-cases, ◌↔◌,
}
use azcoin_stratum_pool.Prelude.Bits.{complement}
use azcoin_stratum_pool.PoolCore.Types.{
  Job, Bytes, ShareSubmission, ShareValidationContext, ShareResult, is_accepted,
}
use azcoin_stratum_pool.PoolCore.Registry.{get_job}
use azcoin_stratum_pool.PoolCore.Buffer.{record_share}
use azcoin_stratum_pool.PoolCore.Processor.{
  JobAwareShareProcessor, PoolState, ShareValidator, ShareSink, check_extra_nonce2,
  check_version_bits, check_context, session_extranonce1, validate_known, verdict, process_share,
  record_share_result,
}

-- What a share must satisfy before its job is looked up.
pub record FitsContext (share : ShareSubmission) (ctx : ShareValidationContext) : Type 0 where
  pub extra_nonce2_fits :
      (n : ℕ) → ctx.expected_extra_nonce2_len ≡ some n → length share.extra_nonce2 ≡ n
  pub version_bits_fit :
      (bits : ℕ)
      → ctx.version_bits ≡ some bits
      → (mask : ℕ) × (ctx.version_rolling_mask ≡ some mask)
        × (bit_and bits (complement 32 mask) ≡ 0)

check_extra_nonce2-none :
    (share : ShareSubmission) (ctx : ShareValidationContext)
    → check_extra_nonce2 share ctx ≡ none
    → (n : ℕ) → ctx.expected_extra_nonce2_len ≡ some n
    → length share.extra_nonce2 ≡ n
unfolding check_extra_nonce2
check_extra_nonce2-none share ctx h n e = ground arith

check_version_bits-none :
    (ctx : ShareValidationContext) (bits : ℕ)
    → check_version_bits ctx ≡ none
    → ctx.version_bits ≡ some bits
    → (mask : ℕ) × (ctx.version_rolling_mask ≡ some mask) × (bit_and bits (complement 32 mask) ≡ 0)
unfolding check_version_bits
check_version_bits-none ctx bits h e = ground arith

check_context-none :
    (share : ShareSubmission) (ctx : ShareValidationContext)
    → share.validation_context ≡ some ctx
    → check_context share ≡ none
    → (check_extra_nonce2 share ctx ≡ none) × (check_version_bits ctx ≡ none)
unfolding check_context
check_context-none share ctx e h = ground arith

check_context-refused :
    (share : ShareSubmission) (result : ShareResult)
    → check_context share ≡ some result
    → is_accepted result ≡ false
unfolding check_context check_extra_nonce2 check_version_bits
check_context-refused share result e = ground arith

check_context-FitsContext :
    (share : ShareSubmission) (ctx : ShareValidationContext)
    → share.validation_context ≡ some ctx
    → check_context share ≡ none
    → FitsContext share ctx
check_context-FitsContext share ctx e h =
    let (len_ok, bits_ok) = check_context-none share ctx e h in
    record {
      extra_nonce2_fits = check_extra_nonce2-none share ctx len_ok;
      version_bits_fit = λ bits b. check_version_bits-none ctx bits bits_ok b;
    }

check_extra_nonce2_fits :
    (share : ShareSubmission) (ctx : ShareValidationContext)
    → FitsContext share ctx
    → check_extra_nonce2 share ctx ≡ none
unfolding check_extra_nonce2
check_extra_nonce2_fits share ctx f = elim (Option-cases ctx.expected_extra_nonce2_len) [
  | inl e ↦ rw e
  | inr (n, e) ↦ ground (arith, e, f.extra_nonce2_fits n e)
]

check_version_bits_fit :
    (share : ShareSubmission) (ctx : ShareValidationContext)
    → FitsContext share ctx
    → check_version_bits ctx ≡ none
unfolding check_version_bits
check_version_bits_fit share ctx f = elim (Option-cases ctx.version_bits) [
  | inl e ↦ rw e
  | inr (bits, e) ↦ let (mask, m, z) = f.version_bits_fit bits e in ground (arith, e, m, z)
]

pub FitsContext-check_context :
    (share : ShareSubmission)
    → ((ctx : ShareValidationContext) → share.validation_context ≡ some ctx → FitsContext share ctx)
    → check_context share ≡ none
unfolding check_context
FitsContext-check_context share f = elim (Option-cases share.validation_context) [
  | inl e ↦ rw e
  | inr (ctx, e) ↦ ground (
    arith,
    e,
    check_extra_nonce2_fits share ctx (f ctx e),
    check_version_bits_fit share ctx (f ctx e),
  )
]

module _ (hex_decode : String → Option Bytes) (self : JobAwareShareProcessor) where
  -- The share fits its session, its job is registered, and the validator, if there is one, accepts
  -- it with the session's extranonce1.
  pub record Acceptable (s : PoolState) (share : ShareSubmission) : Type 0 where
    pub fits :
        (ctx : ShareValidationContext) → share.validation_context ≡ some ctx → FitsContext share ctx
    pub job : Job
    pub known : get_job s.job_registry share.job_id ≡ some job
    pub valid :
        (validate_share : ShareValidator)
        → self.share_validator ≡ some validate_share
        → (extranonce1 : Bytes) × (session_extranonce1 hex_decode share ≡ some extranonce1)
          × (is_accepted (validate_share job share extranonce1 self.pool_difficulty) ≡ true)

  validate_known-accepted :
      (job : Job) (share : ShareSubmission) (validate_share : ShareValidator)
      → self.share_validator ≡ some validate_share
      → is_accepted (validate_known hex_decode self job share) ≡ true
      → (extranonce1 : Bytes) × (session_extranonce1 hex_decode share ≡ some extranonce1)
        × (is_accepted (validate_share job share extranonce1 self.pool_difficulty) ≡ true)
  unfolding validate_known
  validate_known-accepted job share validate_share v a =
      elim (Option-cases (session_extranonce1 hex_decode share)) [
        | inl e ↦ absurd (ground arith)
        | inr (extranonce1, e) ↦ (extranonce1, e, ground arith)
      ]

  verdict-accepted :
      (s : PoolState) (share : ShareSubmission)
      → is_accepted (verdict hex_decode self s.job_registry share) ≡ true
      → Acceptable s share
  unfolding verdict
  verdict-accepted s share a = elim (Option-cases (check_context share)) [
    | inr (result, e) ↦ absurd (ground (arith, check_context-refused share result e))
    | inl e ↦ elim (Option-cases (get_job s.job_registry share.job_id)) [
      | inl g ↦ absurd (ground arith)
      | inr (job, g) ↦ record {
        fits = λ ctx c. check_context-FitsContext share ctx c e;
        job = job;
        known = g;
        valid =
            λ validate_share v. validate_known-accepted job share validate_share v (ground arith);
      }
    ]
  ]

  validate_known_valid :
      (job : Job) (share : ShareSubmission)
      → ((validate_share : ShareValidator)
          → self.share_validator ≡ some validate_share
          → (extranonce1 : Bytes) × (session_extranonce1 hex_decode share ≡ some extranonce1)
            × (is_accepted (validate_share job share extranonce1 self.pool_difficulty) ≡ true))
      → is_accepted (validate_known hex_decode self job share) ≡ true
  unfolding validate_known
  validate_known_valid job share valid = elim (Option-cases self.share_validator) [
    | inl e ↦ rw e
    | inr (validate_share, e) ↦
        let (extranonce1, x, a) = valid validate_share e in ground (arith, x, a)
  ]

  Acceptable-verdict :
      (s : PoolState) (share : ShareSubmission)
      → Acceptable s share
      → is_accepted (verdict hex_decode self s.job_registry share) ≡ true
  unfolding verdict
  Acceptable-verdict s share a =
      let ok_context = FitsContext-check_context share a.fits in
      rw (ok_context, verdict) (rw a.known (validate_known_valid a.job share a.valid))

  -- A share is accepted, as a share or as a block, exactly when it fits the context of its session,
  -- its job is registered, and the validator, where there is one, accepts it for that job.
  pub process_share-accepted :
      (s : PoolState) (share : ShareSubmission)
      → (is_accepted (process_share hex_decode self s share).0 ≡ true) ↔ Acceptable s share
  unfolding process_share
  process_share-accepted s share = (verdict-accepted s share, Acceptable-verdict s share)

  -- Every call, on every path, returns the result that it records: the buffer gains its entry, the
  -- sink, where there is one, is called once with it, and the registry stays as it was. What the
  -- sink answers changes neither the result nor the buffer.
  pub process_share_records :
      (s : PoolState) (share : ShareSubmission) (sink : Option ShareSink)
      → let (result, s') = process_share hex_decode self s share in
        (s'.job_registry ≡ s.job_registry)
        × (s'.recent_buffer ≡ record_share s.recent_buffer share result)
        × (s'.posted ≡ elim self.share_sink [
          | none ↦ s.posted
          | some sink ↦ (share, result, self.pool_difficulty) ∷ s.posted
        ])
        × ((process_share hex_decode (record self { share_sink = sink }) s share).0 ≡ result)
  unfolding process_share record_share_result verdict validate_known
  process_share_records s share sink = (ground arith, ground arith, ground arith, refl)
