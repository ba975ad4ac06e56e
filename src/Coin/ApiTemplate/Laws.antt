-- ===== src/Coin/ApiTemplate/Laws.antt =====
-- What holds of every job that a template of the REST interface gives.
use azcoin_stratum_pool.Prelude.{
  ℕ, ◌^◌, ◌<◌, String, none, [], ◌∷◌, Result, ok, length, All, ◌≡◌, refl, subst, inl, inr, arith,
  Bool-cases, Result-cases, nat_eq, ◌==◌, >>=-ok, ok-injective,
}
use azcoin_stratum_pool.Prelude.Text.{trim}
use azcoin_stratum_pool.Prelude.Words.{IsByte, le_value}
use azcoin_stratum_pool.PoolCore.Types.{Bytes, Job}
use azcoin_stratum_pool.Coin.Target.Shape.{IsHash}
use azcoin_stratum_pool.Coin.Template.{decode_prev_hash, decode_bits}
use azcoin_stratum_pool.Coin.Template.Laws.{decode_prev_hash-IsHash, decode_bits-lt}
use azcoin_stratum_pool.Coin.NodeApi.{NodeApiTemplate}
use azcoin_stratum_pool.Coin.ApiTemplate.{
  ntime_hex_to_u32, build_coinbase_parts, api_template_to_job,
}

four_bytes : (bs : Bytes) → length bs ≡ 4 → All IsByte bs → le_value bs < 2 ^ 32
unfolding le_value
four_bytes (a ∷ b ∷ c ∷ d ∷ []) n (ha, (hb, (hc, (hd, u)))) = omega arith
four_bytes (a ∷ b ∷ c ∷ d ∷ e ∷ rest) n h = absurd (omega (arith, n))
four_bytes (a ∷ b ∷ c ∷ []) n h = absurd (omega (arith, n))
four_bytes (a ∷ b ∷ []) n h = absurd (omega (arith, n))
four_bytes (a ∷ []) n h = absurd (omega (arith, n))
four_bytes [] n h = absurd (omega (arith, n))

module _ (hex_decode : String → Result Bytes String)
    (decoded_bytes : (s : String) (bs : Bytes) → hex_decode s ≡ ok bs → All IsByte bs) where
  ntime_bytes :
      (s : String) (ntime : ℕ)
      → ntime_hex_to_u32 hex_decode s ≡ ok ntime
      → (bs : Bytes) × (hex_decode (trim s) ≡ ok bs)
        × (ntime ≡ le_value bs)
        × (le_value bs < 2 ^ 32)
  unfolding ntime_hex_to_u32
  ntime_bytes s ntime h = elim (Result-cases (hex_decode (trim s))) [
    | inr (e, p) ↦ absurd (ground (arith, h, p))
    | inl (bs, p) ↦ elim (Bool-cases (length bs == 4)) [
      | inl n ↦
          let e : ntime ≡ le_value bs = ground (arith, h, p, n) in
          (
            bs,
            p,
            e,
            four_bytes bs ((nat_eq.test_iff (length bs) 4).0 n) (decoded_bytes (trim s) bs p),
          )
      | inr n ↦ absurd (ground (arith, h, p, n))
    ]
  ]

  -- What the registry, the validator and the session rely on, and that the job carries nothing that
  -- a block could be assembled from.
  pub record ApiWellFormed (template : NodeApiTemplate) (job : Job) : Type 0 where
    pub named : job.job_id ≡ template.job_id
    pub clean_kept : job.clean_jobs ≡ template.clean_jobs
    pub prev_hash_IsHash : IsHash job.prev_hash
    pub nbits_small : job.nbits < 2 ^ 32
    pub ntime_decoded : Bytes
    pub ntime_read : hex_decode (trim template.ntime) ≡ ok ntime_decoded
    pub lowest_first : job.ntime ≡ le_value ntime_decoded
    pub ntime_small : job.ntime < 2 ^ 32
    pub no_branch : job.merkle_branch ≡ []
    pub no_assembly : job.block_assembly ≡ none

  -- Where hexadecimal text decodes to bytes, every REST template that gives a job gives one with the
  -- template's id, a previous hash of 32 bytes and bits and time of 32 bits, where the time is read
  -- with its lowest byte first, with an empty merkle branch and without the data of a block.
  pub api_template_to_job-WellFormed :
      (template : NodeApiTemplate) (job : Job)
      → api_template_to_job hex_decode template ≡ ok job
      → ApiWellFormed template job
  unfolding api_template_to_job build_coinbase_parts
  api_template_to_job-WellFormed template job h =
      let prev = >>=-ok (decode_prev_hash hex_decode template.prev_hash) _ job h in
      let bits = >>=-ok (decode_bits hex_decode template.nbits) _ job prev.2 in
      let time = >>=-ok (ntime_hex_to_u32 hex_decode template.ntime) _ job bits.2 in
      let (bs, read, value, small) = ntime_bytes template.ntime time.0 time.1 in
      subst (ApiWellFormed template) (ok-injective time.2) (record {
        named = refl;
        clean_kept = refl;
        prev_hash_IsHash =
            decode_prev_hash-IsHash hex_decode decoded_bytes template.prev_hash prev.0 prev.1;
        nbits_small = decode_bits-lt hex_decode decoded_bytes template.nbits bits.0 bits.1;
        ntime_decoded = bs;
        ntime_read = read;
        lowest_first = value;
        ntime_small = omega (arith, value, small);
        no_branch = refl;
        no_assembly = refl;
      })
