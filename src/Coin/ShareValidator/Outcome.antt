-- ===== src/Coin/ShareValidator/Outcome.antt =====
-- What the validator decides, in numbers.
use azcoin_stratum_pool.Prelude.{
  ℕ, ◌*◌, ◌^◌, ◌/◌, ◌≤◌, ◌<◌, max, leb, String, [], ◌∷◌, ok, err, reverse, length-reverse,
  All-reverse, if◌then◌else◌, ◌≡◌, refl, ◌∙◌, ap, sym, arith, Result-cases, inl, inr,
}
use azcoin_stratum_pool.Prelude.Text.{format, decimal}
use azcoin_stratum_pool.Prelude.Words.{IsByte, be_value}
use azcoin_stratum_pool.PoolCore.Types.{
  Job, Bytes, ShareSubmission, accepted, block, low_difficulty, rejected,
}
use azcoin_stratum_pool.Coin.Target.{
  nbits_to_target, diff1_target, div_target_by_difficulty, leq_be,
}
use azcoin_stratum_pool.Coin.Target.Shape.{IsHash, nbits_to_target-IsHash, div_target-IsByte}
use azcoin_stratum_pool.Coin.Target.Value.{leq_be_iff, div_target_value}
use azcoin_stratum_pool.Coin.Header.{
  build_coinbase, double_sha256, apply_merkle_branch, resolved_version, build_block_header,
}
use azcoin_stratum_pool.Coin.ShareValidator.{
  build_share_validation_trace, validate_share, build_solved_block_header,
}

leq_be-leb : (a b : Bytes) → IsHash a → IsHash b → leq_be a b ≡ leb (be_value a) (be_value b)
leq_be-leb a b ha hb = ground (arith, leq_be_iff a b (ha.size ∙ sym hb.size) ha.bytes hb.bytes)

reverse-IsHash : (a : Bytes) → IsHash a → IsHash (reverse a)
reverse-IsHash a h = record {
  size = length-reverse a ∙ h.size;
  bytes = All-reverse IsByte a h.bytes;
}

abbrev diff1_value : ℕ
diff1_value = 0xffff * 256 ^ 26

diff1_target_value : be_value diff1_target ≡ diff1_value
unfolding be_value diff1_target
diff1_target_value = refl

diff1_target-IsHash : IsHash diff1_target
unfolding diff1_target
diff1_target-IsHash = nbits_to_target-IsHash 0x1d00ffff

share_target-IsHash : (d : ℕ) → d < 2 ^ 32 → IsHash (div_target_by_difficulty diff1_target d)
share_target-IsHash d h = record {
  size = (div_target_value diff1_target d diff1_target-IsHash.bytes h).1 ∙ diff1_target-IsHash.size;
  bytes = div_target-IsByte diff1_target d diff1_target-IsHash.bytes;
}

-- The header that a share stands for: the job's fields with the share's nonce and time, over the
-- merkle root of the coinbase that the share completes.
unfoldable pub share_header : (Bytes → Bytes) → Job → ShareSubmission → Bytes → ℕ → Bytes
share_header sha256 job share extranonce1 version =
    build_block_header version job.prev_hash
      (apply_merkle_branch sha256 (double_sha256 sha256 (build_coinbase job share extranonce1))
        job.merkle_branch)
      share.ntime job.nbits share.nonce

-- The number of a header's hash, which proof of work compares.
unfoldable pub hash_value : (Bytes → Bytes) → Bytes → ℕ
hash_value sha256 header = be_value (reverse (double_sha256 sha256 header))

module _ (sha256 : Bytes → Bytes) (hex_encode : Bytes → String)
    (digest_size : (input : Bytes) → IsHash (sha256 input)) where
  digest-IsHash : (header : Bytes) → IsHash (reverse (double_sha256 sha256 header))
  unfolding double_sha256
  digest-IsHash header = reverse-IsHash (sha256 (sha256 header)) (digest_size (sha256 header))

  share_target-leb :
      (hash : Bytes) (difficulty : ℕ)
      → difficulty < 2 ^ 32
      → IsHash hash
      → leq_be hash (div_target_by_difficulty diff1_target (max (max difficulty 1) 1))
        ≡ leb (be_value hash) (diff1_value / max difficulty 1)
  share_target-leb hash difficulty small h =
      let once : max (max difficulty 1) 1 ≡ max difficulty 1 = omega arith in
      let value =
        div_target_value diff1_target (max difficulty 1) diff1_target-IsHash.bytes (omega arith) in
      rw once (
        leq_be-leb hash (div_target_by_difficulty diff1_target (max difficulty 1)) h
          (share_target-IsHash (max difficulty 1) (omega arith))
        ∙ ap (leb (be_value hash)) (value.0 ∙ rw (diff1_target_value, once) refl))

  -- With digests of 32 bytes and a difficulty of 32 bits: once the version resolves, the hash of the share's header alone decides: a block if it is at
  -- most the target of the job's bits; else a share if it is at most the difficulty-1 target over
  -- the pool's difficulty (zero counting as one); else low difficulty.
  pub validate_share_outcome :
      (job : Job) (share : ShareSubmission) (extranonce1 : Bytes) (difficulty version : ℕ)
      → difficulty < 2 ^ 32
      → resolved_version job.version share ≡ ok version
      → let hash = hash_value sha256 (share_header sha256 job share extranonce1 version) in
        validate_share sha256 hex_encode job share extranonce1 difficulty ≡ (
          if leb hash (be_value (nbits_to_target job.nbits))
          then block
          else if leb hash (0xffff * 256 ^ 26 / max difficulty 1)
          then accepted
          else low_difficulty (
              format (
                "hash above pool target (pool difficulty "
                ∷ decimal (max difficulty 1)
                ∷ ")"
                ∷ [])))
  unfolding validate_share build_share_validation_trace hash_value share_header
  validate_share_outcome job share extranonce1 difficulty version small r =
      let hash : Bytes =
        reverse (double_sha256 sha256 (share_header sha256 job share extranonce1 version)) in
      let h : IsHash hash = digest-IsHash (share_header sha256 job share extranonce1 version) in
      rw (r, validate_share, build_share_validation_trace)
        (rw (leq_be-leb hash (nbits_to_target job.nbits) h (nbits_to_target-IsHash job.nbits))
          (rw (share_target-leb hash difficulty small h) refl))

  pub validate_share_refused :
      (job : Job) (share : ShareSubmission) (extranonce1 : Bytes) (difficulty : ℕ) (reason : String)
      → resolved_version job.version share ≡ err reason
      → validate_share sha256 hex_encode job share extranonce1 difficulty ≡ rejected reason
  unfolding validate_share build_share_validation_trace
  validate_share_refused job share extranonce1 difficulty reason r =
      rw (r, validate_share, build_share_validation_trace)

  pub solved-share_header :
      (job : Job) (share : ShareSubmission) (extranonce1 : Bytes) (version : ℕ)
      → resolved_version job.version share ≡ ok version
      → build_solved_block_header sha256 hex_encode job share extranonce1
        ≡ ok (share_header sha256 job share extranonce1 version)
  unfolding build_solved_block_header build_share_validation_trace share_header
  solved-share_header job share extranonce1 version r =
      rw (r, build_solved_block_header, build_share_validation_trace)

  -- With digests of 32 bytes and a difficulty of 32 bits: the header rebuilt for a share that was found to be a block is the header that was judged: it
  -- meets the target of the job's bits.
  pub block-solved_header :
      (job : Job) (share : ShareSubmission) (extranonce1 : Bytes) (difficulty : ℕ)
      → difficulty < 2 ^ 32
      → validate_share sha256 hex_encode job share extranonce1 difficulty ≡ block
      → (header : Bytes) × (build_solved_block_header sha256 hex_encode job share extranonce1
          ≡ ok header)
        × (hash_value sha256 header ≤ be_value (nbits_to_target job.nbits))
  block-solved_header job share extranonce1 difficulty small b =
      elim (Result-cases (resolved_version job.version share)) [
        | inl (version, r) ↦
            let outcome = validate_share_outcome job share extranonce1 difficulty version small r in
            (
              share_header sha256 job share extranonce1 version,
              solved-share_header job share extranonce1 version r,
              ground (arith, outcome, b),
            )
        | inr (reason, r) ↦
            let refused = validate_share_refused job share extranonce1 difficulty reason r in cc
      ]
