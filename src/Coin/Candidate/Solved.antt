-- ===== src/Coin/Candidate/Solved.antt =====
-- From a share that is judged a block to the block that reaches the submitter.
use azcoin_stratum_pool.Prelude.{
  ℕ, ◌≤◌, ◌<◌, ◌^◌, String, Bool, some, List, [], Result, ok, ◌∷◌, ◌++◌, suc, All, length,
  length-append, ok-injective, Result-cases, inl, inr, ◌≡◌, refl, sym, ap, ◌∙◌, arith,
}
use azcoin_stratum_pool.Prelude.Words.{be_value, length-le_bytes}
use azcoin_stratum_pool.PoolCore.Types.{
  Bytes, Job, BlockAssemblyData, BlockCandidate, ShareSubmission, block,
}
use azcoin_stratum_pool.Coin.Target.{nbits_to_target}
use azcoin_stratum_pool.Coin.Target.Shape.{IsHash}
use azcoin_stratum_pool.Coin.Header.{
  double_sha256, apply_merkle_branch, build_coinbase, build_block_header, resolved_version,
}
use azcoin_stratum_pool.Coin.ShareValidator.{
  validate_share, build_share_validation_trace, build_solved_block_header,
}
use azcoin_stratum_pool.Coin.ShareValidator.Outcome.{
  hash_value, share_header, block-solved_header, solved-share_header,
}
use azcoin_stratum_pool.Coin.Coinbase.{Bitcoin}
use azcoin_stratum_pool.Coin.RawBlock.Laws.{Readable, CanAssemble}
use azcoin_stratum_pool.Coin.Candidate.{
  block_coinbase, reconstruct_miner_coinbase, read_answer, submit_block_candidate,
}
use azcoin_stratum_pool.Coin.Candidate.Laws.{Sends, sent, submit-sent}

module _ (sha256 : Bytes → Bytes) (hex_encode : Bytes → String)
    (digest_size : (input : Bytes) → IsHash (sha256 input)) where
  merkle_root-size :
      (root : Bytes) (branch : List Bytes)
      → length root ≡ 32
      → length (apply_merkle_branch sha256 root branch) ≡ 32
  unfolding apply_merkle_branch double_sha256
  merkle_root-size root [] h = h
  merkle_root-size root (sibling ∷ rest) h =
      merkle_root-size (sha256 (sha256 (root ++ sibling))) rest
        (digest_size (sha256 (root ++ sibling))).size

  header_size :
      (version : ℕ) (prev_hash merkle_root : Bytes) (ntime nbits nonce : ℕ)
      → length prev_hash ≡ 32
      → length merkle_root ≡ 32
      → length (build_block_header version prev_hash merkle_root ntime nbits nonce) ≡ 80
  unfolding build_block_header
  header_size version prev_hash merkle_root ntime nbits nonce hp hm =
      simp (length-append, length-le_bytes, hp, hm) refl

  share_header-size :
      (job : Job) (share : ShareSubmission) (extranonce1 : Bytes) (version : ℕ)
      → length job.prev_hash ≡ 32
      → length (share_header sha256 job share extranonce1 version) ≡ 80
  unfolding share_header double_sha256
  share_header-size job share extranonce1 version h =
      header_size version job.prev_hash _ share.ntime job.nbits share.nonce h (
        merkle_root-size _ job.merkle_branch
          (digest_size (sha256 (build_coinbase job share extranonce1))).size)

  solved_header-size :
      (job : Job) (share : ShareSubmission) (extranonce1 header : Bytes)
      → length job.prev_hash ≡ 32
      → build_solved_block_header sha256 hex_encode job share extranonce1 ≡ ok header
      → length header ≡ 80
  unfolding build_solved_block_header build_share_validation_trace
  solved_header-size job share extranonce1 header h made =
      elim (Result-cases (resolved_version job.version share)) [
        | inl (version, r) ↦
            let same =
              solved-share_header sha256 hex_encode digest_size job share extranonce1 version r in
            ap length (ok-injective (sym made ∙ same))
            ∙ share_header-size job share extranonce1 version h
        | inr (reason, r) ↦ absurd (ground (arith, made, r))
      ]

  module _ {S : Type 0} (submit_block : S → BlockCandidate → S × Result Bool String)
      (b : Bitcoin) where
    -- A share that the validator judges a block is sent: its header is rebuilt, hashes to a number
    -- that the target of the job's bits admits, and the block over that header, with the coinbase that
    -- the validator hashed, reaches the submitter, whose answer is the result. Digests and the job's
    -- previous hash have 32 bytes, the difficulty has 32 bits, the template's data is there, the
    -- coinbase can be completed, it and the transactions deserialize, and there are fewer than
    -- 2 ^ 64 of them.
    pub block_reaches_submitter :
        (s : S) (job : Job) (share : ShareSubmission) (extranonce1 : Bytes) (difficulty : ℕ)
        (block_assembly : BlockAssemblyData) (coinbase : Bytes)
        → difficulty < 2 ^ 32
        → length job.prev_hash ≡ 32
        → job.block_assembly ≡ some block_assembly
        → block_coinbase b block_assembly (build_coinbase job share extranonce1)
          ≡ some (ok coinbase)
        → Readable b coinbase
        → All (Readable b) block_assembly.template_transactions
        → suc (length block_assembly.template_transactions) < 2 ^ 64
        → validate_share sha256 hex_encode job share extranonce1 difficulty ≡ block
        → (header : Bytes) × (build_solved_block_header sha256 hex_encode job share extranonce1
            ≡ ok header)
          × (hash_value sha256 header ≤ be_value (nbits_to_target job.nbits))
          × (let answer = submit_block s (sent b header block_assembly coinbase) in
              submit_block_candidate submit_block b s header job extranonce1 share.extra_nonce2
              ≡ some (answer.0, read_answer answer.1))
    unfolding build_coinbase reconstruct_miner_coinbase Sends CanAssemble
    block_reaches_submitter s job share extranonce1 difficulty block_assembly coinbase small
          hash_size has made reads all few judged =
        let solved =
          block-solved_header sha256 hex_encode digest_size job share extranonce1 difficulty small
            judged in
        let size = solved_header-size job share extranonce1 solved.0 hash_size solved.1 in
        (
          solved.0,
          solved.1,
          solved.2,
          submit-sent submit_block b s solved.0 job extranonce1 share.extra_nonce2 block_assembly
              coinbase (has, made, (size, reads, all, few)),
        )
