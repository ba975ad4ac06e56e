-- ===== src/Coin/Candidate/Keeps.antt =====
-- What a submission may do to the state of the submitter.
use azcoin_stratum_pool.Prelude.{
  Bool, Option, none, some, String, Result, sym, ap, ◌∙◌, inl, inr, subst, Result-cases,
  Option-cases,
}
use azcoin_stratum_pool.PoolCore.Types.{Bytes, Job, BlockAssemblyData, BlockCandidate}
use azcoin_stratum_pool.Coin.Coinbase.{Bitcoin}
use azcoin_stratum_pool.Coin.RawBlock.{build_raw_block}
use azcoin_stratum_pool.Coin.RawBlock.Laws.{build_raw_block_iff}
use azcoin_stratum_pool.Coin.Candidate.{
  CandidateSubmissionResult, reconstruct_miner_coinbase, block_coinbase, submit_raw,
  submit_block_candidate,
}
use azcoin_stratum_pool.Coin.Candidate.Laws.{Sends, sent, submit-sent}

module _ {S : Type 0} (submit_block : S → BlockCandidate → S × Result Bool String) (b : Bitcoin)
    (Q : S → Type 0) where
  -- Of the state after a submission, which a panic does not reach.
  unfoldable pub After : Option (S × CandidateSubmissionResult) → Type 0
  After none = Unit
  After (some (s, r)) = Q s

  -- Whatever the submitter keeps when it is given the block of the job holds after the submission.
  pub submit-After :
      (s : S) (header : Bytes) (job : Job) (extranonce1 extra_nonce2 : Bytes)
      → Q s
      → ((block_assembly : BlockAssemblyData) (coinbase : Bytes)
          → Sends b header job extranonce1 extra_nonce2 block_assembly coinbase
          → Q (submit_block s (sent b header block_assembly coinbase)).0)
      → After (submit_block_candidate submit_block b s header job extranonce1 extra_nonce2)
  unfolding submit_block_candidate submit_raw Sends After
  submit-After s header job extranonce1 extra_nonce2 q given =
      elim (Option-cases job.block_assembly) [
        | inl e ↦ rw (e, submit_block_candidate) q
        | inr (a, e) ↦
            elim (Option-cases
              (block_coinbase b a (reconstruct_miner_coinbase job extranonce1 extra_nonce2))) [
                | inl f ↦ rw (e, submit_block_candidate) (rw (f) tt)
                | inr (r, f) ↦ elim (Result-cases r) [
                  | inr (m, g) ↦ rw (e, submit_block_candidate) (rw (f) (rw (g) q))
                  | inl (c, g) ↦
                      elim (Result-cases (build_raw_block b header c a.template_transactions)) [
                        | inr (m, k) ↦ rw (e, submit_block_candidate) (rw (f) (rw (g) (rw (k) q)))
                        | inl (raw, k) ↦
                            let can =
                              ((build_raw_block_iff b header c a.template_transactions raw).0
                                k).0 in
                            let sends : Sends b header job extranonce1 extra_nonce2 a c =
                              (e, f ∙ ap some g, can) in
                            let done =
                              submit-sent submit_block b s header job extranonce1 extra_nonce2 a c
                                sends in
                            subst After (sym done) (given a c sends)
                      ]
                ]
              ]
      ]
