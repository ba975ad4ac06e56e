-- ===== src/Coin/Candidate/Laws.antt =====
-- When a candidate reaches the submitter, and as what.
use azcoin_stratum_pool.Prelude.{String, Bool, some, Result, ok, ◌≡◌, refl}
use azcoin_stratum_pool.PoolCore.Types.{Bytes, Job, BlockAssemblyData, BlockCandidate}
use azcoin_stratum_pool.Coin.Coinbase.{Bitcoin}
use azcoin_stratum_pool.Coin.RawBlock.Laws.{CanAssemble, raw_block_bytes, build_raw_block_iff}
use azcoin_stratum_pool.Coin.Candidate.{
  reconstruct_miner_coinbase, block_coinbase, read_answer, block_candidate, submit_raw,
  submit_block_candidate,
}

module _ (b : Bitcoin) where
  -- What is asked of the job, the header and the two nonces, and the block that is then sent.
  unfoldable pub Sends : Bytes → Job → Bytes → Bytes → BlockAssemblyData → Bytes → Type 0
  Sends header job extranonce1 extra_nonce2 block_assembly coinbase =
      (job.block_assembly ≡ some block_assembly)
      × (block_coinbase b block_assembly (reconstruct_miner_coinbase job extranonce1 extra_nonce2)
          ≡ some (ok coinbase))
      × (CanAssemble b header coinbase block_assembly.template_transactions)

  unfoldable pub sent : Bytes → BlockAssemblyData → Bytes → BlockCandidate
  sent header block_assembly coinbase =
      block_candidate block_assembly
        (raw_block_bytes b header coinbase block_assembly.template_transactions)

module _ {S : Type 0} (submit_block : S → BlockCandidate → S × Result Bool String)
    (b : Bitcoin) where
  -- A job with its template's data, a coinbase that can be completed and bytes that can be assembled
  -- are sent as one block, once, and the result is the reading of the submitter's answer.
  pub submit-sent :
      (s : S) (header : Bytes) (job : Job) (extranonce1 extra_nonce2 : Bytes)
      (block_assembly : BlockAssemblyData) (coinbase : Bytes)
      → Sends b header job extranonce1 extra_nonce2 block_assembly coinbase
      → let answer = submit_block s (sent b header block_assembly coinbase) in
        submit_block_candidate submit_block b s header job extranonce1 extra_nonce2
        ≡ some (answer.0, read_answer answer.1)
  unfolding Sends sent submit_block_candidate submit_raw
  submit-sent s header job extranonce1 extra_nonce2 block_assembly coinbase (has, made, can) =
      let raw =
        (build_raw_block_iff b header coinbase block_assembly.template_transactions _).1
          (can, refl) in
      rw (has, submit_block_candidate) (rw (made) (rw raw refl))
