-- ===== src/App/Handler/Node.antt =====
-- What a submitted share does to the node, whatever the share processor is.
use azcoin_stratum_pool.Prelude.{
  String, Bool, true, false, Option, some, Result, ◌≡◌, ◌≢◌, sym, ap, ◌∙◌, inl, inr, subst,
  Bool-cases, Option-cases,
}
use azcoin_stratum_pool.PoolCore.Types.{
  Bytes, Job, BlockAssemblyData, BlockCandidate, ShareSubmission, block,
}
use azcoin_stratum_pool.PoolCore.Registry.{get_job}
use azcoin_stratum_pool.PoolCore.Processor.{JobAwareShareProcessor, process_share}
use azcoin_stratum_pool.Coin.Coinbase.{Bitcoin}
use azcoin_stratum_pool.Coin.Candidate.Laws.{Sends}
use azcoin_stratum_pool.App.Handler.{Pool, is_block, maybe_submit_block_candidate, on_submit}
use azcoin_stratum_pool.App.Handler.Laws.{on_submit_other, on_submit_maybe}
use azcoin_stratum_pool.App.Handler.Keeps.{maybe-Keeps, is_block→block}

module _ {N : Type 0} (current_job : N → N × Option Job) (hex_decode : String → Option Bytes)
    (sha256 : Bytes → Bytes) (hex_encode : Bytes → String) (b : Bitcoin)
    (submit_block : N → BlockCandidate → N × Result Bool String) (Q : N → Type 0)
    (asked : (n : N) → Q n → Q (current_job n).0) where
  -- What the node keeps when it is asked, and when it is given a block of the registered job whose
  -- template's data is there, holds after any submission.
  pub on_submit-node :
      (processor : JobAwareShareProcessor) (pool : Pool N) (share : ShareSubmission)
      → ((n : N) (job : Job) (assembly : BlockAssemblyData) (candidate : BlockCandidate)
          → get_job pool.state.job_registry share.job_id ≡ some job
          → job.block_assembly ≡ some assembly
          → Q n
          → Q (submit_block n candidate).0)
      → Q pool.node
      → Q
          (on_submit current_job hex_decode sha256 hex_encode b submit_block processor pool
            share).0.node
  unfolding maybe_submit_block_candidate Sends
  on_submit-node processor pool share given q =
      elim (Bool-cases (is_block (process_share hex_decode processor pool.state share).0)) [
        | inr other ↦
            let differs : (process_share hex_decode processor pool.state share).0 ≢ block =
              λ e. let f : true ≡ false = sym (ap is_block e) ∙ other in cc in
            subst Q
              (sym
                (on_submit_other current_job hex_decode sha256 hex_encode b submit_block processor
                  pool share differs).0)
              q
        | inl is ↦
            subst Q
              (sym
                (on_submit_maybe current_job hex_decode sha256 hex_encode b submit_block processor
                  pool share (is_block→block _ is)).0)
              (elim (Option-cases (get_job pool.state.job_registry share.job_id)) [
                | inl gone ↦ rw (gone, maybe_submit_block_candidate) q
                | inr (job, known) ↦
                    maybe-Keeps current_job hex_decode sha256 hex_encode b submit_block Q asked
                      share job
                      (λ n x header a c extra built sends held. given n job a _ known sends.0 held)
                      pool.node pool.state.job_registry known q
              ])
      ]
