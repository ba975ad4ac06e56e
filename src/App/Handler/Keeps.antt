-- ===== src/App/Handler/Keeps.antt =====
-- What a submitted share may do to the node.
use azcoin_stratum_pool.Prelude.{
  ◌^◌, ◌<◌, ◌≤◌, String, Bool, Option, none, some, Result, ok, ok-injective, ◌≡◌, ◌≢◌, refl, sym,
  ap, ◌∙◌, inl, inr, subst, Bool-cases, Option-cases, Result-cases, true, false,
}
use azcoin_stratum_pool.Prelude.Words.{be_value}
use azcoin_stratum_pool.PoolCore.Types.{
  Bytes, Job, BlockAssemblyData, ShareSubmission, ShareResult, block, BlockCandidate,
}
use azcoin_stratum_pool.PoolCore.Registry.{ActiveJobRegistry, get_job}
use azcoin_stratum_pool.PoolCore.Processor.{
  JobAwareShareProcessor, session_extranonce1, process_share, verdict,
}
use azcoin_stratum_pool.Coin.Target.{nbits_to_target}
use azcoin_stratum_pool.Coin.Target.Shape.{IsHash}
use azcoin_stratum_pool.Coin.Coinbase.{Bitcoin}
use azcoin_stratum_pool.Coin.ShareValidator.{validate_share, build_solved_block_header}
use azcoin_stratum_pool.Coin.ShareValidator.Outcome.{hash_value, block-solved_header}
use azcoin_stratum_pool.Coin.Candidate.{CandidateSubmissionResult}
use azcoin_stratum_pool.Coin.Candidate.Laws.{Sends, sent}
use azcoin_stratum_pool.Coin.Candidate.Keeps.{After, submit-After}
use azcoin_stratum_pool.App.Handler.{
  Pool, is_stale, is_block, told, submit_solved, maybe_submit_block_candidate, on_submit,
}
use azcoin_stratum_pool.App.Handler.Laws.{
  registry_kept, verdict-block, on_submit_other, on_submit_maybe,
}

-- A candidate over the header of a share of the job: its hash meets the target of the job's bits, and
-- the block holds the coinbase of the share and the transactions of the job's template.
pub record Solves (sha256 : Bytes → Bytes) (hex_encode : Bytes → String) (b : Bitcoin) (job : Job)
    (candidate : BlockCandidate) : Type 0 where
  pub share : ShareSubmission
  pub extranonce1 : Bytes
  pub header : Bytes
  pub block_assembly : BlockAssemblyData
  pub coinbase : Bytes
  pub rebuilt : build_solved_block_header sha256 hex_encode job share extranonce1 ≡ ok header
  pub meets : hash_value sha256 header ≤ be_value (nbits_to_target job.nbits)
  pub sends : Sends b header job extranonce1 share.extra_nonce2 block_assembly coinbase
  pub candidate_sent : candidate ≡ sent b header block_assembly coinbase

pub is_block→block : (r : ShareResult) → is_block r ≡ true → r ≡ block
is_block→block (ShareResult.accepted) h = cc
is_block→block (ShareResult.block) h = refl
is_block→block (ShareResult.low_difficulty r) h = cc
is_block→block (ShareResult.malformed r) h = cc
is_block→block (ShareResult.unknown_job r) h = cc
is_block→block (ShareResult.rejected r) h = cc

module _ {N : Type 0} (current_job : N → N × Option Job) (hex_decode : String → Option Bytes)
    (sha256 : Bytes → Bytes) (hex_encode : Bytes → String) (b : Bitcoin)
    (submit_block : N → BlockCandidate → N × Result Bool String)
    (processor : JobAwareShareProcessor) where
  -- A submission changes neither the counters nor the registered jobs.
  pub on_submit-kept :
      (pool : Pool N) (share : ShareSubmission)
      → let after =
          (on_submit current_job hex_decode sha256 hex_encode b submit_block processor pool
            share).0 in
        (after.stats ≡ pool.stats) × (after.state.job_registry ≡ pool.state.job_registry)
  unfolding on_submit process_share
  on_submit-kept pool share =
      let kept = registry_kept hex_decode processor pool.state share _ in
      elim (Bool-cases (is_block (verdict hex_decode processor pool.state.job_registry share))) [
        | inl e ↦ rw (e, on_submit) (refl, kept)
        | inr e ↦ rw (e, on_submit) (refl, kept)
      ]

module _ {N : Type 0} (current_job : N → N × Option Job) (hex_decode : String → Option Bytes)
    (sha256 : Bytes → Bytes) (hex_encode : Bytes → String) (b : Bitcoin)
    (submit_block : N → BlockCandidate → N × Result Bool String) (Q : N → Type 0)
    (asked : (n : N) → Q n → Q (current_job n).0) where
  told-After :
      (n : N) (r : Option (N × CandidateSubmissionResult))
      → Q n
      → After submit_block b Q r
      → Q (told n r).0
  unfolding told After
  told-After n none q h = q
  told-After n (some (n', r)) q h = h

  -- With the candidates that may be given, the job being the one that is registered for the share.
  module _ (share : ShareSubmission) (job : Job)
      (given : (n : N) (extranonce1 header : Bytes) (block_assembly : BlockAssemblyData)
          (coinbase : Bytes)
        → session_extranonce1 hex_decode share ≡ some extranonce1
        → build_solved_block_header sha256 hex_encode job share extranonce1 ≡ ok header
        → Sends b header job extranonce1 share.extra_nonce2 block_assembly coinbase
        → Q n
        → Q (submit_block n (sent b header block_assembly coinbase)).0) where
    submit_solved-Keeps :
        (n : N)
        → Q n
        → Q (submit_solved current_job hex_decode sha256 hex_encode b submit_block n job share).0
    unfolding submit_solved
    submit_solved-Keeps n q = elim (Option-cases (session_extranonce1 hex_decode share)) [
      | inl e ↦ rw (e, submit_solved) q
      | inr (x, e) ↦ elim (Result-cases (build_solved_block_header sha256 hex_encode job share x)) [
        | inr (m, f) ↦ rw (e, submit_solved) (rw (f) q)
        | inl (header, f) ↦
            rw (e, submit_solved)
              (rw (f) (
                told-After n _ q (
                  submit-After submit_block b Q n header job x share.extra_nonce2 q
                    (λ a c sends. given n x header a c e f sends q))))
      ]
    ]

    pub maybe-Keeps :
        (n : N) (registry : ActiveJobRegistry)
        → get_job registry share.job_id ≡ some job
        → Q n
        → Q
            (maybe_submit_block_candidate current_job hex_decode sha256 hex_encode b submit_block n
              registry share).0
    unfolding maybe_submit_block_candidate
    maybe-Keeps n registry known q = elim (Bool-cases (is_stale job (current_job n).1)) [
      | inl e ↦ rw (known, maybe_submit_block_candidate) (rw (e) (asked n q))
      | inr e ↦
          rw (known, maybe_submit_block_candidate)
            (rw (e) (submit_solved-Keeps (current_job n).0 (asked n q)))
    ]

  -- With the coin's validator, digests of 32 bytes and a difficulty of 32 bits, whatever the node
  -- keeps when it is asked for a job and when it is given a solved block of a registered job holds
  -- after any submission.
  pub on_submit-Keeps :
      (digest_size : (input : Bytes) → IsHash (sha256 input)) (processor : JobAwareShareProcessor)
      → processor.share_validator ≡ some (validate_share sha256 hex_encode)
      → processor.pool_difficulty < 2 ^ 32
      → (pool : Pool N) (share : ShareSubmission)
      → ((n : N) (job : Job) (candidate : BlockCandidate)
          → get_job pool.state.job_registry share.job_id ≡ some job
          → Solves sha256 hex_encode b job candidate
          → Q n
          → Q (submit_block n candidate).0)
      → Q pool.node
      → Q
          (on_submit current_job hex_decode sha256 hex_encode b submit_block processor pool
            share).0.node
  unfolding maybe_submit_block_candidate process_share
  on_submit-Keeps digest_size processor validator small pool share solved q =
      elim (Bool-cases (is_block (process_share hex_decode processor pool.state share).0)) [
        | inr other ↦
            let differs : (process_share hex_decode processor pool.state share).0 ≢ block =
              λ e. let f : true ≡ false = sym (ap is_block e) ∙ other in cc in
            subst Q
              (sym
                (on_submit_other current_job hex_decode sha256 hex_encode b submit_block processor
                  pool share differs).0)
              q
        | inl is ↦
            let judged = is_block→block _ is in
            subst Q
              (sym
                (on_submit_maybe current_job hex_decode sha256 hex_encode b submit_block processor
                  pool share judged).0)
              (elim (Option-cases (get_job pool.state.job_registry share.job_id)) [
                | inl gone ↦ rw (gone, maybe_submit_block_candidate) q
                | inr (job, known) ↦
                    maybe-Keeps share job
                      (λ n x header a c extra built sends held.
                        let valid =
                          verdict-block hex_decode processor pool.state.job_registry share job x _
                            validator known extra judged in
                        let (header', built', meets) =
                          block-solved_header sha256 hex_encode digest_size job share x
                            processor.pool_difficulty small valid in
                        let same : header' ≡ header = ok-injective (sym built' ∙ built) in
                        solved n job _ known
                          (record {
                            share = share;
                            extranonce1 = x;
                            header = header;
                            block_assembly = a;
                            coinbase = c;
                            rebuilt = built;
                            meets =
                                subst
                                  (λ h. hash_value sha256 h ≤ be_value (nbits_to_target job.nbits))
                                  same meets;
                            sends = sends;
                            candidate_sent = refl;
                          })
                          held)
                      pool.node pool.state.job_registry known q
              ])
      ]
