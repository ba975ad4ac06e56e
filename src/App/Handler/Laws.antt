-- ===== src/App/Handler/Laws.antt =====
-- When a submitted share reaches the node, and with which block.
use azcoin_stratum_pool.Prelude.{
  ℕ, suc, ◌^◌, ◌<◌, ◌≤◌, String, Bool, true, false, Option, none, some, Result, ok, length, All,
  ◌≡◌, ◌≢◌, refl, sym, ap, ◌∙◌, ◌⊎◌, inl, inr, arith, Bool-cases, Option-cases, string_eq, nat_eq,
  ◌==◌, test-ne,
}
use azcoin_stratum_pool.Prelude.Words.{be_value}
use azcoin_stratum_pool.PoolCore.Types.{
  Bytes, Job, BlockAssemblyData, ShareSubmission, ShareResult, accepted, block, low_difficulty,
  malformed, unknown_job, rejected, BlockCandidate,
}
use azcoin_stratum_pool.PoolCore.Registry.{ActiveJobRegistry, get_job}
use azcoin_stratum_pool.PoolCore.Processor.{
  JobAwareShareProcessor, PoolState, session_extranonce1, process_share, record_share_result,
  check_extra_nonce2, check_version_bits, check_context, validate_known, verdict,
}
use azcoin_stratum_pool.Coin.Target.{nbits_to_target}
use azcoin_stratum_pool.Coin.Target.Shape.{IsHash}
use azcoin_stratum_pool.Coin.Header.{build_coinbase}
use azcoin_stratum_pool.Coin.Coinbase.{Bitcoin}
use azcoin_stratum_pool.Coin.ShareValidator.{validate_share, build_solved_block_header}
use azcoin_stratum_pool.Coin.ShareValidator.Outcome.{hash_value}
use azcoin_stratum_pool.Coin.RawBlock.Laws.{Readable}
use azcoin_stratum_pool.Coin.Candidate.{block_coinbase, read_answer}
use azcoin_stratum_pool.Coin.Candidate.Laws.{sent}
use azcoin_stratum_pool.Coin.Candidate.Solved.{block_reaches_submitter}
use azcoin_stratum_pool.App.Handler.{
  Pool, stale, answered, block_height, is_stale, is_block, returned, told, submit_solved,
  maybe_submit_block_candidate, on_submit,
}

not_block : (r : ShareResult) → r ≢ block → is_block r ≡ false
not_block accepted h = refl
not_block block h = absurd (h refl)
not_block (low_difficulty r) h = refl
not_block (malformed r) h = refl
not_block (unknown_job r) h = refl
not_block (rejected r) h = refl

module _ (hex_decode : String → Option Bytes) (processor : JobAwareShareProcessor) where
  check_context-not_block : (share : ShareSubmission) → check_context share ≢ some block
  unfolding check_context check_extra_nonce2 check_version_bits
  check_context-not_block share h = ground (arith, h)

  pub registry_kept :
      (s : PoolState) (share : ShareSubmission) (result : ShareResult)
      → (record_share_result processor s share result).job_registry ≡ s.job_registry
  unfolding record_share_result
  registry_kept s share result = ground arith

  -- What a block share passed.
  pub verdict-block :
      (registry : ActiveJobRegistry) (share : ShareSubmission) (job : Job) (extranonce1 : Bytes)
      (validator : Job → ShareSubmission → Bytes → ℕ → ShareResult)
      → processor.share_validator ≡ some validator
      → get_job registry share.job_id ≡ some job
      → session_extranonce1 hex_decode share ≡ some extranonce1
      → verdict hex_decode processor registry share ≡ block
      → validator job share extranonce1 processor.pool_difficulty ≡ block
  unfolding verdict validate_known
  verdict-block registry share job extranonce1 validator v g x h =
      elim (Option-cases (check_context share)) [
        | inr (r, e) ↦
            let same : r ≡ block = ground (arith, e, h) in
            absurd (check_context-not_block share (e ∙ ap some same))
        | inl e ↦ sym (rw (e, verdict) (rw (g) (rw (v, validate_known) (rw (x) refl)))) ∙ h
      ]

-- The node offers no job, or one with the same id and the same height.
unfoldable pub Current : Job → Option Job → Type 0
Current job answer =
    (answer ≡ none)
    ⊎ ((current : Job) × (answer ≡ some current)
        × (current.job_id ≡ job.job_id)
        × (block_height current ≡ block_height job))

Current-is_stale :
    (job : Job) (answer : Option Job) → Current job answer → is_stale job answer ≡ false
unfolding Current is_stale
Current-is_stale job answer (inl e) = rw (e, is_stale) refl
Current-is_stale job answer (inr (current, e, id, height)) =
    let same_id = (string_eq.test_iff current.job_id job.job_id).1 id in
    let same_height = (nat_eq.test_iff (block_height current) (block_height job)).1 height in
    rw (e, is_stale) (rw (same_id, same_height) refl)

stale_differs :
    (job current : Job)
    → (current.job_id ≢ job.job_id) ⊎ (block_height current ≢ block_height job)
    → is_stale job (some current) ≡ true
unfolding is_stale
stale_differs job current (inl id) = rw (test-ne current.job_id job.job_id id, is_stale) refl
stale_differs job current (inr height) = elim (Bool-cases (current.job_id == job.job_id)) [
  | inl e ↦ rw (e, is_stale) (rw (test-ne (block_height current) (block_height job) height) refl)
  | inr e ↦ rw (e, is_stale) refl
]

-- What a solved share of a current job is submitted with: the job's data and its coinbase, complete.
pub record Submittable (b : Bitcoin) (job : Job) (share : ShareSubmission) (extranonce1 : Bytes)
    : Type 0 where
  pub hash_size : length job.prev_hash ≡ 32
  pub assembly : BlockAssemblyData
  pub has_assembly : job.block_assembly ≡ some assembly
  pub coinbase : Bytes
  pub coinbase_made :
      block_coinbase b assembly (build_coinbase job share extranonce1) ≡ some (ok coinbase)
  pub coinbase_reads : Readable b coinbase
  pub transactions_read : All (Readable b) assembly.template_transactions
  pub few : suc (length assembly.template_transactions) < 2 ^ 64

module _ {N : Type 0} (current_job : N → N × Option Job) (hex_decode : String → Option Bytes)
    (sha256 : Bytes → Bytes) (hex_encode : Bytes → String) (b : Bitcoin)
    (submit_block : N → BlockCandidate → N × Result Bool String)
    (processor : JobAwareShareProcessor) where
  -- Whatever is submitted, a share that is no block leaves the node as it was.
  pub on_submit_other :
      (pool : Pool N) (share : ShareSubmission)
      → (process_share hex_decode processor pool.state share).0 ≢ block
      → let after =
          on_submit current_job hex_decode sha256 hex_encode b submit_block processor pool share in
        (after.0.node ≡ pool.node)
        × (after.1 ≡ some (process_share hex_decode processor pool.state share).0)
  unfolding on_submit process_share
  on_submit_other pool share h =
      let other : is_block (verdict hex_decode processor pool.state.job_registry share) ≡ false =
        not_block _ h in
      simp (other, on_submit) (refl, refl)

  pub on_submit_maybe :
      (pool : Pool N) (share : ShareSubmission)
      → (process_share hex_decode processor pool.state share).0 ≡ block
      → let after =
          on_submit current_job hex_decode sha256 hex_encode b submit_block processor pool share in
        let tried =
          maybe_submit_block_candidate current_job hex_decode sha256 hex_encode b submit_block
            pool.node pool.state.job_registry share in
        (after.0.node ≡ tried.0) × (after.1 ≡ returned block tried.1)
  unfolding on_submit process_share returned
  on_submit_maybe pool share h =
      let kept = registry_kept hex_decode processor pool.state share block in
      let judged : verdict hex_decode processor pool.state.job_registry share ≡ block = h in
      simp (judged, kept, on_submit) (refl, refl)

  -- A block share whose job is registered, while the node offers a job with another id or of another
  -- height, is answered as a block, and the node is asked for its job and for nothing else.
  pub on_submit_stale :
      (pool : Pool N) (share : ShareSubmission) (job current : Job)
      → (process_share hex_decode processor pool.state share).0 ≡ block
      → get_job pool.state.job_registry share.job_id ≡ some job
      → (current_job pool.node).1 ≡ some current
      → (current.job_id ≢ job.job_id) ⊎ (block_height current ≢ block_height job)
      → let after =
          on_submit current_job hex_decode sha256 hex_encode b submit_block processor pool share in
        (after.0.node ≡ (current_job pool.node).0) × (after.1 ≡ some block)
  unfolding maybe_submit_block_candidate returned
  on_submit_stale pool share job current judged known offered differs =
      let old : is_stale job (current_job pool.node).1 ≡ true =
        ap (is_stale job) offered ∙ stale_differs job current differs in
      let reached = on_submit_maybe pool share judged in
      let tried : maybe_submit_block_candidate current_job hex_decode sha256 hex_encode b
            submit_block pool.node pool.state.job_registry share
          ≡ ((current_job pool.node).0, stale) =
        rw (known, maybe_submit_block_candidate) (rw (old) refl) in
      (reached.0 ∙ ap (λ t. t.0) tried, reached.1 ∙ ap (λ t. returned block t.1) tried)

  -- With the coin's validator, a block share whose job is registered, while the node offers no job or
  -- one with the same id and height, is submitted: the header is rebuilt from it, hashes to a number
  -- that the target of the job's bits admits, and the node is asked for its current job and then given
  -- the block over that header, once; the session is answered with a block. Digests have 32 bytes, the
  -- difficulty has 32 bits, extranonce1 is hexadecimal or absent, and the job's data and its coinbase
  -- are complete.
  pub on_submit-block :
      (digest_size : (input : Bytes) → IsHash (sha256 input)) (pool : Pool N)
      (share : ShareSubmission) (job : Job) (extranonce1 : Bytes)
      (submittable : Submittable b job share extranonce1)
      → processor.share_validator ≡ some (validate_share sha256 hex_encode)
      → processor.pool_difficulty < 2 ^ 32
      → get_job pool.state.job_registry share.job_id ≡ some job
      → session_extranonce1 hex_decode share ≡ some extranonce1
      → Current job (current_job pool.node).1
      → (process_share hex_decode processor pool.state share).0 ≡ block
      → let after =
          on_submit current_job hex_decode sha256 hex_encode b submit_block processor pool share in
        (header : Bytes) × (build_solved_block_header sha256 hex_encode job share extranonce1
          ≡ ok header)
        × (hash_value sha256 header ≤ be_value (nbits_to_target job.nbits))
        × (after.0.node
            ≡ (submit_block
                (current_job pool.node).0
                (sent b header submittable.assembly submittable.coinbase)).0)
        × (after.1 ≡ some block)
  unfolding maybe_submit_block_candidate submit_solved told returned process_share
  on_submit-block digest_size pool share job extranonce1 sub validator small known extra now
        judged =
      let fresh = Current-is_stale job (current_job pool.node).1 now in
      let valid =
        verdict-block hex_decode processor pool.state.job_registry share job extranonce1 _ validator
          known extra judged in
      let (header, built, meets, submitted_as) =
        block_reaches_submitter sha256 hex_encode digest_size submit_block b
          (current_job pool.node).0 job share extranonce1 processor.pool_difficulty sub.assembly
          sub.coinbase small sub.hash_size sub.has_assembly sub.coinbase_made sub.coinbase_reads
          sub.transactions_read sub.few valid in
      let reached = on_submit_maybe pool share judged in
      let tried : maybe_submit_block_candidate current_job hex_decode sha256 hex_encode b
            submit_block pool.node pool.state.job_registry share
          ≡ (
            (submit_block (current_job pool.node).0 (sent b header sub.assembly sub.coinbase)).0,
            answered (
                read_answer
                  (submit_block (current_job pool.node).0
                    (sent b header sub.assembly sub.coinbase)).1),
          ) =
        rw (known, maybe_submit_block_candidate)
          (rw (fresh) (rw (extra, submit_solved) (rw (built) (rw (submitted_as) refl)))) in
      (
        header,
        built,
        meets,
        reached.0 ∙ ap (λ t. t.0) tried,
        reached.1 ∙ ap (λ t. returned block t.1) tried,
      )
