-- ===== src/App/System/Solved.antt =====
-- A solved share on its way from a session's line to the node.
use azcoin_stratum_pool.Prelude.{
  ℕ, ◌^◌, ◌<◌, ◌≤◌, leb, String, true, Option, some, [], ◌∷◌, ok, ok-injective, length, bit_and,
  string_eq, nat_eq, ◌≡◌, refl, sym, ap, ◌∙◌, arith, inl, inr, Option-cases,
}
use azcoin_stratum_pool.Prelude.Bits.{complement}
use azcoin_stratum_pool.Prelude.Words.{be_value}
use azcoin_stratum_pool.PoolCore.Types.{
  Bytes, Job, WorkerIdentity, ShareSubmission, ShareValidationContext, block,
}
use azcoin_stratum_pool.PoolCore.Registry.{get_job}
use azcoin_stratum_pool.PoolCore.Processor.{
  session_extranonce1, validate_known, verdict, process_share,
}
use azcoin_stratum_pool.PoolCore.Processor.Laws.{FitsContext, FitsContext-check_context}
use azcoin_stratum_pool.Coin.Target.{nbits_to_target}
use azcoin_stratum_pool.Coin.Target.Shape.{IsHash}
use azcoin_stratum_pool.Coin.Header.{resolved_version}
use azcoin_stratum_pool.Coin.ShareValidator.{validate_share}
use azcoin_stratum_pool.Coin.ShareValidator.Outcome.{
  hash_value, share_header, validate_share_outcome, solved-share_header,
}
use azcoin_stratum_pool.Coin.Candidate.Laws.{sent}
use azcoin_stratum_pool.Sv1.Messages.{Sv1Request, submit_share}
use azcoin_stratum_pool.Sv1.Mapper.{map_request_to_command}
use azcoin_stratum_pool.Sv1.Session.{
  SessionState, submit_success, submit_response, Shared, session_share,
}
use azcoin_stratum_pool.Sv1.Session.Laws.{Admitted}
use azcoin_stratum_pool.Sv1.Server.Submission.{turn-submitted}
use azcoin_stratum_pool.Sv1.Server.{written, Io, request, response, turn}
use azcoin_stratum_pool.App.Handler.{Pool}
use azcoin_stratum_pool.App.Handler.Laws.{Current, Submittable, on_submit-block}
use azcoin_stratum_pool.App.System.{Wiring, decoded, sv1_handler}

leb-le : (a b : ℕ) → a ≤ b → leb a b ≡ true
leb-le a b h = ground arith

resolved-fits :
    (job_version version : ℕ) (share : ShareSubmission) (ctx : ShareValidationContext) (bits : ℕ)
    → share.validation_context ≡ some ctx
    → resolved_version job_version share ≡ ok version
    → ctx.version_bits ≡ some bits
    → (mask : ℕ) × (ctx.version_rolling_mask ≡ some mask) × (bit_and bits (complement 32 mask) ≡ 0)
unfolding resolved_version
resolved-fits job_version version share ctx bits c r e =
    elim (Option-cases ctx.version_rolling_mask) [
      | inl m ↦ absurd (ground (arith, c, r, e, m))
      | inr (mask, m) ↦ (mask, m, ground (arith, c, r, e, m))
    ]

-- The miner's message of a session, and the share that it stands for: what the miner has to get
-- right, with numbers in place of the code's tests.
pub record Solution {N V O : Type 0} (w : Wiring N V O) (s : SessionState) (req : Sv1Request V)
    (job : Job) : Type 0 where
  pub username : String
  pub extra_nonce2 : Bytes
  pub ntime : ℕ
  pub nonce : ℕ
  pub bits : Option ℕ
  pub mapped :
      map_request_to_command w.json w.hex_decode req
      ≡ ok (some (submit_share username job.job_id extra_nonce2 ntime nonce bits))
  pub worker : WorkerIdentity
  pub admitted : Admitted s username bits worker
  pub length_fits : length extra_nonce2 ≡ s.extranonce2_size
  pub extranonce1 : Bytes
  pub extranonce1_decodes : w.hex_decode s.extranonce1 ≡ ok extranonce1
  pub share : ShareSubmission
  pub share_is : share ≡ session_share s worker job.job_id extra_nonce2 ntime nonce bits
  pub version : ℕ
  pub resolves : resolved_version job.version share ≡ ok version
  pub meets :
      hash_value w.sha256 (share_header w.sha256 job share extranonce1 version)
      ≤ be_value (nbits_to_target job.nbits)
  pub submittable : Submittable w.bitcoin job share extranonce1

module _ {N V O : Type 0} (w : Wiring N V O)
    (digest_size : (input : Bytes) → IsHash (w.sha256 input))
    (validator : w.share_processor.share_validator ≡ some (validate_share w.sha256 w.hex_encode))
    (small : w.share_processor.pool_difficulty < 2 ^ 32) where
  module _ (s : SessionState) (req : Sv1Request V) (job : Job) (m : Solution w s req job) where
    extranonce1_of_share : session_extranonce1 (decoded w.hex_decode) m.share ≡ some m.extranonce1
    unfolding session_extranonce1 session_share decoded
    extranonce1_of_share = rw m.share_is (rw (m.extranonce1_decodes, decoded) refl)

    share-fits :
        (ctx : ShareValidationContext)
        → m.share.validation_context ≡ some ctx
        → FitsContext m.share ctx
    unfolding session_share
    share-fits ctx c = record {
      extra_nonce2_fits = λ n e. ground (arith, m.share_is, c, e, m.length_fits);
      version_bits_fit =
          λ bits e. resolved-fits job.version m.version m.share ctx bits c m.resolves e;
    }

    share-judged :
        validate_share w.sha256 w.hex_encode job m.share m.extranonce1
          w.share_processor.pool_difficulty
        ≡ block
    share-judged =
        validate_share_outcome w.sha256 w.hex_encode digest_size job m.share m.extranonce1
          w.share_processor.pool_difficulty m.version small m.resolves
        ∙ rw (leb-le _ _ m.meets) refl

    share-verdict :
        (pool : Pool N)
        → get_job pool.state.job_registry job.job_id ≡ some job
        → (process_share (decoded w.hex_decode) w.share_processor pool.state m.share).0 ≡ block
    unfolding process_share verdict validate_known session_share
    share-verdict pool known =
        let same_id : m.share.job_id ≡ job.job_id =
          ap (λ (x : ShareSubmission). x.job_id) m.share_is in
        let found : get_job pool.state.job_registry m.share.job_id ≡ some job =
          ap (get_job pool.state.job_registry) same_id ∙ known in
        rw (FitsContext-check_context m.share share-fits, verdict)
          (rw (found) (rw (validator, validate_known) (rw (extranonce1_of_share) share-judged)))

    -- Where digests have 32 bytes and the processor has the coin's validator and a difficulty of 32
    -- bits: a session's line with a share of a registered job that the node still offers, whose header
    -- hashes to a number that the target of the job's bits admits, makes the pool ask the node for its
    -- job and give it the block over that header, and the session answers with success.
    pub turn-solved :
        (g : Shared (Pool N)) (io : Io)
        → io.response_io ≡ written
        → get_job g.world.state.job_registry job.job_id ≡ some job
        → Current job (w.current_job g.world.node).1
        → let t =
            turn (sv1_handler w) w.initial_difficulty w.json w.hex_decode (request req io) g s in
          (t.shared.world.node
            ≡ (w.submit_block (w.current_job g.world.node).0 (
                sent w.bitcoin
                  (share_header w.sha256 job m.share m.extranonce1 m.version)
                  m.submittable.assembly
                  m.submittable.coinbase)).0)
          × (t.sent ≡ response submit_success ∷ [])
          × (t.is_open ≡ true)
    unfolding sv1_handler submit_response session_share
    turn-solved g io wrote known now =
        let same_id : m.share.job_id ≡ job.job_id =
          ap (λ (x : ShareSubmission). x.job_id) m.share_is in
        let (header, built, meets, node, result) =
          on_submit-block w.current_job (decoded w.hex_decode) w.sha256 w.hex_encode w.bitcoin
            w.submit_block w.share_processor digest_size g.world m.share job m.extranonce1
            m.submittable validator small (ap (get_job g.world.state.job_registry) same_id ∙ known)
            extranonce1_of_share now (share-verdict g.world known) in
        let same : header ≡ share_header w.sha256 job m.share m.extranonce1 m.version =
          ok-injective (
            sym built
            ∙ solved-share_header w.sha256 w.hex_encode digest_size job m.share m.extranonce1
                m.version m.resolves) in
        let submitted =
          turn-submitted (sv1_handler w) w.initial_difficulty w.json w.hex_decode g s req m.username
            job.job_id m.extra_nonce2 m.ntime m.nonce m.bits m.worker m.mapped m.admitted io block
            wrote
            (ap (λ (x : ShareSubmission). ((sv1_handler w).on_submit g.world x).1) (sym m.share_is)
              ∙ result) in
        (
          ap (λ (p : Pool N). p.node) submitted.0
              ∙ (ap (λ (x : ShareSubmission). ((sv1_handler w).on_submit g.world x).0.node)
                    (sym m.share_is)
                  ∙ (node
                      ∙ ap
                          (λ (h : Bytes).
                            (w.submit_block (w.current_job g.world.node).0
                              (sent w.bitcoin h m.submittable.assembly m.submittable.coinbase)).0)
                          same)),
          submitted.1,
          submitted.2,
        )
