-- ===== src/App/System/Pushed.antt =====
-- A job on its way from its broadcast to the node.
use azcoin_stratum_pool.Prelude.{
  ◌^◌, ◌<◌, true, false, some, [], ◌∷◌, string_eq, nat_eq, ◌==◌, ◌≡◌, refl, sym, ap, ◌∙◌, subst,
}
use azcoin_stratum_pool.PoolCore.Types.{Bytes, Job}
use azcoin_stratum_pool.PoolCore.Registry.{get_job}
use azcoin_stratum_pool.PoolCore.Registry.Laws.{register_clean}
use azcoin_stratum_pool.Coin.Target.Shape.{IsHash}
use azcoin_stratum_pool.Coin.ShareValidator.{validate_share}
use azcoin_stratum_pool.Coin.ShareValidator.Outcome.{share_header}
use azcoin_stratum_pool.Coin.Candidate.Laws.{sent}
use azcoin_stratum_pool.Sv1.Messages.{Sv1Request}
use azcoin_stratum_pool.Sv1.Session.{SessionState, submit_success, Shared}
use azcoin_stratum_pool.Sv1.Server.{
  written, Io, request, pushed, response, is_authorized, already_notified, send_job_notify, notify,
  push, turn,
}
use azcoin_stratum_pool.App.Handler.{Pool, on_notify_sent}
use azcoin_stratum_pool.App.Handler.Laws.{Current}
use azcoin_stratum_pool.App.System.{Wiring, sv1_handler}
use azcoin_stratum_pool.App.System.Solved.{Solution, turn-solved}

module _ {N V O : Type 0} (w : Wiring N V O)
    (digest_size : (input : Bytes) → IsHash (w.sha256 input))
    (validator : w.share_processor.share_validator ≡ some (validate_share w.sha256 w.hex_encode))
    (small : w.share_processor.pool_difficulty < 2 ^ 32) where
  -- The job of a broadcast, once its notification is written, is registered, and the node, the counter
  -- and what the session negotiated are as before.
  pushed-registered :
      (s : SessionState) (job : Job) (g : Shared (Pool N)) (io : Io)
      → is_authorized s ≡ true
      → already_notified s job ≡ false
      → io.difficulty_io ≡ written
      → io.notify_io ≡ written
      → job.clean_jobs ≡ true
      → let t = turn (sv1_handler w) w.initial_difficulty w.json w.hex_decode (pushed job io) g s in
        (get_job t.shared.world.state.job_registry job.job_id ≡ some job)
        × (t.shared.world.node ≡ g.world.node)
        × (t.session_state ≡ record s { last_notify_job_id = some job.job_id })
        × (t.is_open ≡ true)
  unfolding turn push notify send_job_notify sv1_handler on_notify_sent
  pushed-registered s job g io auth fresh d n clean =
      let cleared = register_clean g.world.state.job_registry job job.job_id clean in
      let itself : (job.job_id == job.job_id) ≡ true =
        (string_eq.test_iff job.job_id job.job_id).1 refl in
      simp (auth, fresh, d, n, push, notify) (cleared ∙ rw itself refl, refl, refl, refl)

  -- From the broadcast of a job to its block. Digests have 32 bytes, the processor has the coin's
  -- validator and a difficulty of 32 bits. An authorized session that was not just notified of the job
  -- is pushed a job with `clean_jobs`, and its lines are written; the session then sends a share of that
  -- job as `Solution` asks (admitted, of the right length, with a version that resolves and a header
  -- whose hash the target of the job's bits admits), while the node still offers the job or offers none.
  -- Then the node is asked for its job and given the block over that header, and the session answers
  -- with success.
  pub pushed-solved :
      (s : SessionState) (job : Job) (g : Shared (Pool N)) (io io' : Io) (req : Sv1Request V)
      (m : Solution w (record s { last_notify_job_id = some job.job_id }) req job)
      → is_authorized s ≡ true
      → already_notified s job ≡ false
      → io.difficulty_io ≡ written
      → io.notify_io ≡ written
      → job.clean_jobs ≡ true
      → io'.response_io ≡ written
      → Current job (w.current_job g.world.node).1
      → let t = turn (sv1_handler w) w.initial_difficulty w.json w.hex_decode (pushed job io) g s in
        let t' =
          turn
            (sv1_handler w)
            w.initial_difficulty
            w.json
            w.hex_decode
            (request req io')
            t.shared
            t.session_state in
        (t'.shared.world.node
          ≡ (w.submit_block (w.current_job g.world.node).0 (
              sent w.bitcoin
                (share_header w.sha256 job m.share m.extranonce1 m.version)
                m.submittable.assembly
                m.submittable.coinbase)).0)
        × (t'.sent ≡ response submit_success ∷ [])
  pushed-solved s job g io io' req m auth fresh d n clean wrote now =
      let t = turn (sv1_handler w) w.initial_difficulty w.json w.hex_decode (pushed job io) g s in
      let (known, node, state, alive) = pushed-registered s job g io auth fresh d n clean in
      let now' : Current job (w.current_job t.shared.world.node).1 =
        subst (λ (x : N). Current job (w.current_job x).1) (sym node) now in
      let done =
        turn-solved w digest_size validator small
          (record s { last_notify_job_id = some job.job_id }) req job m t.shared io' wrote known
          now' in
      rw state (
        done.0
            ∙ ap
                (λ (x : N).
                  (w.submit_block (w.current_job x).0 (
                    sent w.bitcoin (share_header w.sha256 job m.share m.extranonce1 m.version)
                      m.submittable.assembly m.submittable.coinbase)).0)
                node,
        done.1,
      )
