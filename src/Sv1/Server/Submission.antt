-- ===== src/Sv1/Server/Submission.antt =====
-- The turn of a line that submits a share.
use azcoin_stratum_pool.Prelude.{
  ℕ, String, true, Option, none, some, [], ◌∷◌, Result, ok, string_eq, ◌==◌, ◌≡◌, refl,
}
use azcoin_stratum_pool.PoolCore.Types.{Bytes, WorkerIdentity, ShareResult}
use azcoin_stratum_pool.Sv1.Messages.{Json, Sv1Request, submit_share}
use azcoin_stratum_pool.Sv1.Mapper.{map_request_to_command}
use azcoin_stratum_pool.Sv1.Session.{
  SessionState, submit_response, submit_outcome, SessionEventHandler, Shared, session_share,
  dispatch_submit, dispatch_command, dispatch_request,
}
use azcoin_stratum_pool.Sv1.Session.Laws.{Admitted}
use azcoin_stratum_pool.Sv1.Server.{written, Io, request, response, stay, answer_with, answer, turn}

module _ {W V O : Type 0} (handler : SessionEventHandler W) (initial_difficulty : ℕ)
    (json : Json V O) (hex_decode : String → Result Bytes String) (g : Shared W) (s : SessionState)
    (req : Sv1Request V) (username job_id : String) (extra_nonce2 : Bytes) (ntime nonce : ℕ)
    (bits : Option ℕ) (worker : WorkerIdentity)
    (mapped : map_request_to_command json hex_decode req
      ≡ ok (some (submit_share username job_id extra_nonce2 ntime nonce bits)))
    (a : Admitted s username bits worker) where
  dispatched-submission :
      let answer =
        handler.on_submit g.world (session_share s worker job_id extra_nonce2 ntime nonce bits) in
      dispatch_request handler json hex_decode req g s ≡ record {
        notify_job = none;
        response = submit_outcome answer.1;
        shared = record { next_extranonce1 = g.next_extranonce1; world = answer.0 };
        session_state = s;
      }
  unfolding dispatch_request dispatch_command dispatch_submit
  dispatched-submission =
      let named : (worker.id == username) ≡ true =
        (string_eq.test_iff worker.id username).1 a.same_name in
      rw (mapped, dispatch_request) (simp (a.authorized, named, a.rolling, dispatch_submit) refl)

  -- What the pool answers to an admitted submission is the handler's new state and the line that is
  -- written, and the session goes on.
  pub turn-submitted :
      (io : Io) (result : ShareResult)
      → io.response_io ≡ written
      → let answer =
          handler.on_submit g.world (session_share s worker job_id extra_nonce2 ntime nonce bits) in
        answer.1 ≡ some result
        → let t = turn handler initial_difficulty json hex_decode (request req io) g s in
          (t.shared.world ≡ answer.0)
          × (t.sent ≡ response (submit_response result) ∷ [])
          × (t.is_open ≡ true)
  unfolding turn answer answer_with stay submit_outcome
  turn-submitted io result wrote said =
      rw (dispatched-submission) (rw (said, answer) (rw (wrote, answer_with) (refl, refl, refl)))
