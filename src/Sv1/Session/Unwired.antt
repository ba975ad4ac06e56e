-- ===== src/Sv1/Session/Unwired.antt =====
-- `SessionEventHandler for ()` of crates/protocol_sv1/src/server.rs: the handler of a listener that is
-- not wired to a pool.
use azcoin_stratum_pool.Prelude.{ℕ, String, Option, none, some, ok, ◌≡◌, ap, ◌∙◌, inl, inr}
use azcoin_stratum_pool.PoolCore.Types.{Bytes, rejected}
use azcoin_stratum_pool.Sv1.Session.{
  SessionState, SessionEventHandler, Shared, build_submit_reject, submit_outcome, dispatch_submit,
}
use azcoin_stratum_pool.Sv1.Session.Laws.{dispatch_submit-Decided}

abbrev pub unwired : SessionEventHandler (Unit {0})
unwired = record {
  on_connect = λ w. w;
  on_disconnect = λ w. w;
  on_authorize = λ w username. (w, ok none);
  on_notify_sent = λ w job. w;
  on_submit = λ w share. (w, some (rejected "submit not wired"));
}

-- Without a pool every submission is answered with a reject, whatever the session's state.
pub dispatch_submit-unwired :
    (g : Shared (Unit {0})) (s : SessionState) (username job_id : String) (extra_nonce2 : Bytes)
    (ntime nonce : ℕ) (bits : Option ℕ)
    → (reason : String) × ((dispatch_submit unwired g s username job_id extra_nonce2 ntime nonce
          bits).response
        ≡ some (build_submit_reject reason))
unfolding submit_outcome
dispatch_submit-unwired g s username job_id extra_nonce2 ntime nonce bits =
    elim (dispatch_submit-Decided unwired g s username job_id extra_nonce2 ntime nonce bits) [
      | inl (worker, answer, a, given, world, response, state) ↦
          ("submit not wired", response ∙ ap (λ x. submit_outcome x.1) given)
      | inr (reason, refused, response, same, state) ↦ (reason, response)
    ]
