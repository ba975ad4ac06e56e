-- ===== src/Sv1/Session.antt =====
-- crates/protocol_sv1/src/{session_state,session,server}.rs: a session's state and `dispatch_request`.
-- A response is named by the builder of session.rs that makes it; its JSON is in Sv1.Notify. The
-- handler is a parameter with a state `W` that its calls change.
pub mod Laws
pub mod Unwired
pub mod Submission
use azcoin_stratum_pool.Prelude.{
  ℕ, zero, suc, ◌+◌, ◌%◌, ◌^◌, String, Bool, true, false, not, Option, none, some, List, [], ◌∷◌,
  Result, ok, err, if◌then◌else◌, string_eq, ◌==◌,
}
use azcoin_stratum_pool.Prelude.Text.{hex08}
use azcoin_stratum_pool.PoolCore.Types.{
  Bytes, Job, WorkerIdentity, ShareSubmission, ShareValidationContext, ShareResult, is_accepted,
  reject_reason,
}
use azcoin_stratum_pool.PoolCore.Worker
use azcoin_stratum_pool.Sv1.Messages.{
  Json, Sv1Request, Sv1VersionRollingConfig, Sv1DomainCommand, configure, subscribe, authorize,
  submit_share, negotiate_version_rolling,
}
use azcoin_stratum_pool.Sv1.Mapper.{and_then, map_request_to_command}

pub record SessionState : Type 0 where
  pub authorized_worker : Option WorkerIdentity
  pub subscribed : Bool
  pub extranonce1 : String
  pub extranonce2_size : ℕ
  pub version_rolling : Option Sv1VersionRollingConfig
  pub last_notify_job_id : Option String

-- `SessionState::default()`
abbrev pub new_session : SessionState
new_session = record {
  authorized_worker = none;
  subscribed = false;
  extranonce1 = "";
  extranonce2_size = 0;
  version_rolling = none;
  last_notify_job_id = none;
}

-- The builders of session.rs with their arguments, without the id. An error's code is negative:
-- `error_response 1 m` has the code -1.
pub data Sv1Response : Type 0 where
  configure_response : List String → Option Sv1VersionRollingConfig → Sv1Response
  subscribe_response : String → Sv1Response
  authorize_success : Sv1Response
  submit_success : Sv1Response
  error_response : ℕ → String → Sv1Response

-- `build_submit_reject`
unfoldable pub build_submit_reject : String → Sv1Response
build_submit_reject reason = error_response 1 reason

-- `SessionEventHandler`. `none` is a panic in `on_submit`.
pub record SessionEventHandler (W : Type 0) : Type 0 where
  pub on_connect : W → W
  pub on_disconnect : W → W
  pub on_authorize : W → String → W × Result (Option Job) String
  pub on_notify_sent : W → Job → W
  pub on_submit : W → ShareSubmission → W × Option ShareResult

-- What a session shares with the others: the counter `NEXT_EXTRANONCE1` and the handler's state.
pub record Shared (W : Type 0) : Type 0 where
  pub next_extranonce1 : ℕ
  pub world : W

-- The response is `none` where the handler panicked.
pub record Dispatched (W : Type 0) : Type 0 where
  pub notify_job : Option Job
  pub response : Option Sv1Response
  pub shared : Shared W
  pub session_state : SessionState

-- The share that is handed to the pool.
unfoldable pub session_share :
    SessionState → WorkerIdentity → String → Bytes → ℕ → ℕ → Option ℕ → ShareSubmission
session_share s worker job_id extra_nonce2 ntime nonce version_bits = record {
  job_id = job_id;
  worker = worker;
  extra_nonce2 = extra_nonce2;
  ntime = ntime;
  nonce = nonce;
  validation_context = some (record {
    expected_extra_nonce2_len = some s.extranonce2_size;
    extranonce1_hex = some s.extranonce1;
    version_rolling_mask = elim s.version_rolling [ none ↦ none | some cfg ↦ some cfg.mask ];
    version_bits = version_bits;
  });
}

-- `reject_reason.as_deref().unwrap_or("rejected")`
unfoldable pub submit_response : ShareResult → Sv1Response
submit_response result =
    if is_accepted result then submit_success else elim (reject_reason result) [
      | none ↦ build_submit_reject "rejected"
      | some reason ↦ build_submit_reject reason
    ]

unfoldable pub submit_outcome : Option ShareResult → Option Sv1Response
unfolding submit_response
submit_outcome none = none
submit_outcome (some result) = some (submit_response result)

-- Version bits without a negotiated mask.
unfoldable pub unnegotiated : SessionState → Option ℕ → Bool
unnegotiated s none = false
unnegotiated s (some bits) = elim s.version_rolling [ none ↦ true | some cfg ↦ false ]

module _ {W : Type 0} (handler : SessionEventHandler W) where
  unfoldable pub dispatch_subscribe : Shared W → SessionState → Dispatched W
  dispatch_subscribe g s = record {
    notify_job = none;
    response = some (subscribe_response (hex08 g.next_extranonce1));
    shared = record { next_extranonce1 = (g.next_extranonce1 + 1) % 2 ^ 32; world = g.world };
    session_state = record s {
      subscribed = true;
      extranonce1 = hex08 g.next_extranonce1;
      extranonce2_size = 4;
    };
  }

  unfoldable pub dispatch_authorize : Shared W → SessionState → String → Dispatched W
  dispatch_authorize g s username =
      let answer = handler.on_authorize g.world username in
      let g' : Shared W = record { next_extranonce1 = g.next_extranonce1; world = answer.0 } in
      elim answer.1 [
        | ok maybe_job ↦ record {
          notify_job = maybe_job;
          response = some authorize_success;
          shared = g';
          session_state = record s { authorized_worker = some (Worker.new username) };
        }
        | err msg ↦ record {
          notify_job = none;
          response = some (error_response 1 msg);
          shared = g';
          session_state = s;
        }
      ]

  unfoldable pub refuse : Shared W → SessionState → Sv1Response → Dispatched W
  refuse g s response = record {
    notify_job = none;
    response = some response;
    shared = g;
    session_state = s;
  }

  unfoldable pub dispatch_submit :
      Shared W → SessionState → String → String → Bytes → ℕ → ℕ → Option ℕ → Dispatched W
  dispatch_submit g s username job_id extra_nonce2 ntime nonce version_bits =
      elim s.authorized_worker [
        | none ↦ refuse g s (build_submit_reject "worker not authorized")
        | some worker ↦
            if not (worker.id == username)
            then refuse g s (build_submit_reject "username mismatch")
            else if unnegotiated s version_bits
            then refuse g s (build_submit_reject "version rolling not negotiated")
            else (let answer =
                  handler.on_submit g.world
                    (session_share s worker job_id extra_nonce2 ntime nonce version_bits) in
                record {
                  notify_job = none;
                  response = submit_outcome answer.1;
                  shared = record { next_extranonce1 = g.next_extranonce1; world = answer.0 };
                  session_state = s;
                })
      ]

  unfoldable pub dispatch_configure :
      Shared W → SessionState → List String → Option Sv1VersionRollingConfig → Dispatched W
  dispatch_configure g s extensions version_rolling =
      let negotiated = and_then negotiate_version_rolling version_rolling in
      record {
        notify_job = none;
        response = some (configure_response extensions negotiated);
        shared = g;
        session_state = record s { version_rolling = negotiated };
      }

  unfoldable pub dispatch_command : Sv1DomainCommand → Shared W → SessionState → Dispatched W
  dispatch_command (configure extensions version_rolling) g s =
      dispatch_configure g s extensions version_rolling
  dispatch_command subscribe g s = dispatch_subscribe g s
  dispatch_command (authorize username password) g s = dispatch_authorize g s username
  dispatch_command (submit_share username job_id extra_nonce2 ntime nonce version_bits) g s =
      dispatch_submit g s username job_id extra_nonce2 ntime nonce version_bits

  unfoldable pub dispatch_request :
      {V O : Type 0}
      → Json V O
      → (String → Result Bytes String)
      → Sv1Request V
      → Shared W
      → SessionState
      → Dispatched W
  dispatch_request json hex_decode req g s = elim (map_request_to_command json hex_decode req) [
    | ok (some command) ↦ dispatch_command command g s
    | ok none ↦ refuse g s (error_response 32601 "Method not found")
    | err msg ↦ refuse g s (build_submit_reject msg)
  ]
