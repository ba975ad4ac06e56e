-- ===== src/Sv1/Server.antt =====
-- crates/protocol_sv1/src/server.rs: the loop of a session, one turn of `select!` at a time, and the
-- listener with its sessions.
-- Whether a value serializes and a write succeeds is the environment's: each event says it.
pub mod Laws
pub mod Ids
pub mod Distinct
pub mod Reach
pub mod Keeps
pub mod Counted
pub mod Submission
pub mod Sessions
pub mod Soundness
pub mod Known
use azcoin_stratum_pool.Prelude.{
  ℕ, zero, suc, String, Bool, true, false, not, ◌&&◌, Option, none, some, List, [], ◌∷◌, ◌++◌,
  Result, if◌then◌else◌, string_eq, ◌==◌, get_elem?, set, take, drop, ◌≡◌, refl, ◌⊎◌, inl, inr,
}
use azcoin_stratum_pool.PoolCore.Types.{Bytes, Job}
use azcoin_stratum_pool.Sv1.Messages.{Json, Sv1Request}
use azcoin_stratum_pool.Sv1.Session.{
  SessionState, new_session, Sv1Response, error_response, SessionEventHandler, Shared, Dispatched,
  dispatch_request,
}

pub data WriteResult : Type 0 where
  unserializable : WriteResult
  failed : WriteResult
  written : WriteResult

-- What becomes of the lines that a turn may write.
pub record Io : Type 0 where
  pub response_io : WriteResult
  pub difficulty_io : WriteResult
  pub notify_io : WriteResult

-- What `select!` may see: of the socket a read error, its end, an empty line, a line that is no
-- request, a request; of the channel a job, a lag, its closing.
pub data Event (V : Type 0) : Type 0 where
  read_error : Event V
  end_of_stream : Event V
  blank_line : Event V
  bad_json : Io → Event V
  request : Sv1Request V → Io → Event V
  pushed : Job → Io → Event V
  lagged : Event V
  channel_closed : Event V

-- The lines that are written.
pub data Message : Type 0 where
  response : Sv1Response → Message
  set_difficulty : ℕ → Message
  mining_notify : Job → Message

-- `is_open` is false where the loop ends: by a break, or by a panic.
pub record Turn (W : Type 0) : Type 0 where
  pub shared : Shared W
  pub session_state : SessionState
  pub sent : List Message
  pub is_open : Bool
  pub panicked : Bool

abbrev pub is_written : WriteResult → Bool
is_written unserializable = false
is_written failed = false
is_written written = true

pub io-cases : (r : WriteResult) → (r ≡ unserializable) ⊎ ((r ≡ failed) ⊎ (r ≡ written))
io-cases unserializable = inl refl
io-cases failed = inr (inl refl)
io-cases written = inr (inr refl)

-- `send_job_notify`: the lines written, and whether the session is alive.
unfoldable pub send_job_notify : ℕ → Job → Io → List Message × Bool
send_job_notify initial_difficulty job io =
    if is_written io.difficulty_io
    then if is_written io.notify_io
      then (set_difficulty initial_difficulty ∷ mining_notify job ∷ [], true)
      else (set_difficulty initial_difficulty ∷ [], false)
    else ([], false)

-- `session_state.last_notify_job_id.as_deref() == Some(job.job_id.as_str())`
unfoldable pub already_notified : SessionState → Job → Bool
already_notified s job = elim s.last_notify_job_id [ none ↦ false | some id ↦ id == job.job_id ]

unfoldable pub is_authorized : SessionState → Bool
is_authorized s = elim s.authorized_worker [ none ↦ false | some worker ↦ true ]

module _ {W : Type 0} (handler : SessionEventHandler W) (initial_difficulty : ℕ) where
  -- A turn that ends with this state, without a further call of the handler.
  unfoldable pub stay : Shared W → SessionState → List Message → Bool → Turn W
  stay g s sent is_open = record {
    shared = g;
    session_state = s;
    sent = sent;
    is_open = is_open;
    panicked = false;
  }

  -- A panic unwinds the session's task.
  unfoldable pub crash : Shared W → SessionState → Turn W
  crash g s = record { shared = g; session_state = s; sent = []; is_open = false; panicked = true }

  -- Difficulty and notification, and after them the registration of the job.
  unfoldable pub notify : Shared W → SessionState → List Message → Job → Io → Turn W
  notify g s before job io =
      let (lines, alive) = send_job_notify initial_difficulty job io in
      if alive
      then record {
        shared = record {
          next_extranonce1 = g.next_extranonce1;
          world = handler.on_notify_sent g.world job;
        };
        session_state = record s { last_notify_job_id = some job.job_id };
        sent = before ++ lines;
        is_open = true;
        panicked = false;
      }
      else stay g s (before ++ lines) false

  -- A response, and the job to notify after it.
  unfoldable pub answer_with : Sv1Response → Dispatched W → Io → Turn W
  answer_with r d io = elim io.response_io [
    | unserializable ↦ stay d.shared d.session_state [] true
    | failed ↦ stay d.shared d.session_state [] false
    | written ↦ elim d.notify_job [
      | none ↦ stay d.shared d.session_state (response r ∷ []) true
      | some job ↦ notify d.shared d.session_state (response r ∷ []) job io
    ]
  ]

  -- What follows the dispatch of a request.
  unfoldable pub answer : Dispatched W → Io → Turn W
  unfolding answer_with
  answer d io = elim d.response [
    | none ↦ crash d.shared d.session_state
    | some r ↦ answer_with r d io
  ]

  unfoldable pub answer_parse_error : Shared W → SessionState → Io → Turn W
  answer_parse_error g s io = elim io.response_io [
    | unserializable ↦ stay g s [] true
    | failed ↦ stay g s [] false
    | written ↦ stay g s (response (error_response 32700 "Parse error") ∷ []) true
  ]

  unfoldable pub push : Shared W → SessionState → Job → Io → Turn W
  push g s job io =
      if not (is_authorized s)
      then stay g s [] true
      else if already_notified s job
      then stay g s [] true
      else notify g s [] job io

  module _ {V O : Type 0} (json : Json V O) (hex_decode : String → Result Bytes String) where
    unfoldable pub turn : Event V → Shared W → SessionState → Turn W
    turn read_error g s = stay g s [] false
    turn end_of_stream g s = stay g s [] false
    turn blank_line g s = stay g s [] true
    turn (bad_json io) g s = answer_parse_error g s io
    turn (request req io) g s = answer (dispatch_request handler json hex_decode req g s) io
    turn (pushed job io) g s = push g s job io
    turn lagged g s = stay g s [] true
    turn channel_closed g s = stay g s [] false

-- The listener: what the sessions share, the sessions that are open, and how many a panic has ended.
pub record Server (W : Type 0) : Type 0 where
  pub common : Shared W
  pub sessions : List SessionState
  pub crashed : ℕ

module _ {W : Type 0} (handler : SessionEventHandler W) where
  -- `NEXT_EXTRANONCE1` begins at 1.
  unfoldable pub start : W → Server W
  start world = record {
    common = record { next_extranonce1 = 1; world = world };
    sessions = [];
    crashed = 0;
  }

  -- A connection is accepted.
  unfoldable pub accept : Server W → Server W
  accept server = record {
    common = record {
      next_extranonce1 = server.common.next_extranonce1;
      world = handler.on_connect server.common.world;
    };
    sessions = server.sessions ++ (new_session ∷ []);
    crashed = server.crashed;
  }

  -- `on_disconnect` is called after the loop, and not when a panic has unwound it.
  unfoldable pub after_loop : Turn W → W
  after_loop t = if t.panicked then t.shared.world else handler.on_disconnect t.shared.world

  -- The `i`-th session after its turn; a session whose loop has ended is closed.
  unfoldable pub after_turn : Server W → ℕ → Turn W → Server W
  after_turn server i t =
      if t.is_open
      then record {
        common = t.shared;
        sessions = set server.sessions i t.session_state;
        crashed = server.crashed;
      }
      else record {
        common = record { next_extranonce1 = t.shared.next_extranonce1; world = after_loop t };
        sessions = take i server.sessions ++ drop (suc i) server.sessions;
        crashed = if t.panicked then suc server.crashed else server.crashed;
      }
