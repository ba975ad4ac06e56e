-- ===== src/Sv1/Server/Keeps.antt =====
-- An invariant of the handler's state over the server's runs, from what each call of the handler keeps.
use azcoin_stratum_pool.Prelude.{
  ℕ, suc, String, Option, some, List, [], Result, ok, ◌≡◌, ap, ◌∙◌, inl, inr, Bool-cases,
  Option-cases, Result-cases, string_eq, ◌==◌,
}
use azcoin_stratum_pool.PoolCore.Types.{Bytes, Job, ShareSubmission}
use azcoin_stratum_pool.Sv1.Messages.{
  Json, Sv1Request, Sv1DomainCommand, configure, subscribe, authorize, submit_share,
}
use azcoin_stratum_pool.Sv1.Mapper.{map_request_to_command}
use azcoin_stratum_pool.Sv1.Session.{
  SessionState, Sv1Response, SessionEventHandler, Shared, Dispatched, refuse, unnegotiated,
  dispatch_command, dispatch_authorize, dispatch_submit, dispatch_subscribe, dispatch_configure,
  dispatch_request,
}
use azcoin_stratum_pool.Sv1.Server.{
  io-cases, Io, Event, read_error, end_of_stream, blank_line, bad_json, request, pushed, lagged,
  channel_closed, Message, is_written, send_job_notify, is_authorized, already_notified, stay,
  crash, notify, answer_with, answer, answer_parse_error, push, turn,
}

-- `J w` holds of the jobs that may be notified when the handler's state is `w`. `P n` holds of the
-- handler's state when `n` sessions have been opened and not reported as closed.
pub record Keeps {W : Type 0} (handler : SessionEventHandler W) (J : W → Job → Type 0)
    (P : ℕ → W → Type 0) : Type 0 where
  pub connect : (n : ℕ) (w : W) → P n w → P (suc n) (handler.on_connect w)
  pub disconnect : (n : ℕ) (w : W) → P (suc n) w → P n (handler.on_disconnect w)
  pub authorize :
      (n : ℕ) (w : W) (username : String) → P n w → P n (handler.on_authorize w username).0
  pub authorized_job :
      (n : ℕ) (w : W) (username : String) (job : Job)
      → P n w
      → (handler.on_authorize w username).1 ≡ ok (some job)
      → J (handler.on_authorize w username).0 job
  pub notify_sent :
      (n : ℕ) (w : W) (job : Job) → J w job → P n w → P n (handler.on_notify_sent w job)
  pub submit : (n : ℕ) (w : W) (share : ShareSubmission) → P n w → P n (handler.on_submit w share).0

-- The job of a broadcast is one of those.
unfoldable pub Carries : {V : Type 0} → (Job → Type 0) → Event V → Type 0
Carries J read_error = Unit
Carries J end_of_stream = Unit
Carries J blank_line = Unit
Carries J (bad_json io) = Unit
Carries J (request req io) = Unit
Carries J (pushed job io) = J job
Carries J lagged = Unit
Carries J channel_closed = Unit

module _ {W : Type 0} (handler : SessionEventHandler W) (J : W → Job → Type 0) (P : ℕ → W → Type 0)
    (keeps : Keeps handler J P) (n : ℕ) where
  -- What a dispatch leaves: the invariant, and a job that may be notified.
  Dispatches : Dispatched W → Type 0
  Dispatches d = P n d.shared.world × ((job : Job) → d.notify_job ≡ some job → J d.shared.world job)

  dispatch_authorize-Keeps :
      (g : Shared W) (s : SessionState) (username : String)
      → P n g.world
      → Dispatches (dispatch_authorize handler g s username)
  unfolding Dispatches dispatch_authorize
  dispatch_authorize-Keeps g s username h =
      elim (Result-cases (handler.on_authorize g.world username).1) [
        | inl (j, e) ↦
            rw (e, dispatch_authorize)
              (
                keeps.authorize n g.world username h,
                λ job same. keeps.authorized_job n g.world username job h (e ∙ ap ok same),
              )
        | inr (m, e) ↦
            rw (e, dispatch_authorize) (keeps.authorize n g.world username h, λ job same. absurd cc)
      ]

  dispatch_submit-Keeps :
      (g : Shared W) (s : SessionState) (username job_id : String) (extra_nonce2 : Bytes)
      (ntime nonce : ℕ) (bits : Option ℕ)
      → P n g.world
      → Dispatches (dispatch_submit handler g s username job_id extra_nonce2 ntime nonce bits)
  unfolding Dispatches dispatch_submit refuse
  dispatch_submit-Keeps g s username job_id extra_nonce2 ntime nonce bits h =
      elim (Option-cases s.authorized_worker) [
        | inl e ↦ rw (e, dispatch_submit) (h, λ job same. absurd cc)
        | inr (worker, e) ↦ elim (Bool-cases (worker.id == username)) [
          | inr f ↦ simp (e, f, dispatch_submit) (h, λ job same. absurd cc)
          | inl f ↦ elim (Bool-cases (unnegotiated s bits)) [
            | inl k ↦ simp (e, f, k, dispatch_submit) (h, λ job same. absurd cc)
            | inr k ↦
                simp (e, f, k, dispatch_submit) (keeps.submit n g.world _ h, λ job same. absurd cc)
          ]
        ]
      ]

  dispatch_command-Keeps :
      (c : Sv1DomainCommand) (g : Shared W) (s : SessionState)
      → P n g.world
      → Dispatches (dispatch_command handler c g s)
  unfolding Dispatches dispatch_command dispatch_subscribe dispatch_configure
  dispatch_command-Keeps (configure extensions version_rolling) g s h = (h, λ job same. absurd cc)
  dispatch_command-Keeps subscribe g s h = (h, λ job same. absurd cc)
  dispatch_command-Keeps (authorize username password) g s h =
      dispatch_authorize-Keeps g s username h
  dispatch_command-Keeps (submit_share username job_id extra_nonce2 ntime nonce bits) g s h =
      dispatch_submit-Keeps g s username job_id extra_nonce2 ntime nonce bits h

  module _ (initial_difficulty : ℕ) where
    notify-Keeps :
        (g : Shared W) (s : SessionState) (before : List Message) (job : Job) (io : Io)
        → J g.world job
        → P n g.world
        → P n (notify handler initial_difficulty g s before job io).shared.world
    unfolding notify send_job_notify stay
    notify-Keeps g s before job io j h = elim (Bool-cases (is_written io.difficulty_io)) [
      | inr e ↦ rw (e, notify) h
      | inl e ↦ elim (Bool-cases (is_written io.notify_io)) [
        | inl f ↦ simp (e, f, notify) (keeps.notify_sent n g.world job j h)
        | inr f ↦ simp (e, f, notify) h
      ]
    ]

    answer_with-Keeps :
        (r : Sv1Response) (d : Dispatched W) (io : Io)
        → Dispatches d
        → P n (answer_with handler initial_difficulty r d io).shared.world
    unfolding Dispatches answer_with stay
    answer_with-Keeps r d io h = elim (io-cases io.response_io) [
      | inl e ↦ rw (e, answer_with) h.0
      | inr (inl e) ↦ rw (e, answer_with) h.0
      | inr (inr e) ↦ elim (Option-cases d.notify_job) [
        | inl f ↦ rw (e, answer_with) (rw (f) h.0)
        | inr (job, f) ↦
            rw (e, answer_with)
              (rw (f) (notify-Keeps d.shared d.session_state _ job io (h.1 job f) h.0))
      ]
    ]

    answer-Keeps :
        (d : Dispatched W) (io : Io)
        → Dispatches d
        → P n (answer handler initial_difficulty d io).shared.world
    unfolding Dispatches answer crash
    answer-Keeps d io h = elim (Option-cases d.response) [
      | inl e ↦ rw (e, answer) h.0
      | inr (r, e) ↦ rw (e, answer) (answer_with-Keeps r d io h)
    ]

    push-Keeps :
        (g : Shared W) (s : SessionState) (job : Job) (io : Io)
        → J g.world job
        → P n g.world
        → P n (push handler initial_difficulty g s job io).shared.world
    unfolding push stay
    push-Keeps g s job io j h = elim (Bool-cases (is_authorized s)) [
      | inr e ↦ rw (e, push) h
      | inl e ↦ elim (Bool-cases (already_notified s job)) [
        | inl f ↦ rw (e, push) (rw (f) h)
        | inr f ↦ rw (e, push) (rw (f) (notify-Keeps g s [] job io j h))
      ]
    ]

    module _ {V O : Type 0} (json : Json V O) (hex_decode : String → Result Bytes String) where
      dispatch_request-Keeps :
          (req : Sv1Request V) (g : Shared W) (s : SessionState)
          → P n g.world
          → Dispatches (dispatch_request handler json hex_decode req g s)
      unfolding Dispatches dispatch_request refuse
      dispatch_request-Keeps req g s h =
          elim (Result-cases (map_request_to_command json hex_decode req)) [
            | inr (m, e) ↦ rw (e, dispatch_request) (h, λ job same. absurd cc)
            | inl (c, e) ↦ elim (Option-cases c) [
              | inl f ↦ rw (e, dispatch_request) (rw (f) (h, λ job same. absurd cc))
              | inr (command, f) ↦
                  rw (e, dispatch_request) (rw (f) (dispatch_command-Keeps command g s h))
            ]
          ]

      pub turn-Keeps :
          (e : Event V) (g : Shared W) (s : SessionState)
          → Carries (J g.world) e
          → P n g.world
          → P n (turn handler initial_difficulty json hex_decode e g s).shared.world
      unfolding turn stay answer_parse_error Carries
      turn-Keeps read_error g s j h = h
      turn-Keeps end_of_stream g s j h = h
      turn-Keeps blank_line g s j h = h
      turn-Keeps (bad_json io) g s j h = elim (io-cases io.response_io) [
        | inl e ↦ rw (e, answer_parse_error) h
        | inr (inl e) ↦ rw (e, answer_parse_error) h
        | inr (inr e) ↦ rw (e, answer_parse_error) h
      ]
      turn-Keeps (request req io) g s j h = answer-Keeps _ io (dispatch_request-Keeps req g s h)
      turn-Keeps (pushed job io) g s j h = push-Keeps g s job io j h
      turn-Keeps lagged g s j h = h
      turn-Keeps channel_closed g s j h = h
