-- ===== src/Sv1/Server/Ids.antt =====
-- What a turn of a session does to the counter of extranonce1 and to the id of its session.
use azcoin_stratum_pool.Prelude.{
  ℕ, ◌+◌, ◌%◌, ◌^◌, String, Option, List, [], Result, ◌≡◌, refl, ◌⊎◌, inl, inr, Option-cases,
  Bool-cases, Result-cases, string_eq, ◌==◌,
}
use azcoin_stratum_pool.Prelude.Text.{hex08}
use azcoin_stratum_pool.PoolCore.Types.{Bytes, Job}
use azcoin_stratum_pool.Sv1.Messages.{
  Json, Sv1Request, Sv1DomainCommand, configure, subscribe, authorize, submit_share,
}
use azcoin_stratum_pool.Sv1.Mapper.{map_request_to_command}
use azcoin_stratum_pool.Sv1.Session.{
  SessionState, Sv1Response, SessionEventHandler, Shared, Dispatched, refuse, unnegotiated,
  dispatch_command, dispatch_authorize, dispatch_submit, dispatch_subscribe, dispatch_configure,
  dispatch_request,
}
use azcoin_stratum_pool.Sv1.Server.{
  io-cases, Io, Event, read_error, end_of_stream, blank_line, bad_json, request, pushed, lagged,
  channel_closed, Message, is_written, send_job_notify, is_authorized, already_notified, stay,
  crash, notify, answer_with, answer, answer_parse_error, push, turn,
}

-- What a turn may do to the counter and to the id of its session.
unfoldable pub Kept : ℕ → SessionState → ℕ → SessionState → Type 0
Kept n s n' s' = (n' ≡ n) × (s'.subscribed ≡ s.subscribed) × (s'.extranonce1 ≡ s.extranonce1)

unfoldable pub Issued : ℕ → ℕ → SessionState → Type 0
Issued n n' s' = (n' ≡ (n + 1) % 2 ^ 32) × (s'.extranonce1 ≡ hex08 n)

module _ {W : Type 0} (handler : SessionEventHandler W) where
  unfoldable pub Ids : Shared W → SessionState → Shared W → SessionState → Type 0
  Ids g s g' s' =
      Kept g.next_extranonce1 s g'.next_extranonce1 s'
      ⊎ Issued g.next_extranonce1 g'.next_extranonce1 s'

  dispatch_authorize-Ids :
      (g : Shared W) (s : SessionState) (username : String)
      → let d = dispatch_authorize handler g s username in Ids g s d.shared d.session_state
  unfolding dispatch_authorize Ids Kept
  dispatch_authorize-Ids g s username =
      elim (Result-cases (handler.on_authorize g.world username).1) [
        | inl (j, e) ↦ rw (e, dispatch_authorize) (inl (refl, refl, refl))
        | inr (m, e) ↦ rw (e, dispatch_authorize) (inl (refl, refl, refl))
      ]

  dispatch_submit-Ids :
      (g : Shared W) (s : SessionState) (username job_id : String) (extra_nonce2 : Bytes)
      (ntime nonce : ℕ) (bits : Option ℕ)
      → let d = dispatch_submit handler g s username job_id extra_nonce2 ntime nonce bits in
        Ids g s d.shared d.session_state
  unfolding dispatch_submit refuse Ids Kept
  dispatch_submit-Ids g s username job_id extra_nonce2 ntime nonce bits =
      elim (Option-cases s.authorized_worker) [
        | inl e ↦ rw (e, dispatch_submit) (inl (refl, refl, refl))
        | inr (worker, e) ↦ elim (Bool-cases (worker.id == username)) [
          | inr f ↦ simp (e, f, dispatch_submit) (inl (refl, refl, refl))
          | inl f ↦ elim (Bool-cases (unnegotiated s bits)) [
            | inl h ↦ simp (e, f, h, dispatch_submit) (inl (refl, refl, refl))
            | inr h ↦ simp (e, f, h, dispatch_submit) (inl (refl, refl, refl))
          ]
        ]
      ]

  dispatch_command-Ids :
      (c : Sv1DomainCommand) (g : Shared W) (s : SessionState)
      → let d = dispatch_command handler c g s in Ids g s d.shared d.session_state
  unfolding dispatch_command dispatch_subscribe dispatch_configure Ids Kept Issued
  dispatch_command-Ids (configure extensions version_rolling) g s = inl (refl, refl, refl)
  dispatch_command-Ids subscribe g s = inr (refl, refl)
  dispatch_command-Ids (authorize username password) g s = dispatch_authorize-Ids g s username
  dispatch_command-Ids (submit_share username job_id extra_nonce2 ntime nonce bits) g s =
      dispatch_submit-Ids g s username job_id extra_nonce2 ntime nonce bits

  module _ (initial_difficulty : ℕ) where
    notify-Ids :
        (g0 : Shared W) (s0 : SessionState) (g : Shared W) (s : SessionState)
        (before : List Message) (job : Job) (io : Io)
        → Ids g0 s0 g s
        → let t = notify handler initial_difficulty g s before job io in
          Ids g0 s0 t.shared t.session_state
    unfolding notify send_job_notify stay Ids Kept Issued
    notify-Ids g0 s0 g s before job io h = elim (Bool-cases (is_written io.difficulty_io)) [
      | inr e ↦ rw (e, notify) h
      | inl e ↦ elim (Bool-cases (is_written io.notify_io)) [
        | inl f ↦ simp (e, f, notify) h
        | inr f ↦ simp (e, f, notify) h
      ]
    ]

    answer_with-Ids :
        (g : Shared W) (s : SessionState) (r : Sv1Response) (d : Dispatched W) (io : Io)
        → Ids g s d.shared d.session_state
        → let t = answer_with handler initial_difficulty r d io in Ids g s t.shared t.session_state
    unfolding answer_with stay
    answer_with-Ids g s r d io h = elim (io-cases io.response_io) [
      | inl e ↦ rw (e, answer_with) h
      | inr (inl e) ↦ rw (e, answer_with) h
      | inr (inr e) ↦ elim (Option-cases d.notify_job) [
        | inl f ↦ rw (e, answer_with) (rw (f) h)
        | inr (job, f) ↦
            rw (e, answer_with) (rw (f) (notify-Ids g s d.shared d.session_state _ job io h))
      ]
    ]

    answer-Ids :
        (g : Shared W) (s : SessionState) (d : Dispatched W) (io : Io)
        → Ids g s d.shared d.session_state
        → let t = answer handler initial_difficulty d io in Ids g s t.shared t.session_state
    unfolding answer crash
    answer-Ids g s d io h = elim (Option-cases d.response) [
      | inl e ↦ rw (e, answer) h
      | inr (r, e) ↦ rw (e, answer) (answer_with-Ids g s r d io h)
    ]

    push-Ids :
        (g : Shared W) (s : SessionState) (job : Job) (io : Io)
        → let t = push handler initial_difficulty g s job io in Ids g s t.shared t.session_state
    unfolding push stay Ids Kept
    push-Ids g s job io = elim (Bool-cases (is_authorized s)) [
      | inr e ↦ rw (e, push) (inl (refl, refl, refl))
      | inl e ↦ elim (Bool-cases (already_notified s job)) [
        | inl f ↦ rw (e, push) (rw (f) (inl (refl, refl, refl)))
        | inr f ↦ rw (e, push) (rw (f) (notify-Ids g s g s [] job io (inl (refl, refl, refl))))
      ]
    ]

    module _ {V O : Type 0} (json : Json V O) (hex_decode : String → Result Bytes String) where
      dispatch_request-Ids :
          (req : Sv1Request V) (g : Shared W) (s : SessionState)
          → let d = dispatch_request handler json hex_decode req g s in
            Ids g s d.shared d.session_state
      unfolding dispatch_request refuse Ids Kept
      dispatch_request-Ids req g s =
          elim (Result-cases (map_request_to_command json hex_decode req)) [
            | inr (m, e) ↦ rw (e, dispatch_request) (inl (refl, refl, refl))
            | inl (c, e) ↦ elim (Option-cases c) [
              | inl f ↦ rw (e, dispatch_request) (rw (f) (inl (refl, refl, refl)))
              | inr (command, f) ↦
                  rw (e, dispatch_request) (rw (f) (dispatch_command-Ids command g s))
            ]
          ]

      pub turn-Ids :
          (e : Event V) (g : Shared W) (s : SessionState)
          → let t = turn handler initial_difficulty json hex_decode e g s in
            Ids g s t.shared t.session_state
      unfolding turn stay answer_parse_error Ids Kept
      turn-Ids read_error g s = inl (refl, refl, refl)
      turn-Ids end_of_stream g s = inl (refl, refl, refl)
      turn-Ids blank_line g s = inl (refl, refl, refl)
      turn-Ids (bad_json io) g s = elim (io-cases io.response_io) [
        | inl e ↦ rw (e, answer_parse_error) (inl (refl, refl, refl))
        | inr (inl e) ↦ rw (e, answer_parse_error) (inl (refl, refl, refl))
        | inr (inr e) ↦ rw (e, answer_parse_error) (inl (refl, refl, refl))
      ]
      turn-Ids (request req io) g s = answer-Ids g s _ io (dispatch_request-Ids req g s)
      turn-Ids (pushed job io) g s = push-Ids g s job io
      turn-Ids lagged g s = inl (refl, refl, refl)
      turn-Ids channel_closed g s = inl (refl, refl, refl)
