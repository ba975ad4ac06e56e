-- ===== src/Sv1/Server/Laws.antt =====
-- What a turn of a session tells the handler, and when a broadcast job reaches the miner.
use azcoin_stratum_pool.Prelude.{
  ℕ, String, true, false, List, [], ◌∷◌, ◌++◌, Result, ◌≡◌, refl, ◌↔◌, inl, inr, Option-cases,
  Bool-cases,
}
use azcoin_stratum_pool.PoolCore.Types.{Bytes, Job}
use azcoin_stratum_pool.Sv1.Messages.{Json}
use azcoin_stratum_pool.Sv1.Session.{
  SessionState, Sv1Response, SessionEventHandler, Shared, Dispatched, dispatch_request,
}
use azcoin_stratum_pool.Sv1.Server.{
  io-cases, Io, Event, read_error, end_of_stream, blank_line, bad_json, request, pushed, lagged,
  channel_closed, Message, response, set_difficulty, mining_notify, is_written, send_job_notify,
  already_notified, is_authorized, stay, crash, notify, answer_with, answer, answer_parse_error,
  push, turn,
}

-- The jobs among the lines, in their order.
unfoldable pub notified : List Message → List Job
notified [] = []
notified (response r ∷ rest) = notified rest
notified (set_difficulty d ∷ rest) = notified rest
notified (mining_notify job ∷ rest) = job ∷ notified rest

module _ {W : Type 0} (handler : SessionEventHandler W) where
  -- The handler is told of each job in turn.
  unfoldable pub register_all : W → List Job → W
  register_all world [] = world
  register_all world (job ∷ rest) = register_all (handler.on_notify_sent world job) rest

-- The handler's state when the dispatch of the event's request, if it is one, is over.
unfoldable pub dispatched :
    {W V O : Type 0}
    → SessionEventHandler W
    → Json V O
    → (String → Result Bytes String)
    → Event V
    → Shared W
    → SessionState
    → W
dispatched handler json hex_decode (request req io) g s =
    (dispatch_request handler json hex_decode req g s).shared.world
dispatched handler json hex_decode _ g s = g.world

module _ {W : Type 0} (handler : SessionEventHandler W) (initial_difficulty : ℕ) where
  notify_registers :
      (g : Shared W) (s : SessionState) (before : List Message) (job : Job) (io : Io)
      → notified (before ++ []) ≡ []
      → notified (before ++ (set_difficulty initial_difficulty ∷ [])) ≡ []
      → notified (before ++ (set_difficulty initial_difficulty ∷ mining_notify job ∷ [])) ≡ job ∷ []
      → let t = notify handler initial_difficulty g s before job io in
        t.shared.world ≡ register_all handler g.world (notified t.sent)
  unfolding notify send_job_notify stay register_all
  notify_registers g s before job io h0 h1 h2 = elim (Bool-cases (is_written io.difficulty_io)) [
    | inr e ↦ rw (e, notify) (rw h0 refl)
    | inl e ↦ elim (Bool-cases (is_written io.notify_io)) [
      | inl f ↦ simp (e, f, h2, notify) refl
      | inr f ↦ simp (e, f, h1, notify) refl
    ]
  ]

  answer_with_registers :
      (r : Sv1Response) (d : Dispatched W) (io : Io)
      → let t = answer_with handler initial_difficulty r d io in
        t.shared.world ≡ register_all handler d.shared.world (notified t.sent)
  unfolding answer_with stay register_all notified
  answer_with_registers r d io = elim (io-cases io.response_io) [
    | inl e ↦ rw (e, answer_with) refl
    | inr (inl e) ↦ rw (e, answer_with) refl
    | inr (inr e) ↦ elim (Option-cases d.notify_job) [
      | inl f ↦ rw (e, answer_with) (rw (f) refl)
      | inr (job, f) ↦
          rw (e, answer_with)
            (rw (f)
              (notify_registers d.shared d.session_state (response r ∷ []) job io refl refl refl))
    ]
  ]

  answer_registers :
      (d : Dispatched W) (io : Io)
      → let t = answer handler initial_difficulty d io in
        t.shared.world ≡ register_all handler d.shared.world (notified t.sent)
  unfolding answer crash register_all notified
  answer_registers d io = elim (Option-cases d.response) [
    | inl e ↦ rw (e, answer) refl
    | inr (r, e) ↦ rw (e, answer) (answer_with_registers r d io)
  ]

  push_registers :
      (g : Shared W) (s : SessionState) (job : Job) (io : Io)
      → let t = push handler initial_difficulty g s job io in
        t.shared.world ≡ register_all handler g.world (notified t.sent)
  unfolding push stay register_all notified
  push_registers g s job io = elim (Bool-cases (is_authorized s)) [
    | inr e ↦ rw (e, push) refl
    | inl e ↦ elim (Bool-cases (already_notified s job)) [
      | inl f ↦ rw (e, push) (rw (f) refl)
      | inr f ↦ rw (e, push) (rw (f) (notify_registers g s [] job io refl refl refl))
    ]
  ]

  -- A broadcast job is notified exactly when a worker is authorized in the session, the job is not
  -- the one of the last notification, and both lines are written.
  pub push-notified_iff :
      (g : Shared W) (s : SessionState) (job : Job) (io : Io)
      → (notified (push handler initial_difficulty g s job io).sent ≡ job ∷ []) ↔ (
          (is_authorized s ≡ true)
          × (already_notified s job ≡ false)
          × (is_written io.difficulty_io ≡ true)
          × (is_written io.notify_io ≡ true))
  unfolding push stay notified notify send_job_notify
  push-notified_iff g s job io = elim (Bool-cases (is_authorized s)) [
    | inr e ↦
        (let sent : notified (push handler initial_difficulty g s job io).sent ≡ [] =
            simp (e, push) refl in
          (λ x. absurd cc, λ (x0, x1, x2, x3). absurd cc))
    | inl e ↦ elim (Bool-cases (already_notified s job)) [
      | inl f ↦
          (let sent : notified (push handler initial_difficulty g s job io).sent ≡ [] =
              simp (e, f, push) refl in
            (λ x. absurd cc, λ (x0, x1, x2, x3). absurd cc))
      | inr f ↦ elim (Bool-cases (is_written io.difficulty_io)) [
        | inr h ↦
            (let sent : notified (push handler initial_difficulty g s job io).sent ≡ [] =
                simp (e, f, h, push, notify) refl in
              (λ x. absurd cc, λ (x0, x1, x2, x3). absurd cc))
        | inl h ↦ elim (Bool-cases (is_written io.notify_io)) [
          | inl k ↦ simp (e, f, h, k, push, notify) ((λ x. (refl, refl, refl, refl)), λ x. refl)
          | inr k ↦
              (let sent : notified (push handler initial_difficulty g s job io).sent ≡ [] =
                  simp (e, f, h, k, push, notify) refl in
                (λ x. absurd cc, λ (x0, x1, x2, x3). absurd cc))
        ]
      ]
    ]
  ]

  module _ {V O : Type 0} (json : Json V O) (hex_decode : String → Result Bytes String) where
    -- Whatever a session sees, its turn tells the handler of a job exactly when the job's
    -- notification was written: the handler's state is the one after the dispatch, told of each
    -- notified job.
    pub turn_registers :
        (e : Event V) (g : Shared W) (s : SessionState)
        → let t = turn handler initial_difficulty json hex_decode e g s in
          t.shared.world
          ≡ register_all handler (dispatched handler json hex_decode e g s) (notified t.sent)
    unfolding turn stay register_all notified dispatched answer_parse_error
    turn_registers read_error g s = refl
    turn_registers end_of_stream g s = refl
    turn_registers blank_line g s = refl
    turn_registers (bad_json io) g s = elim (io-cases io.response_io) [
      | inl e ↦ rw (e, answer_parse_error) refl
      | inr (inl e) ↦ rw (e, answer_parse_error) refl
      | inr (inr e) ↦ rw (e, answer_parse_error) refl
    ]
    turn_registers (request req io) g s =
        answer_registers (dispatch_request handler json hex_decode req g s) io
    turn_registers (pushed job io) g s = push_registers g s job io
    turn_registers lagged g s = refl
    turn_registers channel_closed g s = refl
