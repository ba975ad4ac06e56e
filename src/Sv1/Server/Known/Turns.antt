-- ===== src/Sv1/Server/Known/Turns.antt =====
-- A turn of a session, for what the handler remembers of the sessions' workers.
use azcoin_stratum_pool.Prelude.{
  ℕ, String, some, List, [], ◌∷◌, Result, ◌≡◌, refl, inl, inr, Bool-cases, Option-cases,
  Result-cases, get_elem?, All-append, All-set, string_eq,
}
use azcoin_stratum_pool.PoolCore.Types.{Bytes, Job}
use azcoin_stratum_pool.Sv1.Messages.{Json, Sv1Request}
use azcoin_stratum_pool.Sv1.Mapper.{map_request_to_command}
use azcoin_stratum_pool.Sv1.Session.{
  SessionState, new_session, SessionEventHandler, Shared, Dispatched, Sv1Response, refuse,
  dispatch_request,
}
use azcoin_stratum_pool.Sv1.Server.{
  io-cases, Io, Event, read_error, end_of_stream, blank_line, bad_json, request, pushed, lagged,
  channel_closed, Message, is_written, send_job_notify, is_authorized, already_notified, stay,
  crash, notify, answer_with, answer, answer_parse_error, push, turn, Server, accept, after_loop,
  after_turn,
}
use azcoin_stratum_pool.Sv1.Server.Known.{
  Remembers, Known, Moves, AllKnown, unmoved, moved, chained, still_known, dispatch_command-Moves,
}
use azcoin_stratum_pool.Sv1.Server.Soundness.{All-at, All-removed}

module _ {W : Type 0} (Good : W → Type 0) (Has : String → W → Type 0)
    (handler : SessionEventHandler W) (r : Remembers Good Has handler) where
  module _ (initial_difficulty : ℕ) where
    notify-Moves :
        (g : Shared W) (s : SessionState) (before : List Message) (job : Job) (io : Io)
        → Good g.world
        → let t = notify handler initial_difficulty g s before job io in
          Moves Good Has g.world s t.shared.world t.session_state
    unfolding notify send_job_notify stay
    notify-Moves g s before job io h = elim (Bool-cases (is_written io.difficulty_io)) [
      | inr e ↦ rw (e, notify) (unmoved Good Has g.world s h)
      | inl e ↦ elim (Bool-cases (is_written io.notify_io)) [
        | inl f ↦
            simp (e, f, notify) (moved Good Has g.world _ s _ refl (r.notify_sent g.world job h))
        | inr f ↦ simp (e, f, notify) (unmoved Good Has g.world s h)
      ]
    ]

    answer_with-Moves :
        (w : W) (s : SessionState) (resp : Sv1Response) (d : Dispatched W) (io : Io)
        → Moves Good Has w s d.shared.world d.session_state
        → let t = answer_with handler initial_difficulty resp d io in
          Moves Good Has w s t.shared.world t.session_state
    unfolding answer_with stay
    answer_with-Moves w s resp d io m = elim (io-cases io.response_io) [
      | inl e ↦ rw (e, answer_with) m
      | inr (inl e) ↦ rw (e, answer_with) m
      | inr (inr e) ↦ elim (Option-cases d.notify_job) [
        | inl f ↦ simp (e, f, answer_with) m
        | inr (job, f) ↦
            simp (e, f, answer_with)
              (chained Good Has w _ _ s _ _ m
                (notify-Moves d.shared d.session_state _ job io m.extends.good))
      ]
    ]

    answer-Moves :
        (w : W) (s : SessionState) (d : Dispatched W) (io : Io)
        → Moves Good Has w s d.shared.world d.session_state
        → let t = answer handler initial_difficulty d io in
          Moves Good Has w s t.shared.world t.session_state
    unfolding answer crash
    answer-Moves w s d io m = elim (Option-cases d.response) [
      | inl e ↦ rw (e, answer) m
      | inr (resp, e) ↦ rw (e, answer) (answer_with-Moves w s resp d io m)
    ]

    push-Moves :
        (g : Shared W) (s : SessionState) (job : Job) (io : Io)
        → Good g.world
        → let t = push handler initial_difficulty g s job io in
          Moves Good Has g.world s t.shared.world t.session_state
    unfolding push stay
    push-Moves g s job io h = elim (Bool-cases (is_authorized s)) [
      | inr e ↦ rw (e, push) (unmoved Good Has g.world s h)
      | inl e ↦ elim (Bool-cases (already_notified s job)) [
        | inl f ↦ simp (e, f, push) (unmoved Good Has g.world s h)
        | inr f ↦ simp (e, f, push) (notify-Moves g s [] job io h)
      ]
    ]

    module _ {V O : Type 0} (json : Json V O) (hex_decode : String → Result Bytes String) where
      dispatch_request-Moves :
          (req : Sv1Request V) (g : Shared W) (s : SessionState)
          → Good g.world
          → let d = dispatch_request handler json hex_decode req g s in
            Moves Good Has g.world s d.shared.world d.session_state
      unfolding dispatch_request refuse
      dispatch_request-Moves req g s h =
          elim (Result-cases (map_request_to_command json hex_decode req)) [
            | inr (m, e) ↦ rw (e, dispatch_request) (unmoved Good Has g.world s h)
            | inl (c, e) ↦ elim (Option-cases c) [
              | inl f ↦ rw (e, dispatch_request) (rw (f) (unmoved Good Has g.world s h))
              | inr (command, f) ↦
                  rw (e, dispatch_request)
                    (rw (f) (dispatch_command-Moves Good Has handler r command g s h))
            ]
          ]

      turn-Moves :
          (e : Event V) (g : Shared W) (s : SessionState)
          → Good g.world
          → let t = turn handler initial_difficulty json hex_decode e g s in
            Moves Good Has g.world s t.shared.world t.session_state
      unfolding turn stay answer_parse_error
      turn-Moves read_error g s h = unmoved Good Has g.world s h
      turn-Moves end_of_stream g s h = unmoved Good Has g.world s h
      turn-Moves blank_line g s h = unmoved Good Has g.world s h
      turn-Moves (bad_json io) g s h = elim (io-cases io.response_io) [
        | inl e ↦ rw (e, answer_parse_error) (unmoved Good Has g.world s h)
        | inr (inl e) ↦ rw (e, answer_parse_error) (unmoved Good Has g.world s h)
        | inr (inr e) ↦ rw (e, answer_parse_error) (unmoved Good Has g.world s h)
      ]
      turn-Moves (request req io) g s h =
          answer-Moves g.world s _ io (dispatch_request-Moves req g s h)
      turn-Moves (pushed job io) g s h = push-Moves g s job io h
      turn-Moves lagged g s h = unmoved Good Has g.world s h
      turn-Moves channel_closed g s h = unmoved Good Has g.world s h

      pub accept-AllKnown :
          (server : Server W) → AllKnown Good Has server → AllKnown Good Has (accept handler server)
      unfolding accept Known
      accept-AllKnown server k =
          let e = r.connect server.common.world k.good in
          record {
            good = e.good;
            each =
                All-append _ server.sessions (new_session ∷ [])
                  (still_known Good Has _ _ server.sessions e k.each)
                  ((λ worker is. absurd cc), tt);
          }

      pub turned-AllKnown :
          (server : Server W) (i : ℕ) (s : SessionState) (e : Event V)
          → get_elem? server.sessions i ≡ some s
          → AllKnown Good Has server
          → AllKnown Good Has (
              after_turn handler server i
                (turn handler initial_difficulty json hex_decode e server.common s))
      unfolding after_turn after_loop
      turned-AllKnown server i s e at k =
          let t = turn handler initial_difficulty json hex_decode e server.common s in
          let m = turn-Moves e server.common s k.good in
          let mine = m.known (All-at _ server.sessions i s k.each at) in
          let others = still_known Good Has _ _ server.sessions m.extends k.each in
          elim (Bool-cases t.is_open) [
            | inl stays ↦
                simp (stays, after_turn)
                  (record {
                    good = m.extends.good;
                    each = All-set _ server.sessions i t.session_state others mine;
                  })
            | inr closed ↦ elim (Bool-cases t.panicked) [
              | inl f ↦
                  simp (closed, f, after_turn, after_loop)
                    (record {
                      good = m.extends.good;
                      each = All-removed _ server.sessions i others;
                    })
              | inr f ↦
                  let d = r.disconnect t.shared.world m.extends.good in
                  simp (closed, f, after_turn, after_loop)
                    (record {
                      good = d.good;
                      each =
                          All-removed _ server.sessions i
                            (still_known Good Has _ _ server.sessions d others);
                    })
            ]
          ]
