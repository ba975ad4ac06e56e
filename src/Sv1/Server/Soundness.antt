-- ===== src/Sv1/Server/Soundness.antt =====
-- Every session of a run is sound.
use azcoin_stratum_pool.Prelude.{
  ℕ, zero, suc, subst, String, some, List, [], ◌∷◌, ◌++◌, Result, ◌≡◌, inl, inr, Bool-cases,
  Option-cases, Result-cases, get_elem?, take, drop, All, All-append, All-set,
}
use azcoin_stratum_pool.PoolCore.Types.{Bytes}
use azcoin_stratum_pool.Sv1.Messages.{Json, Sv1Request}
use azcoin_stratum_pool.Sv1.Mapper.{map_request_to_command}
use azcoin_stratum_pool.Sv1.Session.{
  SessionState, new_session, SessionEventHandler, Shared, refuse, dispatch_request,
}
use azcoin_stratum_pool.Sv1.Server.{
  io-cases, Event, read_error, end_of_stream, blank_line, bad_json, request, pushed, lagged,
  channel_closed, stay, answer_parse_error, turn, Turn, Server, start, accept, after_turn,
}
use azcoin_stratum_pool.Sv1.Server.Sessions.{
  IsSound, new_session-IsSound, dispatch_command-IsSound, answer-IsSound, push-IsSound,
}
use azcoin_stratum_pool.Sv1.Server.Reach.{accepted, turned, Reach, begun, next}

pub All-at :
    (P : SessionState → Type 0) (ss : List SessionState) (i : ℕ) (s : SessionState)
    → All P ss
    → get_elem? ss i ≡ some s
    → P s
All-at P [] i s h at = absurd cc
All-at P (x ∷ ss) zero s h at = let same : x ≡ s = cc in subst P same h.0
All-at P (x ∷ ss) (suc i) s h at = All-at P ss i s h.1 at

pub All-removed :
    (P : SessionState → Type 0) (ss : List SessionState) (i : ℕ)
    → All P ss
    → All P (take i ss ++ drop (suc i) ss)
All-removed P [] zero h = tt
All-removed P [] (suc i) h = tt
All-removed P (x ∷ ss) zero h = h.1
All-removed P (x ∷ ss) (suc i) h = (h.0, All-removed P ss i h.1)

module _ {W V O : Type 0} (handler : SessionEventHandler W) (initial_difficulty : ℕ)
    (json : Json V O) (hex_decode : String → Result Bytes String) where
  dispatch_request-IsSound :
      (req : Sv1Request V) (g : Shared W) (s : SessionState)
      → IsSound s
      → IsSound (dispatch_request handler json hex_decode req g s).session_state
  unfolding dispatch_request refuse
  dispatch_request-IsSound req g s h =
      elim (Result-cases (map_request_to_command json hex_decode req)) [
        | inr (m, e) ↦ rw (e, dispatch_request) h
        | inl (c, e) ↦ elim (Option-cases c) [
          | inl f ↦ rw (e, dispatch_request) (rw (f) h)
          | inr (command, f) ↦
              rw (e, dispatch_request) (rw (f) (dispatch_command-IsSound handler command g s h))
        ]
      ]

  turn-IsSound :
      (e : Event V) (g : Shared W) (s : SessionState)
      → IsSound s
      → IsSound (turn handler initial_difficulty json hex_decode e g s).session_state
  unfolding turn stay answer_parse_error
  turn-IsSound read_error g s h = h
  turn-IsSound end_of_stream g s h = h
  turn-IsSound blank_line g s h = h
  turn-IsSound (bad_json io) g s h = elim (io-cases io.response_io) [
    | inl e ↦ rw (e, answer_parse_error) h
    | inr (inl e) ↦ rw (e, answer_parse_error) h
    | inr (inr e) ↦ rw (e, answer_parse_error) h
  ]
  turn-IsSound (request req io) g s h =
      answer-IsSound handler initial_difficulty _ io (dispatch_request-IsSound req g s h)
  turn-IsSound (pushed job io) g s h = push-IsSound handler initial_difficulty g s job io h
  turn-IsSound lagged g s h = h
  turn-IsSound channel_closed g s h = h

  after_turn-IsSound :
      (server : Server W) (i : ℕ) (t : Turn W)
      → All IsSound server.sessions
      → IsSound t.session_state
      → All IsSound (after_turn handler server i t).sessions
  unfolding after_turn
  after_turn-IsSound server i t h s = elim (Bool-cases t.is_open) [
    | inl e ↦ rw (e, after_turn) (All-set IsSound server.sessions i t.session_state h s)
    | inr e ↦ rw (e, after_turn) (All-removed IsSound server.sessions i h)
  ]

  -- After any steps of the server, whatever it is sent and whatever the handler does, every open
  -- session is sound: its extranonce2 has four bytes if it has subscribed, and else neither nonce is
  -- set; and a mask that it has negotiated is not empty, lies inside the pool's mask, and has as many
  -- bits as it promises.
  pub Reach-IsSound :
      (world : W) (n : ℕ) (server : Server W)
      → Reach handler initial_difficulty json hex_decode world n server
      → All IsSound server.sessions
  unfolding start accept
  Reach-IsSound world n server begun = tt
  Reach-IsSound world n server (next {n = m} {before = before} r accepted) =
      All-append IsSound before.sessions (new_session ∷ []) (Reach-IsSound world m before r)
        (new_session-IsSound, tt)
  Reach-IsSound world n server (next {n = m} {before = before} r (turned i s e at)) =
      let ih = Reach-IsSound world m before r in
      after_turn-IsSound before i _ ih
        (turn-IsSound e before.common s (All-at IsSound before.sessions i s ih at))
