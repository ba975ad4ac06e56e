-- ===== src/Sv1/Server/Known.antt =====
-- The workers of the sessions and what the handler remembers of them.
pub mod Turns
use azcoin_stratum_pool.Prelude.{
  ℕ, zero, suc, String, some, none, List, [], ◌∷◌, ◌++◌, Result, ◌≡◌, refl, sym, ◌∙◌, subst, inl,
  inr, Bool-cases, Option-cases, Result-cases, get_elem?, take, drop, All, All-append, All-set,
  string_eq, ◌==◌,
}
use mathlib.Core.Option.{some-injective}
use azcoin_stratum_pool.PoolCore.Types.{Bytes, Job, WorkerIdentity, ShareSubmission}
use azcoin_stratum_pool.PoolCore.Worker
use azcoin_stratum_pool.Sv1.Messages.{
  Json, Sv1Request, Sv1DomainCommand, configure, subscribe, authorize, submit_share,
}
use azcoin_stratum_pool.Sv1.Mapper.{map_request_to_command}
use azcoin_stratum_pool.Sv1.Session.{
  SessionState, new_session, SessionEventHandler, Shared, Dispatched, Sv1Response, refuse,
  unnegotiated, dispatch_command, dispatch_authorize, dispatch_submit, dispatch_subscribe,
  dispatch_configure, dispatch_request,
}
use azcoin_stratum_pool.Sv1.Server.{
  io-cases, Io, Event, read_error, end_of_stream, blank_line, bad_json, request, pushed, lagged,
  channel_closed, Message, is_written, send_job_notify, is_authorized, already_notified, stay,
  crash, notify, answer_with, answer, answer_parse_error, push, turn, Turn, Server, accept,
  after_loop, after_turn,
}
use azcoin_stratum_pool.Sv1.Server.Soundness.{All-at, All-removed}

-- `Has u w`: the handler in the state `w` has the worker `u`, in states that are `Good`.
module _ {W : Type 0} (Good : W → Type 0) (Has : String → W → Type 0) where
  -- Nothing that the handler has is lost.
  pub record Extends (w w' : W) : Type 0 where
    pub good : Good w'
    pub kept : (u : String) → Has u w → Has u w'

  pub record Remembers (handler : SessionEventHandler W) : Type 0 where
    pub connect : (w : W) → Good w → Extends w (handler.on_connect w)
    pub disconnect : (w : W) → Good w → Extends w (handler.on_disconnect w)
    pub authorize :
        (w : W) (username : String) → Good w → Extends w (handler.on_authorize w username).0
    pub authorized :
        (w : W) (username : String) → Good w → Has username (handler.on_authorize w username).0
    pub notify_sent : (w : W) (job : Job) → Good w → Extends w (handler.on_notify_sent w job)
    pub submit :
        (w : W) (share : ShareSubmission) → Good w → Extends w (handler.on_submit w share).0

  -- The worker of the session, where it has authorized.
  unfoldable pub Known : W → SessionState → Type 0
  Known w s = (worker : WorkerIdentity) → s.authorized_worker ≡ some worker → Has worker.id w

  pub record Moves (w : W) (s : SessionState) (w' : W) (s' : SessionState) : Type 0 where
    pub extends : Extends w w'
    pub known : Known w s → Known w' s'

  pub unmoved : (w : W) (s : SessionState) → Good w → Moves w s w s
  unmoved w s h = record { extends = record { good = h; kept = λ u k. k }; known = λ k. k }

  -- The handler moves on, and the session keeps its worker.
  pub moved :
      (w w' : W) (s s' : SessionState)
      → s'.authorized_worker ≡ s.authorized_worker
      → Extends w w'
      → Moves w s w' s'
  unfolding Known
  moved w w' s s' same e = record {
    extends = e;
    known = λ k worker is. e.kept worker.id (k worker (sym same ∙ is));
  }

  pub chained :
      (w v w' : W) (s t s' : SessionState) → Moves w s v t → Moves v t w' s' → Moves w s w' s'
  chained w v w' s t s' a b = record {
    extends = record { good = b.extends.good; kept = λ u k. b.extends.kept u (a.extends.kept u k) };
    known = λ k. b.known (a.known k);
  }

  -- The handler is in a good state, and has the worker of every session.
  pub record AllKnown (server : Server W) : Type 0 where
    pub good : Good server.common.world
    pub each : All (Known server.common.world) server.sessions

  pub still_known :
      (w w' : W) (ss : List SessionState) → Extends w w' → All (Known w) ss → All (Known w') ss
  unfolding Known
  still_known w w' [] e h = tt
  still_known w w' (s ∷ ss) e h =
      (λ worker is. e.kept worker.id (h.0 worker is), still_known w w' ss e h.1)

  module _ (handler : SessionEventHandler W) (r : Remembers handler) where
    pub dispatch_command-Moves :
        (c : Sv1DomainCommand) (g : Shared W) (s : SessionState)
        → Good g.world
        → let d = dispatch_command handler c g s in Moves g.world s d.shared.world d.session_state
    unfolding dispatch_command dispatch_subscribe dispatch_configure dispatch_authorize
        dispatch_submit refuse Known Worker.new
    dispatch_command-Moves (configure extensions version_rolling) g s h =
        moved _ _ s _ refl (unmoved g.world s h).extends
    dispatch_command-Moves subscribe g s h = moved _ _ s _ refl (unmoved g.world s h).extends
    dispatch_command-Moves (authorize username password) g s h =
        let after = r.authorize g.world username h in
        elim (Result-cases (handler.on_authorize g.world username).1) [
          | inl (j, e) ↦
              rw (e, dispatch_authorize)
                (record {
                  extends = after;
                  known = λ k worker is.
                      subst
                        (λ (x : WorkerIdentity). Has x.id (handler.on_authorize g.world username).0)
                        (some-injective _ _ is) (r.authorized g.world username h);
                })
          | inr (m, e) ↦ rw (e, dispatch_authorize) (moved g.world _ s s refl after)
        ]
    dispatch_command-Moves (submit_share username job_id extra_nonce2 ntime nonce bits) g s h =
        elim (Option-cases s.authorized_worker) [
          | inl e ↦ simp (e, dispatch_submit) (unmoved g.world s h)
          | inr (worker, e) ↦ elim (Bool-cases (worker.id == username)) [
            | inr f ↦ simp (e, f, dispatch_submit) (unmoved g.world s h)
            | inl f ↦ elim (Bool-cases (unnegotiated s bits)) [
              | inl k ↦ simp (e, f, k, dispatch_submit) (unmoved g.world s h)
              | inr k ↦
                  simp (e, f, k, dispatch_submit) (moved g.world _ s s refl (r.submit g.world _ h))
            ]
          ]
        ]
