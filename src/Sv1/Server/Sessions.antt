-- ===== src/Sv1/Server/Sessions.antt =====
-- What holds of every open session over the server's runs.
use azcoin_stratum_pool.Prelude.{
  ℕ, ◌≤◌, ◌≢◌, true, false, Option, none, some, List, [], string_eq, ◌==◌, ◌≡◌, refl, inl, inr,
  arith, Bool-cases, Option-cases, Result-cases,
}
use azcoin_stratum_pool.Prelude.Bits.{bit}
use azcoin_stratum_pool.PoolCore.Types.{Job}
use azcoin_stratum_pool.Sv1.Messages.{
  Sv1VersionRollingConfig, Sv1DomainCommand, configure, subscribe, authorize, submit_share,
  sv1_version_rolling_mask, count_ones, negotiate_version_rolling,
}
use azcoin_stratum_pool.Sv1.Mapper.{and_then}
use azcoin_stratum_pool.Sv1.Session.{
  SessionState, new_session, SessionEventHandler, Shared, Dispatched, refuse, unnegotiated,
  dispatch_command, dispatch_authorize, dispatch_submit, dispatch_subscribe, dispatch_configure,
}
use azcoin_stratum_pool.Sv1.Session.Laws.{negotiate-Negotiated}
use azcoin_stratum_pool.Sv1.Server.{
  io-cases, Io, Message, is_written, send_job_notify, is_authorized, already_notified, stay, crash,
  notify, answer_with, answer, push,
}

-- A mask that a session may hold: not empty, inside the pool's, with as many bits as it promises.
pub record IsGranted (cfg : Sv1VersionRollingConfig) : Type 0 where
  pub not_empty : cfg.mask ≢ 0
  pub inside : (k : ℕ) → bit k cfg.mask ≤ bit k sv1_version_rolling_mask
  pub enough_bits : cfg.min_bit_count ≤ count_ones 32 cfg.mask

-- A subscribed session has four bytes of extranonce2, any other has neither nonce.
pub record IsSound (s : SessionState) : Type 0 where
  pub subscribed_size : s.subscribed ≡ true → s.extranonce2_size ≡ 4
  pub unsubscribed : s.subscribed ≡ false → (s.extranonce2_size ≡ 0) × (s.extranonce1 ≡ "")
  pub granted : (cfg : Sv1VersionRollingConfig) → s.version_rolling ≡ some cfg → IsGranted cfg

pub new_session-IsSound : IsSound new_session
new_session-IsSound = record {
  subscribed_size = λ h. cc;
  unsubscribed = λ h. (refl, refl);
  granted = λ cfg h. absurd cc;
}

negotiated-IsGranted :
    (asked : Option Sv1VersionRollingConfig) (cfg : Sv1VersionRollingConfig)
    → and_then negotiate_version_rolling asked ≡ some cfg
    → IsGranted cfg
unfolding and_then
negotiated-IsGranted none cfg h = absurd cc
negotiated-IsGranted (some requested) cfg h =
    let n = negotiate-Negotiated requested cfg h in
    record {
      not_empty = n.not_empty;
      inside = λ k. omega (arith, n.inside k);
      enough_bits = n.enough_bits;
    }

module _ {W : Type 0} (handler : SessionEventHandler W) where
  pub dispatch_command-IsSound :
      (c : Sv1DomainCommand) (g : Shared W) (s : SessionState)
      → IsSound s
      → IsSound (dispatch_command handler c g s).session_state
  unfolding dispatch_command dispatch_subscribe dispatch_configure dispatch_authorize
      dispatch_submit refuse
  dispatch_command-IsSound (configure extensions version_rolling) g s h = record {
    subscribed_size = h.subscribed_size;
    unsubscribed = h.unsubscribed;
    granted = λ cfg e. negotiated-IsGranted version_rolling cfg e;
  }
  dispatch_command-IsSound subscribe g s h = record {
    subscribed_size = λ e. refl;
    unsubscribed = λ e. absurd cc;
    granted = h.granted;
  }
  dispatch_command-IsSound (authorize username password) g s h =
      elim (Result-cases (handler.on_authorize g.world username).1) [
        | inl (j, e) ↦
            rw (e, dispatch_authorize)
              (record {
                subscribed_size = h.subscribed_size;
                unsubscribed = h.unsubscribed;
                granted = h.granted;
              })
        | inr (m, e) ↦ rw (e, dispatch_authorize) h
      ]
  dispatch_command-IsSound (submit_share username job_id extra_nonce2 ntime nonce bits) g s h =
      elim (Option-cases s.authorized_worker) [
        | inl e ↦ rw (e, dispatch_submit) h
        | inr (worker, e) ↦ elim (Bool-cases (worker.id == username)) [
          | inr f ↦ simp (e, f, dispatch_submit) h
          | inl f ↦ elim (Bool-cases (unnegotiated s bits)) [
            | inl k ↦ simp (e, f, k, dispatch_submit) h
            | inr k ↦ simp (e, f, k, dispatch_submit) h
          ]
        ]
      ]

  module _ (initial_difficulty : ℕ) where
    notify-IsSound :
        (g : Shared W) (s : SessionState) (before : List Message) (job : Job) (io : Io)
        → IsSound s
        → IsSound (notify handler initial_difficulty g s before job io).session_state
    unfolding notify send_job_notify stay
    notify-IsSound g s before job io h = elim (Bool-cases (is_written io.difficulty_io)) [
      | inr e ↦ rw (e, notify) h
      | inl e ↦ elim (Bool-cases (is_written io.notify_io)) [
        | inl f ↦
            simp (e, f, notify)
              (record {
                subscribed_size = h.subscribed_size;
                unsubscribed = h.unsubscribed;
                granted = h.granted;
              })
        | inr f ↦ simp (e, f, notify) h
      ]
    ]

    pub answer-IsSound :
        (d : Dispatched W) (io : Io)
        → IsSound d.session_state
        → IsSound (answer handler initial_difficulty d io).session_state
    unfolding answer answer_with crash stay
    answer-IsSound d io h = elim (Option-cases d.response) [
      | inl e ↦ rw (e, answer) h
      | inr (r, e) ↦ elim (io-cases io.response_io) [
        | inl f ↦ rw (e, answer) (rw (f, answer_with) h)
        | inr (inl f) ↦ rw (e, answer) (rw (f, answer_with) h)
        | inr (inr f) ↦ elim (Option-cases d.notify_job) [
          | inl k ↦ rw (e, answer) (rw (f, answer_with) (rw (k) h))
          | inr (job, k) ↦
              rw (e, answer)
                (rw (f, answer_with) (rw (k) (notify-IsSound d.shared d.session_state _ job io h)))
        ]
      ]
    ]

    pub push-IsSound :
        (g : Shared W) (s : SessionState) (job : Job) (io : Io)
        → IsSound s
        → IsSound (push handler initial_difficulty g s job io).session_state
    unfolding push stay
    push-IsSound g s job io h = elim (Bool-cases (is_authorized s)) [
      | inr e ↦ rw (e, push) h
      | inl e ↦ elim (Bool-cases (already_notified s job)) [
        | inl f ↦ rw (e, push) (rw (f) h)
        | inr f ↦ rw (e, push) (rw (f) (notify-IsSound g s [] job io h))
      ]
    ]
