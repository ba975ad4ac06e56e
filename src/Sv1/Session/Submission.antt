-- ===== src/Sv1/Session/Submission.antt =====
-- From the request of a miner to the share that the pool is handed.
use azcoin_stratum_pool.Prelude.{
  ℕ, ◌^◌, ◌<◌, ◌≢◌, ◌↔◌, ◌⊎◌, String, true, false, Option, none, some, Result, ok, string_eq, ◌==◌,
  ◌≡◌, refl, sym, ap, ◌∙◌, arith, inl, inr, Bool-cases, Option-cases,
}
use mathlib.Core.Option.{some-injective}
use azcoin_stratum_pool.PoolCore.Types.{
  Bytes, WorkerIdentity, ShareSubmission, ShareResult, accepted, block, low_difficulty, malformed,
  unknown_job, rejected,
}
use azcoin_stratum_pool.Sv1.Messages.{Json, Sv1Request, Sv1VersionRollingConfig}
use azcoin_stratum_pool.Sv1.Mapper.Laws.{Written, map_request-Written}
use azcoin_stratum_pool.Sv1.Session.{
  SessionState, SessionEventHandler, Shared, Dispatched, submit_success, submit_outcome,
  build_submit_reject, session_share, unnegotiated, refuse, dispatch_submit, dispatch_command,
  dispatch_request,
}

-- The session may submit under this name with version bits: it has authorized as that worker, and a
-- mask is negotiated.
pub record Entitled (s : SessionState) (username : String) (worker : WorkerIdentity)
    (cfg : Sv1VersionRollingConfig) : Type 0 where
  pub authorized : s.authorized_worker ≡ some worker
  pub same_name : worker.id ≡ username
  pub rolling : s.version_rolling ≡ some cfg

-- The handler was given this share and nothing else, and the miner is told of success just when it was
-- accepted.
pub record Handed {W : Type 0} (handler : SessionEventHandler W) (g : Shared W) (s : SessionState)
    (d : Dispatched W) (share : ShareSubmission) : Type 0 where
  pub world : d.shared.world ≡ (handler.on_submit g.world share).0
  pub counter : d.shared.next_extranonce1 ≡ g.next_extranonce1
  pub state : d.session_state ≡ s
  pub success : (d.response ≡ some submit_success) ↔ (
      ((handler.on_submit g.world share).1 ≡ some accepted)
      ⊎ ((handler.on_submit g.world share).1 ≡ some block))

success_means :
    (answer : Option ShareResult)
    → submit_outcome answer ≡ some submit_success
    → (answer ≡ some accepted) ⊎ (answer ≡ some block)
unfolding submit_outcome build_submit_reject
success_means none h = absurd cc
success_means (some accepted) h = inl refl
success_means (some block) h = inr refl
success_means (some (low_difficulty r)) h = absurd cc
success_means (some (malformed r)) h = absurd cc
success_means (some (unknown_job r)) h = absurd cc
success_means (some (rejected r)) h = absurd cc

means_success :
    (answer : Option ShareResult)
    → (answer ≡ some accepted) ⊎ (answer ≡ some block)
    → submit_outcome answer ≡ some submit_success
unfolding submit_outcome
means_success answer (inl e) = ap submit_outcome e
means_success answer (inr e) = ap submit_outcome e

unset-unnegotiated :
    (s : SessionState) (bits : ℕ) → s.version_rolling ≡ none → unnegotiated s (some bits) ≡ true
unfolding unnegotiated
unset-unnegotiated s bits e = ground (arith, e)

set-negotiated :
    (s : SessionState) (bits : ℕ) (cfg : Sv1VersionRollingConfig)
    → s.version_rolling ≡ some cfg
    → unnegotiated s (some bits) ≡ false
unfolding unnegotiated
set-negotiated s bits cfg e = ground (arith, e)

module _ {W V O : Type 0} (handler : SessionEventHandler W) (json : Json V O)
    (hex_decode : String → Result Bytes String) where
  request-submit :
      (req : Sv1Request V) (g : Shared W) (s : SessionState)
      (username job_id extra_nonce2_hex : String) (extra_nonce2 : Bytes) (ntime nonce bits : ℕ)
      → Written json req username job_id extra_nonce2_hex ntime nonce bits
      → hex_decode extra_nonce2_hex ≡ ok extra_nonce2
      → ntime < 2 ^ 32
      → nonce < 2 ^ 32
      → bits < 2 ^ 32
      → dispatch_request handler json hex_decode req g s
        ≡ dispatch_submit handler g s username job_id extra_nonce2 ntime nonce (some bits)
  unfolding dispatch_request dispatch_command
  request-submit req g s username job_id hex extra_nonce2 ntime nonce bits w decoded ht hn hb =
      rw
        (
          map_request-Written json hex_decode req username job_id hex extra_nonce2 ntime nonce bits
              w decoded ht hn hb,
          dispatch_request,
        )
        refl

  -- The request of a miner that writes a share with version bits, in any state of its session. A session
  -- that is entitled to it hands the pool just that share, once: the job, the numbers and the bytes that
  -- the miner wrote, the session's worker, and in the context the session's own extranonce1, its
  -- extranonce2 size, its negotiated mask and the miner's bits; the session is unchanged, and the miner is
  -- told of success just when the pool accepts, as a share or as a block. Any other session hands over
  -- nothing, leaves the pool and itself as they were, and the miner is not told of success.
  pub written_share-Handed :
      (req : Sv1Request V) (g : Shared W) (s : SessionState)
      (username job_id extra_nonce2_hex : String) (extra_nonce2 : Bytes) (ntime nonce bits : ℕ)
      → Written json req username job_id extra_nonce2_hex ntime nonce bits
      → hex_decode extra_nonce2_hex ≡ ok extra_nonce2
      → ntime < 2 ^ 32
      → nonce < 2 ^ 32
      → bits < 2 ^ 32
      → let d = dispatch_request handler json hex_decode req g s in
        ((worker : WorkerIdentity) × (cfg : Sv1VersionRollingConfig) × Entitled s username worker
            cfg
          × Handed handler g s d (record {
            job_id = job_id;
            worker = worker;
            extra_nonce2 = extra_nonce2;
            ntime = ntime;
            nonce = nonce;
            validation_context = some (record {
              expected_extra_nonce2_len = some s.extranonce2_size;
              extranonce1_hex = some s.extranonce1;
              version_rolling_mask = some cfg.mask;
              version_bits = some bits;
            });
          }))
        ⊎ (((worker : WorkerIdentity) (cfg : Sv1VersionRollingConfig)
              → ¬ Entitled s username worker cfg)
            × (d.shared ≡ g)
            × (d.session_state ≡ s)
            × (d.response ≢ some submit_success))
  unfolding dispatch_submit refuse build_submit_reject session_share
  written_share-Handed req g s username job_id hex extra_nonce2 ntime nonce bits w decoded ht hn
        hb =
      rw
        (request-submit req g s username job_id hex extra_nonce2 ntime nonce bits w decoded ht hn
          hb)
        (elim (Option-cases s.authorized_worker) [
          | inl none_yet ↦ inr (
            (λ worker cfg e. let f = e.authorized in absurd cc),
            simp (none_yet, dispatch_submit) refl,
            simp (none_yet, dispatch_submit) refl,
            simp (none_yet, dispatch_submit) (λ e. absurd cc),
          )
          | inr (worker, authorized) ↦ elim (Bool-cases (worker.id == username)) [
            | inr other ↦ inr (
              (λ x cfg e.
                  let same : worker ≡ x = some-injective _ _ (sym authorized ∙ e.authorized) in
                  let named : (worker.id == username) ≡ true =
                    (string_eq.test_iff worker.id username).1
                      (ap (λ (y : WorkerIdentity). y.id) same ∙ e.same_name) in
                  absurd cc),
              simp (authorized, other, dispatch_submit) refl,
              simp (authorized, other, dispatch_submit) refl,
              simp (authorized, other, dispatch_submit) (λ e. absurd cc),
            )
            | inl named ↦ elim (Option-cases s.version_rolling) [
              | inl unset ↦ inr (
                (λ x cfg e. let f = e.rolling in absurd cc),
                simp (authorized, named, unset-unnegotiated s bits unset, dispatch_submit) refl,
                simp (authorized, named, unset-unnegotiated s bits unset, dispatch_submit) refl,
                simp (authorized, named, unset-unnegotiated s bits unset, dispatch_submit)
                    (λ e. absurd cc),
              )
              | inr (cfg, rolling) ↦ inl (
                worker,
                cfg,
                record {
                  authorized = authorized;
                  same_name = (string_eq.test_iff worker.id username).0 named;
                  rolling = rolling;
                },
                record {
                  world =
                      simp
                        (
                          authorized,
                          named,
                          set-negotiated s bits cfg rolling,
                          rolling,
                          dispatch_submit,
                        )
                        refl;
                  counter =
                      simp
                        (
                          authorized,
                          named,
                          set-negotiated s bits cfg rolling,
                          rolling,
                          dispatch_submit,
                        )
                        refl;
                  state =
                      simp
                        (
                          authorized,
                          named,
                          set-negotiated s bits cfg rolling,
                          rolling,
                          dispatch_submit,
                        )
                        refl;
                  success =
                      simp
                        (
                          authorized,
                          named,
                          set-negotiated s bits cfg rolling,
                          rolling,
                          dispatch_submit,
                        )
                        (success_means _, means_success _);
                },
              )
            ]
          ]
        ])
