-- ===== src/Sv1/Session/Laws.antt =====
-- What a session hands to the pool, and what holds of its state after any sequence of requests.
use azcoin_stratum_pool.Prelude.{
  ℕ, ◌≤◌, ◌≢◌, min, String, true, false, Option, some, string_eq, nat_eq, ◌==◌, bit_and, ◌≡◌, refl,
  arith, inl, inr, Bool-cases, Option-cases, subst, none, ◌⊎◌,
}
use mathlib.Core.Option.{some-injective}
use azcoin_stratum_pool.Prelude.Bits.{bit, bit-and}
use azcoin_stratum_pool.PoolCore.Types.{Bytes, WorkerIdentity, ShareResult}
use azcoin_stratum_pool.Sv1.Messages.{
  Sv1VersionRollingConfig, sv1_version_rolling_mask, count_ones, negotiate_version_rolling,
}
use azcoin_stratum_pool.Sv1.Session.{
  SessionState, submit_outcome, SessionEventHandler, Shared, session_share, unnegotiated,
  dispatch_submit, refuse, build_submit_reject,
}

-- The negotiated mask: not empty, inside the pool's mask and inside the miner's, with no more bits
-- promised than it has.
pub record Negotiated (requested : Sv1VersionRollingConfig) (cfg : Sv1VersionRollingConfig)
    : Type 0 where
  pub not_empty : cfg.mask ≢ 0
  pub inside :
      (k : ℕ) → bit k cfg.mask ≡ min (bit k sv1_version_rolling_mask) (bit k requested.mask)
  pub enough_bits : cfg.min_bit_count ≤ count_ones 32 cfg.mask

abbrev negotiated_config : Sv1VersionRollingConfig → Sv1VersionRollingConfig
negotiated_config requested =
    let mask = bit_and sv1_version_rolling_mask requested.mask in
    record { mask = mask; min_bit_count = min requested.min_bit_count (count_ones 32 mask) }

-- Version rolling is negotiated to a mask that is not empty, whose bits are those that the pool's mask
-- and the miner's share, with a minimum count that the mask has.
pub negotiate-Negotiated :
    (requested cfg : Sv1VersionRollingConfig)
    → negotiate_version_rolling requested ≡ some cfg
    → Negotiated requested cfg
unfolding negotiate_version_rolling
negotiate-Negotiated requested cfg h =
    elim (Bool-cases (bit_and sv1_version_rolling_mask requested.mask == 0)) [
      | inl empty ↦ absurd (ground (arith, h, empty))
      | inr some_bits ↦
          let cfg_is : some (negotiated_config requested) ≡ some cfg =
            ground (arith, h, some_bits) in
          subst (Negotiated requested) (some-injective _ _ cfg_is) (record {
            not_empty = λ empty. absurd (ground (arith, some_bits, empty));
            inside = λ k. bit-and k sv1_version_rolling_mask requested.mask;
            enough_bits = omega arith;
          })
    ]

-- The worker may submit under this name, with version bits only when a mask is negotiated.
pub record Admitted (s : SessionState) (username : String) (bits : Option ℕ)
    (worker : WorkerIdentity) : Type 0 where
  pub authorized : s.authorized_worker ≡ some worker
  pub same_name : worker.id ≡ username
  pub rolling : unnegotiated s bits ≡ false

-- Why a submission is refused, with the text that says so; the causes are tried in this order.
pub data Refused (s : SessionState) (username : String) (bits : Option ℕ) : String → Type 0 where
  no_worker : s.authorized_worker ≡ none → Refused s username bits "worker not authorized"
  other_name :
      (worker : WorkerIdentity)
      → s.authorized_worker ≡ some worker
      → worker.id ≢ username
      → Refused s username bits "username mismatch"
  no_mask :
      (worker : WorkerIdentity)
      → s.authorized_worker ≡ some worker
      → worker.id ≡ username
      → unnegotiated s bits ≡ true
      → Refused s username bits "version rolling not negotiated"

module _ {W : Type 0} (handler : SessionEventHandler W) where
  -- What an admitted submission leaves, by the answer of the pool to the session's share.
  pub dispatch_submit-Admitted :
      (g : Shared W) (s : SessionState) (username job_id : String) (extra_nonce2 : Bytes)
      (ntime nonce : ℕ) (bits : Option ℕ) (worker : WorkerIdentity)
      → Admitted s username bits worker
      → let d = dispatch_submit handler g s username job_id extra_nonce2 ntime nonce bits in
        let answer =
          handler.on_submit g.world (session_share s worker job_id extra_nonce2 ntime nonce bits) in
        (d.shared.world ≡ answer.0) × (d.response ≡ submit_outcome answer.1) × (d.session_state ≡ s)
  unfolding dispatch_submit
  dispatch_submit-Admitted g s username job_id extra_nonce2 ntime nonce bits worker a =
      let named : (worker.id == username) ≡ true =
        (string_eq.test_iff worker.id username).1 a.same_name in
      simp (a.authorized, named, a.rolling, dispatch_submit) (refl, refl, refl)

  -- A submission that is not admitted (no authorized worker, another name, or version bits without a
  -- negotiated mask) leaves the pool, the counter and the session as they were.
  pub dispatch_submit_refused :
      (g : Shared W) (s : SessionState) (username job_id : String) (extra_nonce2 : Bytes)
      (ntime nonce : ℕ) (bits : Option ℕ)
      → ((worker : WorkerIdentity) → ¬ Admitted s username bits worker)
      → let d = dispatch_submit handler g s username job_id extra_nonce2 ntime nonce bits in
        (d.shared ≡ g) × (d.session_state ≡ s)
  unfolding dispatch_submit refuse
  dispatch_submit_refused g s username job_id extra_nonce2 ntime nonce bits nobody =
      elim (Option-cases s.authorized_worker) [
        | inl none_yet ↦ simp (none_yet, dispatch_submit) (refl, refl)
        | inr (worker, authorized) ↦ elim (Bool-cases (worker.id == username)) [
          | inr other ↦ simp (authorized, other, dispatch_submit) (refl, refl)
          | inl named ↦ elim (Bool-cases (unnegotiated s bits)) [
            | inl early ↦ simp (authorized, named, early, dispatch_submit) (refl, refl)
            | inr fine ↦ absurd (
                nobody worker (record {
                  authorized = authorized;
                  same_name = (string_eq.test_iff worker.id username).0 named;
                  rolling = fine;
                }))
          ]
        ]
      ]

  -- A submission is admitted, and the pool is called once with the session's share, or it is refused
  -- for the first cause that applies.
  pub dispatch_submit-Decided :
      (g : Shared W) (s : SessionState) (username job_id : String) (extra_nonce2 : Bytes)
      (ntime nonce : ℕ) (bits : Option ℕ)
      → let d = dispatch_submit handler g s username job_id extra_nonce2 ntime nonce bits in
        ((worker : WorkerIdentity) × (answer : W × Option ShareResult) × Admitted s username bits
            worker
          × (answer
              ≡ handler.on_submit g.world
                  (session_share s worker job_id extra_nonce2 ntime nonce bits))
          × (d.shared.world ≡ answer.0)
          × (d.response ≡ submit_outcome answer.1)
          × (d.session_state ≡ s))
        ⊎ ((reason : String) × Refused s username bits reason
            × (d.response ≡ some (build_submit_reject reason))
            × (d.shared ≡ g)
            × (d.session_state ≡ s))
  unfolding dispatch_submit refuse
  dispatch_submit-Decided g s username job_id extra_nonce2 ntime nonce bits =
      elim (Option-cases s.authorized_worker) [
        | inl none_yet ↦ inr (
          _,
          Refused.no_worker none_yet,
          simp (none_yet, dispatch_submit) refl,
          simp (none_yet, dispatch_submit) refl,
          simp (none_yet, dispatch_submit) refl,
        )
        | inr (worker, authorized) ↦ elim (Bool-cases (worker.id == username)) [
          | inr other ↦
              let differs : worker.id ≢ username =
                λ same. let named = (string_eq.test_iff worker.id username).1 same in absurd cc in
              inr (
                _,
                Refused.other_name worker authorized differs,
                simp (authorized, other, dispatch_submit) refl,
                simp (authorized, other, dispatch_submit) refl,
                simp (authorized, other, dispatch_submit) refl,
              )
          | inl named ↦
              let same = (string_eq.test_iff worker.id username).0 named in
              elim (Bool-cases (unnegotiated s bits)) [
                | inl early ↦ inr (
                  _,
                  Refused.no_mask worker authorized same early,
                  simp (authorized, named, early, dispatch_submit) refl,
                  simp (authorized, named, early, dispatch_submit) refl,
                  simp (authorized, named, early, dispatch_submit) refl,
                )
                | inr fine ↦
                    let a : Admitted s username bits worker = record {
                      authorized = authorized;
                      same_name = same;
                      rolling = fine;
                    } in
                    let (world, response, state) =
                      dispatch_submit-Admitted g s username job_id extra_nonce2 ntime nonce bits
                        worker a in
                    inl (worker, _, a, refl, world, response, state)
              ]
        ]
      ]
