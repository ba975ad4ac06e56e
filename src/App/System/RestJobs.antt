-- ===== src/App/System/RestJobs.antt =====
-- The blocks that the pool gives to its node in the API mode.
use azcoin_stratum_pool.Prelude.{
  ℕ, String, none, some, List, [], ok, All, ◌≡◌, refl, sym, ◌∙◌, subst,
}
use azcoin_stratum_pool.Prelude.Words.{IsByte}
use azcoin_stratum_pool.PoolCore.Types.{Bytes, Job, BlockCandidate}
use azcoin_stratum_pool.PoolCore.Registry
use azcoin_stratum_pool.PoolCore.Services.{new_inner, new_with_validator_and_share_sink}
use azcoin_stratum_pool.Coin.JobSource.Laws.{api_current_job-no_assembly}
use azcoin_stratum_pool.Common.Config.{PoolConfig, api}
use azcoin_stratum_pool.Sv1.Server.Keeps.{Keeps}
use azcoin_stratum_pool.App.Handler.{Pool, on_connect, on_disconnect, on_notify_sent, on_authorize}
use azcoin_stratum_pool.App.Handler.Keeps.{on_submit-kept}
use azcoin_stratum_pool.App.Handler.Node.{on_submit-node}
use azcoin_stratum_pool.App.Composition.{build_job_source, source_of, build_pool_services}
use azcoin_stratum_pool.App.System.{
  Wiring, System, decoded, sv1_handler, Reach, Outside, source_current_job, pool_services,
  main_wiring, main_pool,
}
use azcoin_stratum_pool.App.System.Keeps.{Offered, authorized-Offered, Reach-Holds}
use azcoin_stratum_pool.App.System.Jobs.{
  Registered, new-Registered, register-Registered, get_job-Registered,
}
use azcoin_stratum_pool.App.System.Blocks.{logging, with_log}

module _ {N V O : Type 0} (w : Wiring N V O)
    (bare : (job : Job) → Offered w job → job.block_assembly ≡ none) where
  abbrev Holds : ℕ → Pool (N × List BlockCandidate) → Type 0
  Holds n pool = Registered (Offered (logging w)) pool.state.job_registry × (pool.node.1 ≡ [])

  logged_bare : (job : Job) → Offered (logging w) job → job.block_assembly ≡ none
  unfolding Offered logging
  logged_bare job (node, e) = bare job (node.0, e)

  handler-Holds : Keeps (sv1_handler (logging w)) (λ pool. Offered (logging w)) Holds
  unfolding sv1_handler on_connect on_disconnect on_notify_sent on_authorize logging
  handler-Holds = record {
    connect = λ n pool h. h;
    disconnect = λ n pool h. h;
    authorize = λ n pool username h. h;
    authorized_job = λ n pool username job h e. authorized-Offered (logging w) pool username job e;
    notify_sent = λ n pool job j h. (register-Registered _ _ job j h.0, h.1);
    submit = λ n pool share h. (
      subst (Registered (Offered (logging w)))
          (sym
            (on_submit-kept (logging w).current_job (decoded w.hex_decode) w.sha256 w.hex_encode
              w.bitcoin (logging w).submit_block w.share_processor pool share).1)
          h.0,
      on_submit-node (logging w).current_job (decoded w.hex_decode) w.sha256 w.hex_encode w.bitcoin
          (logging w).submit_block (λ node. node.1 ≡ []) (λ node q. q) w.share_processor pool share
          (λ node job a candidate known has q.
            let missing = logged_bare job (get_job-Registered _ _ share.job_id job h.0 known) in
            let both : some a ≡ none = sym has ∙ missing in absurd cc)
          h.1,
    );
  }

  pub no_blocks :
      (pool : Pool N) (k : ℕ) (sys : System (N × List BlockCandidate))
      → pool.state.job_registry ≡ Registry.new
      → Reach (logging w) (with_log pool) k sys
      → sys.server.common.world.node.1 ≡ []
  unfolding with_log logging
  no_blocks pool k sys h r =
      (Reach-Holds (logging w) Holds handler-Holds (λ n p held. held) (with_log pool) k sys
        (subst (Registered _) (sym h) (new-Registered _), refl) r).1

-- Where hexadecimal text decodes to bytes and the mode is API: after any steps, whatever the miners send
-- and whatever is behind the URL, the node, also one that serves JSON-RPC, has been given no block.
pub main_api-unsubmitted :
    {N V O : Type 0} (o : Outside N V O)
    (decoded_bytes : (s : String) (bs : Bytes) → o.hex_decode s ≡ ok bs → All IsByte bs)
    (c : PoolConfig)
    → c.daemon.job_source_mode ≡ api
    → (n : N) (k : ℕ) (sys : System (N × List BlockCandidate))
    → Reach (logging (main_wiring o c)) (with_log (main_pool o c n)) k sys
    → sys.server.common.world.node.1 ≡ []
unfolding main_pool main_wiring pool_services build_pool_services new_with_validator_and_share_sink
    new_inner Offered source_current_job build_job_source source_of
main_api-unsubmitted o decoded_bytes c mode n k sys r =
    no_blocks (main_wiring o c)
      (λ job (m, e).
        let e' =
          subst (λ x. (source_current_job o (source_of o.hex_decode c x) m).1 ≡ some job) mode e in
        api_current_job-no_assembly o.hex_decode decoded_bytes o.send o.api_template_of _ m job e')
      (main_pool o c n) k sys refl r
