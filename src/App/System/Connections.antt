-- ===== src/App/System/Connections.antt =====
-- The connection counter over the pool's runs.
use azcoin_stratum_pool.Prelude.{ℕ, ◌+◌, ◌%◌, ◌^◌, length, ◌≡◌, ◌∙◌, ap, arith}
use azcoin_stratum_pool.PoolCore.Stats.{record_connection, record_disconnection}
use azcoin_stratum_pool.PoolCore.Processor.{process_share}
use azcoin_stratum_pool.Sv1.Server.Keeps.{Keeps}
use azcoin_stratum_pool.Sv1.Server.Counted.{counted}
use azcoin_stratum_pool.App.Handler.{
  Pool, on_connect, on_disconnect, on_notify_sent, on_authorize, on_submit,
}
use azcoin_stratum_pool.App.Handler.Keeps.{on_submit-kept}
use azcoin_stratum_pool.App.System.{Wiring, System, decoded, sv1_handler, Reach}
use azcoin_stratum_pool.App.System.Keeps.{Offered, authorized-Offered, Reach-Holds}

abbrev Counts : {N : Type 0} → ℕ → Pool N → Type 0
Counts n pool = pool.stats.active_connections ≡ n % 2 ^ 64

module _ {N V O : Type 0} (w : Wiring N V O) where
  handler-Counts : Keeps (sv1_handler w) (λ pool. Offered w) Counts
  unfolding sv1_handler on_connect on_disconnect on_notify_sent on_authorize on_submit
      record_connection record_disconnection process_share Offered
  handler-Counts = record {
    connect = λ n pool h. ground (arith, h);
    disconnect = λ n pool h. ground (arith, h);
    authorize = λ n pool username h. h;
    authorized_job = λ n pool username job h e. authorized-Offered w pool username job e;
    notify_sent = λ n pool job j h. h;
    submit = λ n pool share h.
        ap (λ s. s.active_connections)
          (on_submit-kept w.current_job (decoded w.hex_decode) w.sha256 w.hex_encode w.bitcoin
            w.submit_block w.share_processor pool share).0
        ∙ h;
  }

  -- After any steps from a pool without connections, the connection counter is the number of open
  -- sessions and of those that a panic has ended, modulo 2 ^ 64.
  pub active_connections-counted :
      (pool : Pool N) (k : ℕ) (sys : System N)
      → pool.stats.active_connections ≡ 0
      → Reach w pool k sys
      → sys.server.common.world.stats.active_connections
        ≡ (length sys.server.sessions + sys.server.crashed) % 2 ^ 64
  unfolding counted
  active_connections-counted pool k sys h r =
      Reach-Holds w Counts handler-Counts (λ n pool h. h) pool k sys (ground (arith, h)) r
