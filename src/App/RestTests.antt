-- ===== src/App/RestTests.antt =====
-- The theorem on the API mode at a run in which a miner connects and authorizes, and the poller ticks.
use azcoin_stratum_pool.Prelude.{ℕ, String, List, [], ◌∷◌, ok, get_elem?, some, ◌≡◌, refl}
use azcoin_stratum_pool.PoolCore.Types.{BlockCandidate}
use azcoin_stratum_pool.Common.Config.{PoolConfig, api}
use azcoin_stratum_pool.Common.Tests.{a_config}
use azcoin_stratum_pool.Coin.ClientTests.{an_api_template}
use azcoin_stratum_pool.Sv1.Session.{new_session}
use azcoin_stratum_pool.Sv1.Server.{accept}
use azcoin_stratum_pool.Sv1.Server as Sv1Server
use azcoin_stratum_pool.Sv1.Server.Keeps.{Carries}
use azcoin_stratum_pool.App.Handler.{Pool}
use azcoin_stratum_pool.App.System.{
  Wiring, System, Outside, sv1_handler, session_turn, tick, Step, begin, Reach, begun, next,
  main_wiring, main_pool,
}
use azcoin_stratum_pool.App.System.Blocks.{logging, with_log}
use azcoin_stratum_pool.App.System.RestJobs.{main_api-unsubmitted}
use azcoin_stratum_pool.App.SystemTests.{outside, line}
use azcoin_stratum_pool.App.TemplateTests.{decode_run-bytes}

abbrev rest : PoolConfig
rest = record a_config { daemon = record a_config.daemon { job_source_mode = api } }

abbrev rest_outside : Outside ℕ (List String) (Unit {0})
rest_outside = record outside { api_template_of = λ v. ok an_api_template }

abbrev rest_wiring : Wiring (ℕ × List BlockCandidate) (List String) (Unit {0})
rest_wiring = logging (main_wiring rest_outside rest)

abbrev rest_pool : Pool (ℕ × List BlockCandidate)
rest_pool = with_log (main_pool rest_outside rest 0)

abbrev rest_connected : System (ℕ × List BlockCandidate)
rest_connected = record (begin rest_wiring rest_pool) {
  server = accept (sv1_handler rest_wiring) (begin rest_wiring rest_pool).server;
}

abbrev rest_system : System (ℕ × List BlockCandidate)
rest_system = tick rest_wiring (
    session_turn rest_wiring rest_connected 0 new_session
      (line "mining.authorize" ("u" ∷ "p" ∷ [])))

rest_connected-at : get_elem? rest_connected.server.sessions 0 ≡ some new_session
unfolding accept begin Sv1Server.start
rest_connected-at = refl

rest_system-Reach : Reach rest_wiring rest_pool 3 rest_system
unfolding Carries
rest_system-Reach =
    next
      (next (next begun Step.accepted)
        (Step.turned 0 new_session (line "mining.authorize" ("u" ∷ "p" ∷ [])) rest_connected-at tt))
      Step.ticked

main_api-unsubmitted_example : rest_system.server.common.world.node.1 ≡ []
main_api-unsubmitted_example =
    main_api-unsubmitted rest_outside decode_run-bytes rest refl 0 3 rest_system rest_system-Reach
