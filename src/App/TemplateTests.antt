-- ===== src/App/TemplateTests.antt =====
-- The theorem on registered jobs at a run in which a miner connects and authorizes.
use azcoin_stratum_pool.Prelude.{
  ℕ, String, some, List, [], ◌∷◌, Result, ok, string_eq, ◌==◌, replicate, get_elem?, All,
  All-replicate, ok-injective, subst, Bool-cases, inl, inr, ◌≡◌, refl, arith,
}
use azcoin_stratum_pool.Prelude.HashMap
use azcoin_stratum_pool.Prelude.Words.{IsByte}
use azcoin_stratum_pool.PoolCore.Types.{Bytes}
use azcoin_stratum_pool.PoolCore.Registry
use azcoin_stratum_pool.PoolCore.Registry.{get_job}
use azcoin_stratum_pool.PoolCore.Services.{new_inner, new_with_validator_and_share_sink}
use azcoin_stratum_pool.PoolCore.Worker
use azcoin_stratum_pool.Sv1.Mapper.{known, string_at, map_authorize_params, map_request_to_command}
use azcoin_stratum_pool.Sv1.Session.{
  new_session, dispatch_request, dispatch_command, dispatch_authorize,
}
use azcoin_stratum_pool.Sv1.Server.{
  Event, accept, after_turn, turn, answer, answer_with, stay, notify, send_job_notify,
}
use azcoin_stratum_pool.Sv1.Server as Sv1Server
use azcoin_stratum_pool.Sv1.Server.Keeps.{Carries}
use azcoin_stratum_pool.App.Handler.{Pool, on_connect, on_authorize, on_notify_sent}
use azcoin_stratum_pool.App.Composition.{build_pool_services}
use azcoin_stratum_pool.App.System.{
  Wiring, System, sv1_handler, session_turn, Step, begin, Reach, begun, next, pool_services,
  main_wiring, main_pool,
}
use azcoin_stratum_pool.App.System.History.{Answer, remembering, with_memory}
use azcoin_stratum_pool.App.System.Templates.{FromTemplate, main_jobs-FromTemplate}
use azcoin_stratum_pool.Common.Tests.{a_config}
use azcoin_stratum_pool.App.SystemTests.{decode_run, outside, line, run_job, run_source}

pub decode_run-bytes : (s : String) (bs : Bytes) → decode_run s ≡ ok bs → All IsByte bs
decode_run-bytes s bs h = elim (Bool-cases (s == "bits")) [
  | inl four ↦
      let same : ◌≡◌ {A = Result Bytes String} (ok (replicate 4 1)) (ok bs) =
        ground (arith, h, four) in
      subst (All IsByte) (ok-injective same) (All-replicate IsByte 4 1 (omega arith))
  | inr more ↦ elim (Bool-cases (s == "00000001")) [
    | inl nonce ↦
        let same : ◌≡◌ {A = Result Bytes String} (ok (0 ∷ 0 ∷ 0 ∷ 1 ∷ [])) (ok bs) =
          ground (arith, h, more, nonce) in
        subst (All IsByte) (ok-injective same)
          (omega arith, (omega arith, (omega arith, (omega arith, tt))))
    | inr other ↦
        let same : ◌≡◌ {A = Result Bytes String} (ok (replicate 32 0)) (ok bs) =
          ground (arith, h, more, other) in
        subst (All IsByte) (ok-injective same) (All-replicate IsByte 32 0 (omega arith))
  ]
]

abbrev plain : Wiring (ℕ × List (Answer ℕ)) (List String) (Unit {0})
plain = remembering (main_wiring outside a_config)

abbrev plain_pool : Pool (ℕ × List (Answer ℕ))
plain_pool = with_memory (main_pool outside a_config 0)

abbrev connected : System (ℕ × List (Answer ℕ))
connected = record (begin plain plain_pool) {
  server = accept (sv1_handler plain) (begin plain plain_pool).server;
}

abbrev notified_system : System (ℕ × List (Answer ℕ))
notified_system =
    session_turn plain connected 0 new_session (line "mining.authorize" ("u" ∷ "p" ∷ []))

connected-at : get_elem? connected.server.sessions 0 ≡ some new_session
unfolding accept begin Sv1Server.start
connected-at = refl

notified_system-Reach : Reach plain plain_pool 2 notified_system
unfolding Carries
notified_system-Reach =
    next (next begun Step.accepted)
      (Step.turned 0 new_session (line "mining.authorize" ("u" ∷ "p" ∷ [])) connected-at tt)

run_job-known :
    get_job notified_system.server.common.world.state.job_registry "840000" ≡ some run_job
unfolding remembering with_memory session_turn turn answer answer_with stay dispatch_request
    dispatch_command dispatch_authorize known map_authorize_params main_wiring string_at sv1_handler
    on_authorize pool_services build_pool_services new_with_validator_and_share_sink new_inner
    notify send_job_notify main_pool on_connect Worker.new map_request_to_command after_turn accept
    begin Sv1Server.start on_notify_sent Registry.register Registry.new get_job HashMap.lookup
    HashMap.insert HashMap.contains_key
run_job-known = rw (run_source 0) refl

main_jobs-FromTemplate_example :
    (run_job.job_id ≡ "840000")
    × FromTemplate outside decode_run-bytes a_config refl notified_system.server.common.world.node.1
        run_job
main_jobs-FromTemplate_example =
    main_jobs-FromTemplate outside decode_run-bytes a_config refl 0 2 notified_system "840000"
      run_job notified_system-Reach run_job-known
