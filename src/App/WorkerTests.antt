-- ===== src/App/WorkerTests.antt =====
-- The theorem on the workers at a run in which a miner connects, authorizes and submits a share.
use azcoin_stratum_pool.Prelude.{◌≤◌, String, All, length, ◌≡◌, refl}
use azcoin_stratum_pool.PoolCore.Services.{new_inner, new_with_validator_and_share_sink}
use azcoin_stratum_pool.App.Composition.{build_pool_services}
use azcoin_stratum_pool.App.Api.{pool_workers, pool_stats}
use azcoin_stratum_pool.App.Api.Laws.{shown}
use azcoin_stratum_pool.App.System.{pool_services, main_pool}
use azcoin_stratum_pool.App.System.Blocks.{with_log}
use azcoin_stratum_pool.App.System.Workers.{WorkerShown, workers_shown}
use azcoin_stratum_pool.App.SystemTests.{wired, fresh_pool, solved_system, solved-Reach}

workers_shown_example :
    All (WorkerShown solved_system.server.common.world) solved_system.server.sessions
    × ((u : String) → shown u (pool_workers solved_system.server.common.world) ≤ 1)
    × ((pool_stats solved_system.server.common.world).worker_count
        ≡ length (pool_workers solved_system.server.common.world))
unfolding with_log main_pool pool_services build_pool_services new_with_validator_and_share_sink
    new_inner
workers_shown_example = workers_shown wired fresh_pool 4 solved_system refl solved-Reach
