-- ===== src/App/SolutionTests.antt =====
-- The theorem on a pushed job at a concrete share.
use azcoin_stratum_pool.Prelude.{
  ℕ, String, none, some, List, [], ◌∷◌, string_eq, ◌≡◌, refl, arith, inr,
}
use azcoin_stratum_pool.PoolCore.Types.{BlockCandidate, ShareSubmission}
use azcoin_stratum_pool.Prelude.Text.{u32_from_hex}
use azcoin_stratum_pool.Prelude.Words.{be_value}
use azcoin_stratum_pool.PoolCore.Worker
use azcoin_stratum_pool.Coin.Target.{nbits_to_target}
use azcoin_stratum_pool.Coin.Header.{resolved_version, build_coinbase, double_sha256}
use azcoin_stratum_pool.Coin.ShareValidator.Outcome.{hash_value, share_header}
use azcoin_stratum_pool.Coin.RawBlock.Laws.{Readable}
use azcoin_stratum_pool.Coin.Candidate.{block_coinbase}
use azcoin_stratum_pool.Sv1.Messages.{Sv1Request}
use azcoin_stratum_pool.App.Handler.Laws.{Current, Submittable}
use azcoin_stratum_pool.App.System.Solved.{Solution}
use azcoin_stratum_pool.App.System.Pushed.{pushed-solved}
use azcoin_stratum_pool.PoolCore.Processor.{with_validator_and_share_sink}
use azcoin_stratum_pool.Coin.Candidate.Laws.{sent}
use azcoin_stratum_pool.PoolCore.Services.{new_inner, new_with_validator_and_share_sink}
use azcoin_stratum_pool.App.Composition.{build_pool_services, pool_difficulty}
use azcoin_stratum_pool.Sv1.Mapper.{
  known, string_at, map_submit_params, map_submit_items, eight_hex, parse_version_bits,
  map_request_to_command,
}
use azcoin_stratum_pool.Sv1.Session.{
  SessionState, submit_success, Shared, session_share, unnegotiated,
}
use azcoin_stratum_pool.Sv1.Server.{
  request, pushed, response, is_authorized, already_notified, Turn, turn,
}
use azcoin_stratum_pool.App.Handler.{Pool, block_height}
use azcoin_stratum_pool.App.System.{sv1_handler, pool_services, main_wiring, main_pool}
use azcoin_stratum_pool.App.System.Blocks.{logging, with_log}
use azcoin_stratum_pool.Coin.Tests.{zero_digest, zero_digest-IsHash, empty_transaction}
use azcoin_stratum_pool.Coin.JobTests.{flat_bitcoin}
use azcoin_stratum_pool.Sv1.ServerTests.{all_written}
use azcoin_stratum_pool.App.SystemTests.{wired, fresh_pool, authorized, run_job, run_source}

abbrev solution_request : Sv1Request (List String)
solution_request = record {
  id = none;
  method = "mining.submit";
  params = some ("u" ∷ "840000" ∷ "00000001" ∷ "00000005" ∷ "00000009" ∷ []);
}

abbrev solution_share : ShareSubmission
solution_share = session_share authorized (Worker.new "u") "840000" (0 ∷ 0 ∷ 0 ∷ 1 ∷ []) 5 9 none

solution-Submittable : Submittable flat_bitcoin run_job solution_share (0 ∷ 0 ∷ 0 ∷ 1 ∷ [])
unfolding block_coinbase Readable
solution-Submittable = record {
  hash_size = refl;
  assembly = _;
  has_assembly = refl;
  coinbase = build_coinbase run_job solution_share (0 ∷ 0 ∷ 0 ∷ 1 ∷ []);
  coinbase_made = refl;
  coinbase_reads = (empty_transaction, refl);
  transactions_read = ((empty_transaction, refl), tt);
  few = omega arith;
}

the_solution : Solution wired authorized solution_request run_job
unfolding logging main_wiring map_request_to_command known map_submit_params map_submit_items
    string_at eight_hex u32_from_hex parse_version_bits unnegotiated resolved_version session_share
    be_value hash_value share_header double_sha256 nbits_to_target Worker.new
the_solution = record {
  username = "u";
  extra_nonce2 = 0 ∷ 0 ∷ 0 ∷ 1 ∷ [];
  ntime = 5;
  nonce = 9;
  bits = none;
  mapped = refl;
  worker = Worker.new "u";
  admitted = record { authorized = refl; same_name = refl; rolling = refl };
  length_fits = refl;
  extranonce1 = 0 ∷ 0 ∷ 0 ∷ 1 ∷ [];
  extranonce1_decodes = refl;
  share = solution_share;
  share_is = refl;
  version = 0x20000000;
  resolves = refl;
  meets = omega arith;
  submittable = solution-Submittable;
}

-- The session before the job is pushed to it, with the counter as the subscription has left it.
abbrev waiting : SessionState
waiting = record authorized { last_notify_job_id = none }

abbrev shared : Shared (Pool (ℕ × List BlockCandidate))
shared = record { next_extranonce1 = 2; world = fresh_pool }

abbrev after_push : Turn (Pool (ℕ × List BlockCandidate))
after_push =
    turn (sv1_handler wired) wired.initial_difficulty wired.json wired.hex_decode
      (pushed run_job all_written) shared waiting

run_job-Current : Current run_job (wired.current_job shared.world.node).1
unfolding Current logging main_wiring pool_services build_pool_services
    new_with_validator_and_share_sink new_inner with_log main_pool block_height
run_job-Current = rw (run_source 0) (inr (run_job, refl, refl, refl))

pushed-solved_example :
    let t' =
      turn
        (sv1_handler wired)
        wired.initial_difficulty
        wired.json
        wired.hex_decode
        (request solution_request all_written)
        after_push.shared
        after_push.session_state in
    (t'.shared.world.node
      ≡ (wired.submit_block (wired.current_job shared.world.node).0 (
          sent flat_bitcoin
            (share_header zero_digest run_job solution_share (0 ∷ 0 ∷ 0 ∷ 1 ∷ []) 0x20000000)
            solution-Submittable.assembly
            solution-Submittable.coinbase)).0)
    × (t'.sent ≡ response submit_success ∷ [])
unfolding the_solution is_authorized already_notified logging main_wiring pool_services
    build_pool_services new_with_validator_and_share_sink new_inner with_validator_and_share_sink
    pool_difficulty
pushed-solved_example =
    pushed-solved wired zero_digest-IsHash refl (omega arith) waiting run_job shared all_written
      all_written solution_request the_solution refl refl refl refl refl refl run_job-Current
