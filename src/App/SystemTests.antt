-- ===== src/App/SystemTests.antt =====
-- The theorems on the whole pool at a run in which a miner connects, subscribes, authorizes and sends a
-- solved share.
use azcoin_stratum_pool.Prelude.{
  ℕ, suc, ◌+◌, ◌%◌, ◌^◌, String, true, none, some, List, [], ◌∷◌, Result, ok, if◌then◌else◌,
  string_eq, ◌==◌, length, replicate, get_elem?, All, ◌≡◌, refl,
}
use azcoin_stratum_pool.PoolCore.Types.{Bytes, Job, BlockCandidate}
use azcoin_stratum_pool.Coin.Template.{
  coinbase_inputs, build_coinbase_parts, template_to_job, decode_prev_hash, decode_bits,
  decode_coinbase_aux_flags, decode_default_witness_commitment, decode_optional,
  decode_template_transactions, decode_transactions_from, build_merkle_branch, branch_of,
  branch_entry, transaction_id, split_at_placeholder, position, starts_with,
}
use azcoin_stratum_pool.Coin.Http.{Send, JsonValue}
use azcoin_stratum_pool.Prelude.Text.{hex08, decimal, trim, trim_start, trim_end, is_blank}
use azcoin_stratum_pool.Prelude.Words.{be_value}
use azcoin_stratum_pool.PoolCore.Worker
use azcoin_stratum_pool.Coin.Coinbase.{build_coinbase_transaction, serialize_no_witness}
use azcoin_stratum_pool.Coin.Daemon
use azcoin_stratum_pool.Coin.Daemon.{
  get_block_template, rpc_call, read_response, rpc_error, rpc_status,
}
use azcoin_stratum_pool.Coin.JobSource.{rpc_current_job, rpc_job, mapped}
use azcoin_stratum_pool.Common.Config.{
  payout_script_pubkey_bytes, if_ok, set_pool, set_daemon, set_listeners, apply_env_overrides,
  checked, load_config,
}
use azcoin_stratum_pool.PoolCore.Stats
use azcoin_stratum_pool.PoolCore.Services.{new_inner, new_with_validator_and_share_sink}
use azcoin_stratum_pool.App.Composition.{
  build_job_source, source_of, payout_or_none, build_pool_services,
}
use azcoin_stratum_pool.Sv1.Mapper.{known, string_at, map_authorize_params, map_request_to_command}
use azcoin_stratum_pool.Sv1.Session.{
  SessionState, new_session, dispatch_request, dispatch_command, dispatch_subscribe,
  dispatch_authorize,
}
use azcoin_stratum_pool.Sv1.Server.{
  Event, request, pushed, response, is_authorized, already_notified, Turn, accept, after_turn, turn,
  answer, answer_with, stay, notify, send_job_notify,
}
use azcoin_stratum_pool.Sv1.Server as Sv1Server
use azcoin_stratum_pool.Sv1.Server.Keeps.{Carries}
use azcoin_stratum_pool.App.Handler.{Pool, on_connect, on_authorize}
use azcoin_stratum_pool.App.System.{
  Wiring, System, sv1_handler, tick, session_turn, Step, begin, Reach, begun, next, Outside,
  source_current_job, pool_services, main_wiring, main_pool,
}
use azcoin_stratum_pool.App.System.Blocks.{logging, with_log, Mined, main-Mined}
use azcoin_stratum_pool.App.Poller.{new_poller, Fresh, last_sent}
use azcoin_stratum_pool.App.System.Broadcasts.{broadcasts-Fresh}
use azcoin_stratum_pool.App.System.Keeps.{Offered}
use azcoin_stratum_pool.App.System.Jobs.{Registered, job_registry-Registered}
use azcoin_stratum_pool.App.System.Connections.{active_connections-counted}
use azcoin_stratum_pool.Coin.Tests.{zero_digest, zero_digest-IsHash, no_hex}
use azcoin_stratum_pool.Coin.JobTests.{flat_bitcoin, a_template, a_job}
use azcoin_stratum_pool.Sv1.Tests.{texts}
use azcoin_stratum_pool.Sv1.ServerTests.{all_written}
use azcoin_stratum_pool.Common.Tests.{no_file, an_env, no_toml, a_config, no_toml-InBounds}

-- Four bytes for the bits and the nonces, 32 for everything else.
abbrev pub decode_run : String → Result Bytes String
decode_run s =
    if s == "bits"
    then ok (replicate 4 1)
    else if s == "00000001"
    then ok (0 ∷ 0 ∷ 0 ∷ 1 ∷ [])
    else ok (replicate 32 0)

-- Every answer has a result, which is null.
abbrev pub nulls : JsonValue (List String)
nulls = record {
  string = λ s. s ∷ [];
  array = λ items. [];
  object = λ fields. [];
  get = λ v key. if key == "result" then some [] else none;
  is_null = λ v. true;
  as_str = λ v. none;
  to_text = λ v. "null";
}

abbrev pub replying : Send ℕ (List String)
replying n req = (suc n, ok (record { is_success = true; status = "200 OK"; json = ok [] }))

abbrev pub outside : Outside ℕ (List String) (Unit {0})
outside = record {
  hex_decode = decode_run;
  hex_encode = no_hex;
  sha256 = zero_digest;
  bitcoin = flat_bitcoin;
  json = texts;
  json_value = nulls;
  send = replying;
  block_template_of = λ v. ok a_template;
  api_template_of = λ v. Result.err "no template";
  share_sink = λ client share result difficulty. ok tt;
}

abbrev pub wired : Wiring (ℕ × List BlockCandidate) (List String) (Unit {0})
wired = logging (main_wiring outside a_config)

abbrev pub fresh_pool : Pool (ℕ × List BlockCandidate)
fresh_pool = with_log (main_pool outside a_config 0)

abbrev pub line : String → List String → Event (List String)
line method params =
    request (record { id = none; method = method; params = some params }) all_written

abbrev pub subscribed : SessionState
subscribed = record new_session {
  subscribed = true;
  extranonce1 = "00000001";
  extranonce2_size = 4;
}

abbrev pub authorized : SessionState
authorized = record subscribed {
  authorized_worker = some (record { id = "u"; username = some "u"; worker_name = none });
  last_notify_job_id = some "840000";
}

abbrev pub solution_line : Event (List String)
solution_line = line "mining.submit" ("u" ∷ "840000" ∷ "00000001" ∷ "00000005" ∷ "00000009" ∷ [])

-- The job that the source gives, whatever the state of the node.
abbrev pub run_job : Job
run_job = record a_job { job_id = "840000"; merkle_branch = replicate 32 0 ∷ [] }

pub run_source :
    (n : ℕ)
    → source_current_job outside (build_job_source decode_run a_config) n ≡ (suc n, some run_job)
unfolding source_current_job build_job_source source_of payout_or_none payout_script_pubkey_bytes
    trim trim_start trim_end is_blank Daemon.new rpc_current_job get_block_template rpc_call
    read_response rpc_error rpc_status rpc_job mapped template_to_job decode_prev_hash decode_bits
    decode_coinbase_aux_flags decode_default_witness_commitment decode_optional
    decode_template_transactions decode_transactions_from build_merkle_branch branch_of branch_entry
    transaction_id build_coinbase_parts build_coinbase_transaction split_at_placeholder position
    starts_with serialize_no_witness coinbase_inputs be_value decimal
run_source n = refl

abbrev pub connected_system : System (ℕ × List BlockCandidate)
connected_system = record (begin wired fresh_pool) {
  server = accept (sv1_handler wired) (begin wired fresh_pool).server;
}

abbrev pub subscribed_system : System (ℕ × List BlockCandidate)
subscribed_system = session_turn wired connected_system 0 new_session (line "mining.subscribe" [])

abbrev pub authorized_system : System (ℕ × List BlockCandidate)
authorized_system =
    session_turn wired subscribed_system 0 subscribed (line "mining.authorize" ("u" ∷ "p" ∷ []))

abbrev pub solved_system : System (ℕ × List BlockCandidate)
solved_system = session_turn wired authorized_system 0 authorized solution_line

connected-at : get_elem? connected_system.server.sessions 0 ≡ some new_session
unfolding accept begin Sv1Server.start
connected-at = refl

subscribed-at : get_elem? subscribed_system.server.sessions 0 ≡ some subscribed
unfolding session_turn turn answer answer_with stay dispatch_request dispatch_command
    dispatch_subscribe map_request_to_command after_turn accept begin Sv1Server.start hex08
subscribed-at = refl

authorized-at : get_elem? authorized_system.server.sessions 0 ≡ some authorized
unfolding session_turn turn answer answer_with stay dispatch_request dispatch_command
    dispatch_authorize known map_authorize_params logging main_wiring string_at sv1_handler
    on_authorize pool_services build_pool_services new_with_validator_and_share_sink new_inner
    notify send_job_notify with_log main_pool on_connect Worker.new dispatch_subscribe
    map_request_to_command after_turn accept begin Sv1Server.start hex08
authorized-at = rw (run_source 0) refl

pub solved-Reach : Reach wired fresh_pool 4 solved_system
unfolding Carries
solved-Reach =
    next
      (next
        (next (next begun Step.accepted)
          (Step.turned 0 new_session (line "mining.subscribe" []) connected-at tt))
        (Step.turned 0 subscribed (line "mining.authorize" ("u" ∷ "p" ∷ [])) subscribed-at tt))
      (Step.turned 0 authorized solution_line authorized-at tt)

active_connections-counted_example :
    solved_system.server.common.world.stats.active_connections
    ≡ (length solved_system.server.sessions + solved_system.server.crashed) % 2 ^ 64
unfolding with_log main_pool pool_services build_pool_services new_with_validator_and_share_sink
    new_inner Stats.new
active_connections-counted_example =
    active_connections-counted wired fresh_pool 4 solved_system refl solved-Reach

job_registry-Registered_example :
    Registered (Offered wired) solved_system.server.common.world.state.job_registry
unfolding with_log main_pool pool_services build_pool_services new_with_validator_and_share_sink
    new_inner
job_registry-Registered_example =
    job_registry-Registered wired fresh_pool 4 solved_system refl solved-Reach

run_loaded : load_config decode_run no_toml no_file an_env none ≡ ok a_config
unfolding load_config checked apply_env_overrides set_pool set_daemon set_listeners if_ok
    payout_script_pubkey_bytes trim trim_start trim_end is_blank
run_loaded = refl

main-Mined_example :
    All (Mined (main_wiring outside a_config)) solved_system.server.common.world.node.1
main-Mined_example =
    main-Mined outside zero_digest-IsHash no_toml no_file an_env no_toml-InBounds none a_config
      run_loaded 0 4 solved_system solved-Reach

-- Two ticks of the poller.
abbrev broadcast_system : System (ℕ × List BlockCandidate)
broadcast_system = tick wired (tick wired (begin wired fresh_pool))

broadcasts-Fresh_example :
    Fresh new_poller broadcast_system.broadcasts
    × (last_sent new_poller broadcast_system.broadcasts ≡ broadcast_system.poller)
broadcasts-Fresh_example =
    broadcasts-Fresh wired fresh_pool 2 broadcast_system (next (next begun Step.ticked) Step.ticked)
