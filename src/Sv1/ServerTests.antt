-- ===== src/Sv1/ServerTests.antt =====
-- The theorems on the sessions' loop and the listener at concrete inputs.
use azcoin_stratum_pool.Prelude.{
  ℕ, String, true, none, some, List, [], ◌∷◌, ok, ◌≡◌, refl, arith, All,
}
use azcoin_stratum_pool.PoolCore.Types.{Job, placeholder, ShareResult}
use azcoin_stratum_pool.Sv1.Session.{
  SessionState, new_session, SessionEventHandler, Shared, dispatch_request, dispatch_command,
  dispatch_subscribe,
}
use azcoin_stratum_pool.Sv1.Mapper.{map_request_to_command}
use azcoin_stratum_pool.Prelude.Text.{hex08}
use azcoin_stratum_pool.Sv1.Server.{
  written, Io, Event, request, pushed, is_authorized, already_notified, notify, send_job_notify,
  stay, answer, push, turn, Server, start, accept, after_turn,
}
use azcoin_stratum_pool.Sv1.Server.Laws.{notified, register_all, dispatched, turn_registers}
use azcoin_stratum_pool.Sv1.Server.Distinct.{with_id, subscribed_ids, Distinct}
use azcoin_stratum_pool.Sv1.Server.Reach.{Step, Reach, begun, next, Reach-Distinct}
use azcoin_stratum_pool.Sv1.Server.Sessions.{IsSound}
use azcoin_stratum_pool.Sv1.Server.Soundness.{Reach-IsSound}
use azcoin_stratum_pool.Sv1.Tests.{texts, decode_four, open_session}

-- A handler that keeps the ids of the jobs it is told of.
abbrev noting : SessionEventHandler (List String)
noting = record {
  on_connect = λ w. w;
  on_disconnect = λ w. w;
  on_authorize = λ w username. (w, ok none);
  on_notify_sent = λ w job. job.job_id ∷ w;
  on_submit = λ w share. (w, some ShareResult.accepted);
}

abbrev pub all_written : Io
all_written = record { response_io = written; difficulty_io = written; notify_io = written }

abbrev a_job : Job
a_job = record {
  job_id = "7";
  prev_hash = [];
  coinbase_part1 = [];
  coinbase_part2 = [];
  merkle_branch = [];
  version = 1;
  nbits = 0x1d00ffff;
  ntime = 5;
  clean_jobs = true;
  block_assembly = none;
}

abbrev common : Shared (List String)
common = record { next_extranonce1 = 1; world = [] }

turn_registers_example :
    (turn noting 1 texts decode_four (pushed a_job all_written) common open_session).shared.world
    ≡ "7" ∷ []
unfolding turn register_all notified dispatched push is_authorized already_notified notify
    send_job_notify
turn_registers_example =
    turn_registers noting 1 texts decode_four (pushed a_job all_written) common open_session

abbrev subscribe_event : Event (List String)
subscribe_event =
    request (record { id = none; method = "mining.subscribe"; params = some [] }) all_written

abbrev one_open : Server (List String)
one_open = accept noting (start noting [])

abbrev subscribe_at : ℕ → Server (List String) → SessionState → Server (List String)
subscribe_at i server s =
    after_turn noting server i (turn noting 1 texts decode_four subscribe_event server.common s)

-- Two connections, which subscribe one after the other.
abbrev two_subscribed : Server (List String)
two_subscribed = subscribe_at 1 (subscribe_at 0 (accept noting one_open) new_session) new_session

two_subscribed_ids : subscribed_ids two_subscribed.sessions ≡ "00000001" ∷ "00000002" ∷ []
unfolding subscribed_ids with_id turn answer stay dispatch_request dispatch_command
    dispatch_subscribe map_request_to_command after_turn accept start hex08
two_subscribed_ids = refl

two_subscribed-Reach : Reach noting 1 texts decode_four [] 4 two_subscribed
unfolding turn answer stay dispatch_request dispatch_command dispatch_subscribe
    map_request_to_command after_turn accept start
two_subscribed-Reach =
    next
      (next (next (next begun Step.accepted) Step.accepted)
        (Step.turned 0 new_session subscribe_event refl))
      (Step.turned 1 new_session subscribe_event refl)

Reach-Distinct_example : Distinct (subscribed_ids two_subscribed.sessions)
Reach-Distinct_example =
    Reach-Distinct noting 1 texts decode_four [] 4 two_subscribed (omega arith) two_subscribed-Reach

abbrev branched_job : Job
branched_job = record placeholder { merkle_branch = (1 ∷ 2 ∷ []) ∷ [] }

Reach-IsSound_example : All IsSound two_subscribed.sessions
Reach-IsSound_example =
    Reach-IsSound noting 1 texts decode_four [] 4 two_subscribed two_subscribed-Reach
