-- ===== src/PoolCore/Stats.antt =====
-- crates/pool_core/src/services.rs: `InMemoryStatsSnapshot`. The counters are atomic, so the calls of
-- all sessions form one sequence; `fetch_add` and `fetch_sub` wrap around at 2 ^ 64.
use azcoin_stratum_pool.Prelude.{
  ℕ, zero, suc, ◌+◌, ◌-◌, ◌%◌, ◌^◌, String, List, [], ◌∷◌, ◌≡◌, refl, arith, Option, none, some,
}
use azcoin_stratum_pool.PoolCore.Types.{PoolStats}

abbrev u64_mod : ℕ
u64_mod = 2 ^ 64

pub record InMemoryStatsSnapshot : Type 0 where
  pub pool_name : String
  pub active_connections : ℕ
  pub worker_count : ℕ
  pub round_height : ℕ
  pub round_status : String

unfoldable pub new : String → InMemoryStatsSnapshot
new pool_name = record {
  pool_name = pool_name;
  active_connections = 0;
  worker_count = 0;
  round_height = 0;
  round_status = "open";
}

unfoldable pub record_connection : InMemoryStatsSnapshot → InMemoryStatsSnapshot
record_connection s = record s { active_connections = (s.active_connections + 1) % u64_mod }

unfoldable pub record_disconnection : InMemoryStatsSnapshot → InMemoryStatsSnapshot
record_disconnection s = record s {
  active_connections = (s.active_connections + u64_mod - 1) % u64_mod;
}

unfoldable pub set_worker_count : InMemoryStatsSnapshot → ℕ → InMemoryStatsSnapshot
set_worker_count s n = record s { worker_count = n }

unfoldable pub set_round_height : InMemoryStatsSnapshot → ℕ → InMemoryStatsSnapshot
set_round_height s h = record s { round_height = h }

unfoldable pub snapshot : InMemoryStatsSnapshot → PoolStats
snapshot s = record {
  pool_name = s.pool_name;
  worker_count = s.worker_count;
  round_height = s.round_height;
  round_status = s.round_status;
}

pub data Call : Type 0 where
  connect disconnect : Call
  workers : ℕ → Call
  height : ℕ → Call

unfoldable pub step : InMemoryStatsSnapshot → Call → InMemoryStatsSnapshot
unfolding record_connection record_disconnection set_worker_count set_round_height
step s connect = record_connection s
step s disconnect = record_disconnection s
step s (workers n) = set_worker_count s n
step s (height h) = set_round_height s h

unfoldable pub run : InMemoryStatsSnapshot → List Call → InMemoryStatsSnapshot
run s [] = s
run s (c ∷ cs) = run (step s c) cs

-- The sessions open after the calls, from `n` open ones; none if more are closed than were open,
-- which does not happen: a session's disconnection follows its own connection.
unfoldable pub open_after : ℕ → List Call → Option ℕ
open_after n [] = some n
open_after n (connect ∷ cs) = open_after (suc n) cs
open_after zero (disconnect ∷ cs) = none
open_after (suc n) (disconnect ∷ cs) = open_after n cs
open_after n (workers k ∷ cs) = open_after n cs
open_after n (height k ∷ cs) = open_after n cs

run-active :
    (s : InMemoryStatsSnapshot) (n m : ℕ) (cs : List Call)
    → s.active_connections ≡ n % u64_mod
    → open_after n cs ≡ some m
    → (run s cs).active_connections ≡ m % u64_mod
unfolding run step open_after
run-active s n m [] a o = ground (arith, a, o)
run-active s n m (connect ∷ cs) a o =
    run-active (record_connection s) (suc n) m cs (ground (arith, a)) o
run-active s zero m (disconnect ∷ cs) a o = cc
run-active s (suc n) m (disconnect ∷ cs) a o =
    run-active (record_disconnection s) n m cs (ground (arith, a)) o
run-active s n m (workers k ∷ cs) a o = run-active (set_worker_count s k) n m cs a o
run-active s n m (height k ∷ cs) a o = run-active (set_round_height s k) n m cs a o

-- After any sequence of the counters' calls in which no more sessions end than have begun, the
-- connection counter is the number of open sessions modulo 2 ^ 64.
pub active-run :
    (name : String) (cs : List Call) (m : ℕ)
    → open_after 0 cs ≡ some m
    → (run (new name) cs).active_connections ≡ m % u64_mod
unfolding new
active-run name cs m o = run-active (new name) 0 m cs refl o
