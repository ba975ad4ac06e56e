-- ===== src/App/System.antt =====
-- crates/azcoin-pool/src/main.rs: the sessions, the poller and the HTTP API over one pool.
-- A step is one call of the handler with the turn that makes it, one tick of the poller, or one request
-- to the API; the broadcast channel delivers only jobs that were sent.
pub mod Keeps
pub mod Connections
pub mod Jobs
pub mod Blocks
pub mod Solved
pub mod Broadcasts
pub mod Pushed
pub mod History
pub mod Templates
pub mod RestJobs
pub mod Workers
use azcoin_stratum_pool.Prelude.{
  ℕ, suc, String, Bool, Option, none, some, List, [], ◌∷◌, ◌++◌, Result, ok, err, if◌then◌else◌,
  get_elem?, ◌≡◌, ◌⊎◌,
}
use azcoin_stratum_pool.PoolCore.Types.{Bytes, Job, BlockCandidate}
use azcoin_stratum_pool.PoolCore.Processor.{ShareSink, JobAwareShareProcessor}
use azcoin_stratum_pool.PoolCore.Services.{PoolServices}
use azcoin_stratum_pool.Coin.Coinbase.{Bitcoin}
use azcoin_stratum_pool.Coin.Template.{BlockTemplate}
use azcoin_stratum_pool.Coin.Http.{Send, JsonValue}
use azcoin_stratum_pool.Coin.Daemon
use azcoin_stratum_pool.Coin.Daemon.{submit_candidate}
use azcoin_stratum_pool.Coin.NodeApi.{NodeApiClient, NodeApiTemplate}
use azcoin_stratum_pool.Coin.JobSource.{rpc_current_job, api_current_job}
use azcoin_stratum_pool.Common.Config.{PoolConfig}
use azcoin_stratum_pool.Sv1.Messages.{Json}
use azcoin_stratum_pool.Sv1.Session.{SessionState, SessionEventHandler, Shared}
use azcoin_stratum_pool.Sv1.Server.{Event, Server, turn, accept, after_turn}
use azcoin_stratum_pool.Sv1.Server as Sv1Server
use azcoin_stratum_pool.Sv1.Server.Keeps.{Carries}
use azcoin_stratum_pool.App.Handler
use azcoin_stratum_pool.App.Handler.{Pool}
use azcoin_stratum_pool.App.Poller.{Poller, new_poller, is_new, seen}
use azcoin_stratum_pool.App.Composition.{
  JobSource, from_rpc, from_api, build_job_source, build_pool_services,
}
use azcoin_stratum_pool.App.Api.{pool_jobs_current}

-- What the tasks of the pool share; `N` is the state of the node.
pub record Wiring (N V O : Type 0) : Type 0 where
  pub current_job : N → N × Option Job
  pub submit_block : N → BlockCandidate → N × Result Bool String
  pub share_processor : JobAwareShareProcessor
  pub initial_difficulty : ℕ
  pub hex_decode : String → Result Bytes String
  pub hex_encode : Bytes → String
  pub sha256 : Bytes → Bytes
  pub bitcoin : Bitcoin
  pub json : Json V O

-- `broadcasts` are the jobs that the poller has sent, oldest first.
pub record System (N : Type 0) : Type 0 where
  pub server : Server (Pool N)
  pub poller : Poller
  pub broadcasts : List Job

unfoldable pub Sent : Job → List Job → Type 0
Sent job [] = ⊥
Sent job (first ∷ rest) = (job ≡ first) ⊎ Sent job rest

-- `hex::decode(..).ok()`
unfoldable pub decoded : (String → Result Bytes String) → String → Option Bytes
decoded hex_decode text = elim (hex_decode text) [ ok bytes ↦ some bytes | err e ↦ none ]

unfoldable pub with_pool : {N : Type 0} → Server (Pool N) → Pool N → Server (Pool N)
with_pool server pool = record server {
  common = record { next_extranonce1 = server.common.next_extranonce1; world = pool };
}

module _ {N V O : Type 0} (w : Wiring N V O) where
  -- `Sv1SessionHandler` as the listener's handler.
  unfoldable pub sv1_handler : SessionEventHandler (Pool N)
  sv1_handler = record {
    on_connect = Handler.on_connect;
    on_disconnect = Handler.on_disconnect;
    on_authorize = Handler.on_authorize w.current_job;
    on_notify_sent = Handler.on_notify_sent;
    on_submit =
        Handler.on_submit w.current_job (decoded w.hex_decode) w.sha256 w.hex_encode w.bitcoin
          w.submit_block w.share_processor;
  }

  -- One turn of the poller's loop.
  unfoldable pub tick : System N → System N
  tick sys =
      let pool = sys.server.common.world in
      let (n', answer) = w.current_job pool.node in
      let server = with_pool sys.server (record pool { node = n' }) in
      elim answer [
        | none ↦ record sys { server = server }
        | some job ↦ record {
          server = server;
          poller = seen sys.poller job;
          broadcasts =
              if is_new sys.poller job then sys.broadcasts ++ (job ∷ []) else sys.broadcasts;
        }
      ]

  unfoldable pub session_turn : System N → ℕ → SessionState → Event V → System N
  session_turn sys i s e = record sys {
    server =
        after_turn sv1_handler sys.server i
          (turn sv1_handler w.initial_difficulty w.json w.hex_decode e sys.server.common s);
  }

  pub data Step (sys : System N) : System N → Type 0 where
    accepted : Step sys (record sys { server = accept sv1_handler sys.server })
    turned :
        (i : ℕ) (s : SessionState) (e : Event V)
        → get_elem? sys.server.sessions i ≡ some s
        → Carries (λ job. Sent job sys.broadcasts) e
        → Step sys (session_turn sys i s e)
    ticked : Step sys (tick sys)
    jobs_shown : Step sys (record sys {
      server =
          with_pool sys.server
            (pool_jobs_current w.current_job w.hex_encode sys.server.common.world).0;
    })

  unfoldable pub begin : Pool N → System N
  begin pool = record {
    server = Sv1Server.start sv1_handler pool;
    poller = new_poller;
    broadcasts = [];
  }

  -- What the pool reaches in `k` steps.
  pub data Reach (pool : Pool N) : ℕ → System N → Type 0 where
    begun : Reach pool 0 (begin pool)
    next :
        {k : ℕ} {before after : System N}
        → Reach pool k before
        → Step before after
        → Reach pool (suc k) after

-- What the program takes from outside: the crates, and the network behind `send`.
pub record Outside (N V O : Type 0) : Type 0 where
  pub hex_decode : String → Result Bytes String
  pub hex_encode : Bytes → String
  pub sha256 : Bytes → Bytes
  pub bitcoin : Bitcoin
  pub json : Json V O
  pub json_value : JsonValue V
  pub send : Send N V
  pub block_template_of : V → Result BlockTemplate String
  pub api_template_of : V → Result NodeApiTemplate String
  pub share_sink : NodeApiClient → ShareSink

module _ {N V O : Type 0} (o : Outside N V O) where
  -- `current_job` of the source that was built.
  unfoldable pub source_current_job : JobSource → N → N × Option Job
  source_current_job (from_rpc source) n =
      rpc_current_job o.hex_decode o.send o.json_value o.block_template_of o.bitcoin source n
  source_current_job (from_api source) n =
      api_current_job o.hex_decode o.send o.api_template_of source n

  unfoldable pub pool_services : PoolConfig → PoolServices N
  pool_services c =
      build_pool_services o.sha256 o.hex_encode o.share_sink
        (source_current_job (build_job_source o.hex_decode c)) c

  -- `main`, from a configuration that was loaded.
  unfoldable pub main_wiring : PoolConfig → Wiring N V O
  main_wiring c = record {
    current_job = (pool_services c).job_source;
    submit_block =
        submit_candidate o.json_value o.send
          (Daemon.new c.daemon.url c.daemon.rpc_user c.daemon.rpc_password) o.hex_encode;
    share_processor = (pool_services c).share_processor;
    initial_difficulty = c.pool.initial_difficulty;
    hex_decode = o.hex_decode;
    hex_encode = o.hex_encode;
    sha256 = o.sha256;
    bitcoin = o.bitcoin;
    json = o.json;
  }

  unfoldable pub main_pool : PoolConfig → N → Pool N
  main_pool c n = record {
    stats = (pool_services c).stats;
    worker_registry = (pool_services c).worker_registry;
    state = (pool_services c).pool_state;
    node = n;
  }
