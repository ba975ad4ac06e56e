-- ===== src/App/System/Blocks.antt =====
-- The blocks that the pool gives to its node over its runs.
use azcoin_stratum_pool.Prelude.{
  ℕ, ◌^◌, ◌<◌, String, Option, some, List, [], ◌∷◌, All, Result, ok, ◌≡◌, refl, sym, subst,
}
use azcoin_stratum_pool.PoolCore.Types.{Bytes, Job, BlockCandidate}
use azcoin_stratum_pool.PoolCore.Registry
use azcoin_stratum_pool.PoolCore.Registry.{get_job}
use azcoin_stratum_pool.PoolCore.Services.{new_inner, new_with_validator_and_share_sink}
use azcoin_stratum_pool.PoolCore.Processor.{with_validator_and_share_sink}
use azcoin_stratum_pool.Coin.Target.Shape.{IsHash}
use azcoin_stratum_pool.Coin.ShareValidator.{validate_share}
use azcoin_stratum_pool.Common.Config.{PoolConfig, load_config}
use azcoin_stratum_pool.Common.Config.Laws.{InBounds, load_config-Loaded}
use azcoin_stratum_pool.Sv1.Server.Keeps.{Keeps}
use azcoin_stratum_pool.App.Handler.{Pool, on_connect, on_disconnect, on_notify_sent, on_authorize}
use azcoin_stratum_pool.App.Handler.Keeps.{Solves, on_submit-kept, on_submit-Keeps}
use azcoin_stratum_pool.App.Composition.{build_pool_services, pool_difficulty}
use azcoin_stratum_pool.App.System.{
  Wiring, System, decoded, sv1_handler, Reach, Outside, pool_services, main_wiring, main_pool,
}
use azcoin_stratum_pool.App.System.Keeps.{Offered, authorized-Offered, Reach-Holds}
use azcoin_stratum_pool.App.System.Jobs.{
  Registered, new-Registered, register-Registered, get_job-Registered,
}

module _ {N V O : Type 0} (w : Wiring N V O) (Q : N → Type 0) where
  abbrev Holds : ℕ → Pool N → Type 0
  Holds n pool = Registered (Offered w) pool.state.job_registry × Q pool.node

  -- What the node keeps when it is asked for a job and when it is given a solved block of an offered
  -- job holds over the runs.
  module _ (asked : (n : N) → Q n → Q (w.current_job n).0)
      (given : (n : N) (job : Job) (candidate : BlockCandidate)
        → Offered w job
        → Solves w.sha256 w.hex_encode w.bitcoin job candidate
        → Q n
        → Q (w.submit_block n candidate).0)
      (digest_size : (input : Bytes) → IsHash (w.sha256 input))
      (validator : w.share_processor.share_validator ≡ some (validate_share w.sha256 w.hex_encode))
      (small : w.share_processor.pool_difficulty < 2 ^ 32) where
    handler-Holds : Keeps (sv1_handler w) (λ pool. Offered w) Holds
    unfolding sv1_handler on_connect on_disconnect on_notify_sent on_authorize
    handler-Holds = record {
      connect = λ n pool h. h;
      disconnect = λ n pool h. h;
      authorize = λ n pool username h. (h.0, asked pool.node h.1);
      authorized_job = λ n pool username job h e. authorized-Offered w pool username job e;
      notify_sent = λ n pool job j h. (register-Registered (Offered w) _ job j h.0, h.1);
      submit = λ n pool share h. (
        subst (Registered (Offered w))
            (sym
              (on_submit-kept w.current_job (decoded w.hex_decode) w.sha256 w.hex_encode w.bitcoin
                w.submit_block w.share_processor pool share).1)
            h.0,
        on_submit-Keeps w.current_job (decoded w.hex_decode) w.sha256 w.hex_encode w.bitcoin
            w.submit_block Q asked digest_size w.share_processor validator small pool share
            (λ m job candidate known.
              given m job candidate (get_job-Registered (Offered w) _ share.job_id job h.0 known))
            h.1,
      );
    }

    pub node-Holds :
        (pool : Pool N) (k : ℕ) (sys : System N)
        → pool.state.job_registry ≡ Registry.new
        → Q pool.node
        → Reach w pool k sys
        → Q sys.server.common.world.node
    node-Holds pool k sys h q r =
        (Reach-Holds w Holds handler-Holds (λ n pool' held. (held.0, asked pool'.node held.1)) pool
          k sys (subst (Registered (Offered w)) (sym h) (new-Registered (Offered w)), q) r).1

-- The node with a list of the blocks that it was given, newest first.
unfoldable pub logging : {N V O : Type 0} → Wiring N V O → Wiring (N × List BlockCandidate) V O
logging w = record {
  current_job = λ node. (((w.current_job node.0).0, node.1), (w.current_job node.0).1);
  submit_block = λ node candidate. (
    ((w.submit_block node.0 candidate).0, candidate ∷ node.1),
    (w.submit_block node.0 candidate).1,
  );
  share_processor = w.share_processor;
  initial_difficulty = w.initial_difficulty;
  hex_decode = w.hex_decode;
  hex_encode = w.hex_encode;
  sha256 = w.sha256;
  bitcoin = w.bitcoin;
  json = w.json;
}

unfoldable pub with_log : {N : Type 0} → Pool N → Pool (N × List BlockCandidate)
with_log pool = record {
  stats = pool.stats;
  worker_registry = pool.worker_registry;
  state = pool.state;
  node = (pool.node, []);
}

-- A block of a job that the source gives in some state of the node, over a header that meets the
-- job's target.
unfoldable pub Mined : {N V O : Type 0} → Wiring N V O → BlockCandidate → Type 0
Mined w candidate =
    (job : Job) × Offered w job × Solves w.sha256 w.hex_encode w.bitcoin job candidate

Offered-logging :
    {N V O : Type 0} (w : Wiring N V O) (job : Job) → Offered (logging w) job → Offered w job
unfolding Offered logging
Offered-logging w job (node, e) = (node.0, e)

module _ {N V O E : Type 0} (o : Outside N V O)
    (digest_size : (input : Bytes) → IsHash (o.sha256 input))
    (from_toml : String → Result PoolConfig String) (read_to_string : String → Option String)
    (var : String → Result String E)
    (typed : (s : String) (c : PoolConfig) → from_toml s ≡ ok c → InBounds c) where
  -- Where digests have 32 bytes and a file that parses has numbers of the widths of their types: from
  -- a configuration that is loaded, after any steps, whatever the miners send and whatever the network
  -- answers, every block that was given to the node is of a job that the source gives in some state of
  -- the node: its header is rebuilt from a share of that job and hashes to a number that the target of
  -- the job's bits admits, and it holds the coinbase of that share and the transactions of the job's
  -- template.
  pub main-Mined :
      (path : Option String) (c : PoolConfig)
      → load_config o.hex_decode from_toml read_to_string var path ≡ ok c
      → (n : N) (k : ℕ) (sys : System (N × List BlockCandidate))
      → Reach (logging (main_wiring o c)) (with_log (main_pool o c n)) k sys
      → All (Mined (main_wiring o c)) sys.server.common.world.node.1
  unfolding logging with_log main_wiring main_pool pool_services build_pool_services
      new_with_validator_and_share_sink new_inner with_validator_and_share_sink pool_difficulty
      Mined InBounds
  main-Mined path c loaded n k sys r =
      let l = load_config-Loaded o.hex_decode from_toml read_to_string var typed path c loaded in
      node-Holds (logging (main_wiring o c)) (λ node. All (Mined (main_wiring o c)) node.1)
        (λ node h. h)
        (λ node job candidate offered solves h.
          ((job, Offered-logging (main_wiring o c) job offered, solves), h))
        digest_size refl l.in_bounds.0 (with_log (main_pool o c n)) k sys refl tt r
