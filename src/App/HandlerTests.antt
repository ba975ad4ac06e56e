-- ===== src/App/HandlerTests.antt =====
-- The theorems on the session handler at concrete inputs.
use azcoin_stratum_pool.Prelude.{
  ℕ, suc, ◌≤◌, String, Bool, true, false, string_eq, Option, none, some, [], ◌∷◌, ok, ◌≡◌, ◌≢◌,
  refl, arith, inl, inr,
}
use azcoin_stratum_pool.Prelude.HashMap
use azcoin_stratum_pool.Prelude.Words.{be_value}
use azcoin_stratum_pool.PoolCore.Types.{Bytes, Job, block}
use azcoin_stratum_pool.PoolCore.Stats
use azcoin_stratum_pool.PoolCore.Registry.{get_job}
use azcoin_stratum_pool.PoolCore.Processor.{
  JobAwareShareProcessor, process_share, verdict, check_context, check_extra_nonce2,
  check_version_bits, validate_known, session_extranonce1,
}
use azcoin_stratum_pool.Coin.Target.{nbits_to_target, large_target}
use azcoin_stratum_pool.Coin.Header.{build_coinbase, double_sha256}
use azcoin_stratum_pool.Coin.ShareValidator.{validate_share, build_solved_block_header}
use azcoin_stratum_pool.Coin.ShareValidator.Outcome.{
  hash_value, share_header, validate_share_outcome,
}
use azcoin_stratum_pool.Coin.RawBlock.Laws.{Readable}
use azcoin_stratum_pool.Coin.Candidate.{block_coinbase}
use azcoin_stratum_pool.App.Handler.{Pool, block_height, on_submit}
use azcoin_stratum_pool.App.Handler.Laws.{Current, Submittable, on_submit_stale, on_submit-block}
use azcoin_stratum_pool.Coin.Tests.{
  zero_digest, zero_digest-IsHash, no_hex, a_share, toy_bitcoin, count_blocks, solved_job, rolled,
  a_share_version, empty_transaction,
}

abbrev no_nonce : Bytes
no_nonce = 0 ∷ 0 ∷ 0 ∷ 0 ∷ []

abbrev job_seven : Job
job_seven = record solved_job { job_id = "7" }

-- A pool that knows one job, and a node that counts its calls and offers a job.
abbrev a_pool : Pool ℕ
a_pool = record {
  stats = Stats.new "pool";
  worker_registry = [];
  state = record {
    job_registry = record { by_id = ("7", job_seven) ∷ []; order = "7" ∷ [] };
    recent_buffer = [];
    posted = [];
    sink_failures = 0;
  };
  node = 0;
}

abbrev offering : Job → ℕ → ℕ × Option Job
offering job n = (suc n, some job)

abbrev processor : JobAwareShareProcessor
processor = record {
  share_validator = some (validate_share zero_digest no_hex);
  pool_difficulty = 4;
  share_sink = none;
}

abbrev decode_none : String → Option Bytes
decode_none s = none

job_seven_judged : validate_share zero_digest no_hex job_seven a_share no_nonce 4 ≡ block
unfolding be_value hash_value share_header double_sha256 nbits_to_target large_target
job_seven_judged =
    validate_share_outcome zero_digest no_hex zero_digest-IsHash job_seven a_share no_nonce 4 rolled
      (omega arith) a_share_version

a_share_judged : (process_share decode_none processor a_pool.state a_share).0 ≡ block
unfolding process_share verdict check_context check_extra_nonce2 check_version_bits validate_known
    session_extranonce1 get_job HashMap.lookup
a_share_judged = job_seven_judged

job_seven-Submittable : Submittable toy_bitcoin job_seven a_share no_nonce
unfolding block_coinbase Readable
job_seven-Submittable = record {
  hash_size = refl;
  assembly = _;
  has_assembly = refl;
  coinbase = build_coinbase job_seven a_share no_nonce;
  coinbase_made = refl;
  coinbase_reads = (empty_transaction, refl);
  transactions_read = tt;
  few = omega arith;
}

on_submit-block_example :
    let after =
      on_submit
        (offering job_seven)
        decode_none
        zero_digest
        no_hex
        toy_bitcoin
        count_blocks
        processor
        a_pool
        a_share in
    (header : Bytes) × (build_solved_block_header zero_digest no_hex job_seven a_share no_nonce
      ≡ ok header)
    × (hash_value zero_digest header ≤ be_value (nbits_to_target job_seven.nbits))
    × (after.0.node ≡ 2)
    × (after.1 ≡ some block)
unfolding Current block_height get_job HashMap.lookup session_extranonce1
on_submit-block_example =
    on_submit-block (offering job_seven) decode_none zero_digest no_hex toy_bitcoin count_blocks
      processor zero_digest-IsHash a_pool a_share job_seven no_nonce job_seven-Submittable refl
      (omega arith) refl refl (inr (job_seven, refl, refl, refl)) a_share_judged

abbrev job_eight : Job
job_eight = record solved_job { job_id = "8" }

true_not_false : ◌≢◌ {A = Bool} false true
true_not_false h = cc

eight_not_seven : ◌≢◌ {A = String} "8" "7"
eight_not_seven h = let e : false ≡ true = (string_eq.test_iff "8" "7").1 h in true_not_false e

on_submit_stale_example :
    let after =
      on_submit
        (offering job_eight)
        decode_none
        zero_digest
        no_hex
        toy_bitcoin
        count_blocks
        processor
        a_pool
        a_share in
    (after.0.node ≡ 1) × (after.1 ≡ some block)
unfolding block_height get_job HashMap.lookup
on_submit_stale_example =
    on_submit_stale (offering job_eight) decode_none zero_digest no_hex toy_bitcoin count_blocks
      processor a_pool a_share job_seven job_eight a_share_judged refl refl (inl eight_not_seven)

abbrev empty_pool : Pool ℕ
empty_pool = record a_pool { worker_registry = [] }
