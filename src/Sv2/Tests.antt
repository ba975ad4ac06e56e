-- ===== src/Sv2/Tests.antt =====
-- The theorems on the parts for Stratum V2 at concrete inputs.
use azcoin_stratum_pool.Prelude.{
  ℕ, String, true, false, Option, none, some, List, [], ◌∷◌, replicate, Result, ok, err, ◌≡◌, refl,
  arith,
}
use azcoin_stratum_pool.Prelude.Words.{be_value}
use azcoin_stratum_pool.Prelude.Text.{decimal, nibble, as_bytes}
use azcoin_stratum_pool.PoolCore.Types.{Bytes, Job}
use azcoin_stratum_pool.Coin.Template
use azcoin_stratum_pool.Coin.Template.{
  BlockTemplate, template_to_job, decode_bits, decode_coinbase_aux_flags,
  decode_default_witness_commitment, decode_optional, decode_template_transactions,
  decode_transactions_from, build_merkle_branch, branch_of, build_coinbase_parts,
  split_at_placeholder, position, starts_with, coinbase_inputs,
}
use azcoin_stratum_pool.Coin.Coinbase.{build_coinbase_transaction, serialize_no_witness}
use azcoin_stratum_pool.Coin.JobTests.{flat_bitcoin, paid_to}
use azcoin_stratum_pool.Sv2.Template.{
  AzcoinJobTemplate, bridge_block_template, adapter, hex_decode_failure,
}
use azcoin_stratum_pool.Sv2.Flow.{flow_failed}
use azcoin_stratum_pool.Sv2.Errors.{pool_flow_error_text}
use azcoin_stratum_pool.Sv2.Template.Digits.{pairs}
use azcoin_stratum_pool.Sv2.Template.Laws.{Agrees, bridge-Agrees}
use azcoin_stratum_pool.Sv2.Aggregation.{MinerId, ShareRecord, get_stats}
use azcoin_stratum_pool.Sv2.Aggregation.Laws.{
  Call, register, share, run, known_stats, mentioned, subject, shares_of, summary, accepted_count,
  rejected_count, last_time, get_stats-run,
}

abbrev alice : MinerId
alice = record { username = "alice"; worker = "rig1" }

abbrev bob : MinerId
bob = record { username = "bob"; worker = "rig2" }

abbrev share_at : MinerId → ℕ → ShareRecord ℕ
share_at m time = record { miner = m; difficulty = 32; timestamp = time; accepted = true }

-- Newest first.
abbrev history : List (Call ℕ)
history =
    share (record (share_at alice 105) { accepted = false })
    ∷ share (share_at bob 200)
    ∷ share (share_at alice 100)
    ∷ register alice
    ∷ []

get_stats-run_example :
    get_stats (run history) alice
    ≡ some (record {
      total_shares = 2;
      accepted_shares = 1;
      rejected_shares = 1;
      last_share_time = 105;
    })
unfolding known_stats mentioned subject shares_of summary accepted_count rejected_count last_time
get_stats-run_example = get_stats-run alice history (omega arith)

abbrev or_error : Option Bytes → Result Bytes String
or_error none = err "invalid text"
or_error (some bs) = ok bs

abbrev pair_decode : String → Result Bytes String
pair_decode s = or_error (pairs (as_bytes s))

or_error_ok : (o : Option Bytes) (bs : Bytes) → or_error o ≡ ok bs → o ≡ some bs
or_error_ok none bs h = cc
or_error_ok (some b) bs h = cc

pair_decode_reads : (s : String) (bs : Bytes) → pair_decode s ≡ ok bs → pairs (as_bytes s) ≡ some bs
pair_decode_reads s bs h = or_error_ok (pairs (as_bytes s)) bs h

abbrev a_template : BlockTemplate
a_template = record {
  version = 0x20000000;
  previousblockhash = "0000000000000000000000000000000000000000000000000000000000000001";
  bits = "1d00ffff";
  curtime = 1700000000;
  height = 100;
  transactions = [];
  coinbasevalue = 5000000000;
  coinbaseaux = none;
  default_witness_commitment = none;
}

abbrev a_job : Job
a_job = record {
  job_id = "100";
  prev_hash = 1 ∷ replicate 31 0;
  coinbase_part1 = 1 ∷ [];
  coinbase_part2 = 3 ∷ 4 ∷ [];
  merkle_branch = [];
  version = 0x20000000;
  nbits = 0x1d00ffff;
  ntime = 1700000000;
  clean_jobs = true;
  block_assembly = some (record {
    height = 100;
    coinbase_value = 5000000000;
    coinbase_aux_flags = none;
    template_transactions = [];
    default_witness_commitment = none;
  });
}

a_job_made : template_to_job pair_decode flat_bitcoin a_template paid_to ≡ ok a_job
unfolding template_to_job Template.decode_prev_hash decode_bits decode_coinbase_aux_flags
    decode_default_witness_commitment decode_optional decode_template_transactions
    decode_transactions_from build_merkle_branch branch_of build_coinbase_parts
    build_coinbase_transaction split_at_placeholder position starts_with serialize_no_witness
    coinbase_inputs be_value pairs nibble decimal
a_job_made = refl

bridge-Agrees_example :
    (canonical : AzcoinJobTemplate) × (bridge_block_template pair_decode flat_bitcoin a_template
        paid_to
      ≡ ok (record { canonical = canonical; job = a_job }))
    × Agrees canonical a_job
bridge-Agrees_example =
    bridge-Agrees pair_decode pair_decode_reads flat_bitcoin a_template paid_to a_job a_job_made
      (omega arith) (omega arith)

nested_text :
    pool_flow_error_text (flow_failed (adapter (hex_decode_failure "bits" "odd length")))
    ≡ "bridge error: template adapter error: bits hex decode failed: odd length"
unfolding pool_flow_error_text
nested_text = refl
