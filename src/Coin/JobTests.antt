-- ===== src/Coin/JobTests.antt =====
-- The theorems on templates and on solved blocks at concrete inputs.
use azcoin_stratum_pool.Prelude.{
  ◌≤◌, String, true, none, some, List, [], ◌∷◌, ◌++◌, Result, ok, replicate, All, All-replicate,
  ◌≡◌, refl, arith, subst, if◌then◌else◌, ◌==◌, string_eq, Bool-cases, inl, inr, ok-injective,
}
use azcoin_stratum_pool.Prelude.Words.{IsByte, be_value}
use azcoin_stratum_pool.Prelude.Text.{decimal}
use azcoin_stratum_pool.PoolCore.Types.{Bytes, Job, BlockAssemblyData, block}
use azcoin_stratum_pool.Coin.Target.{nbits_to_target, large_target}
use azcoin_stratum_pool.Coin.ShareValidator.{validate_share, build_solved_block_header}
use azcoin_stratum_pool.Coin.ShareValidator.Outcome.{
  hash_value, share_header, validate_share_outcome,
}
use azcoin_stratum_pool.Coin.Coinbase.{
  Bitcoin, Transaction, TxIn, coinbase_transaction, build_coinbase_transaction,
  serialize_no_witness,
}
use azcoin_stratum_pool.Coin.Template.{
  BlockTemplate, sv1_extranonce_placeholder, coinbase_inputs, build_coinbase_parts, unwrap_flags,
  template_to_job, decode_prev_hash, decode_bits, decode_coinbase_aux_flags,
  decode_default_witness_commitment, decode_optional, decode_template_transactions,
  decode_transactions_from, build_merkle_branch, branch_of, branch_entry, transaction_id,
  split_at_placeholder, position, starts_with,
}
use azcoin_stratum_pool.Coin.Template.Parts.{build_coinbase_parts-joined}
use azcoin_stratum_pool.Coin.Template.Laws.{WellFormed, template_to_job-WellFormed}
use azcoin_stratum_pool.Coin.Candidate.{
  submit_block_candidate, submitted, block_coinbase, read_answer,
}
use azcoin_stratum_pool.Coin.Header.{build_coinbase, double_sha256}
use azcoin_stratum_pool.Coin.RawBlock.Laws.{Readable}
use azcoin_stratum_pool.Coin.Candidate.Solved.{block_reaches_submitter}
use azcoin_stratum_pool.Coin.Tests.{
  zero_digest, zero_digest-IsHash, no_hex, extranonce1, a_share, toy_bitcoin, count_blocks,
  solved_job, rolled, a_share_version, empty_transaction,
}

abbrev pub a_template : BlockTemplate
a_template = record {
  version = 0x20000000;
  previousblockhash = "prev";
  bits = "bits";
  curtime = 1700000000;
  height = 840000;
  transactions = record { raw = "tx"; txid = some "id"; hash = none } ∷ [];
  coinbasevalue = 50;
  coinbaseaux = none;
  default_witness_commitment = none;
}

abbrev pub paid_to : Bytes
paid_to = 0x51 ∷ []

abbrev a_coinbase : Transaction
a_coinbase = coinbase_transaction (coinbase_inputs a_template paid_to none none)

abbrev script_sigs : List TxIn → Bytes
script_sigs [] = []
script_sigs (i ∷ rest) = i.script_sig ++ script_sigs rest

-- Writes the script signatures alone, and reads back one transaction.
abbrev sig_bitcoin : Bitcoin
sig_bitcoin = record toy_bitcoin {
  deserialize = λ input. ok a_coinbase;
  encode_inputs = script_sigs;
}

build_coinbase_parts-joined_example :
    (part1 : Bytes) × (part2 : Bytes) × (build_coinbase_parts sig_bitcoin a_template paid_to none
        none
      ≡ ok (part1, part2))
    × (serialize_no_witness sig_bitcoin a_coinbase ≡ part1 ++ (sv1_extranonce_placeholder ++ part2))
unfolding coinbase_transaction coinbase_inputs unwrap_flags
build_coinbase_parts-joined_example =
    build_coinbase_parts-joined sig_bitcoin a_template paid_to none none [] [] (λ h. cc) refl refl

-- Four bytes for the bits, 32 for everything else.
abbrev pub toy_decode : String → Result Bytes String
toy_decode s = if s == "bits" then ok (replicate 4 1) else ok (replicate 32 0)

pub toy_decode_bytes : (s : String) (bs : Bytes) → toy_decode s ≡ ok bs → All IsByte bs
toy_decode_bytes s bs h = elim (Bool-cases (s == "bits")) [
  | inl four ↦
      let same : ◌≡◌ {A = Result Bytes String} (ok (replicate 4 1)) (ok bs) =
        ground (arith, h, four) in
      subst (All IsByte) (ok-injective same) (All-replicate IsByte 4 1 (omega arith))
  | inr other ↦
      let same : ◌≡◌ {A = Result Bytes String} (ok (replicate 32 0)) (ok bs) =
        ground (arith, h, other) in
      subst (All IsByte) (ok-injective same) (All-replicate IsByte 32 0 (omega arith))
]

-- Writes the placeholder for every list of inputs.
abbrev pub flat_bitcoin : Bitcoin
flat_bitcoin = record toy_bitcoin { encode_inputs = λ ins. sv1_extranonce_placeholder }

-- The job that the template gives.
abbrev pub a_job : Job
a_job = record {
  job_id = decimal 840000;
  prev_hash = replicate 32 0;
  coinbase_part1 = 1 ∷ [];
  coinbase_part2 = 3 ∷ 4 ∷ [];
  merkle_branch = replicate 32 0 ∷ [];
  version = 0x20000000;
  nbits = 0x01010101;
  ntime = 1700000000;
  clean_jobs = true;
  block_assembly = some (record {
    height = 840000;
    coinbase_value = 50;
    coinbase_aux_flags = none;
    template_transactions = replicate 32 0 ∷ [];
    default_witness_commitment = none;
  });
}

pub a_job_made : template_to_job toy_decode flat_bitcoin a_template paid_to ≡ ok a_job
unfolding template_to_job decode_prev_hash decode_bits decode_coinbase_aux_flags
    decode_default_witness_commitment decode_optional decode_template_transactions
    decode_transactions_from build_merkle_branch branch_of branch_entry transaction_id
    build_coinbase_parts build_coinbase_transaction split_at_placeholder position starts_with
    serialize_no_witness coinbase_inputs be_value
a_job_made = refl

template_to_job-WellFormed_example :
    WellFormed toy_decode toy_decode_bytes flat_bitcoin paid_to a_template a_job
template_to_job-WellFormed_example =
    template_to_job-WellFormed toy_decode toy_decode_bytes flat_bitcoin a_template paid_to a_job
      a_job_made

abbrev solved_assembly : BlockAssemblyData
solved_assembly = record {
  height = 7;
  coinbase_value = 50;
  coinbase_aux_flags = none;
  template_transactions = [];
  default_witness_commitment = none;
}

abbrev solved_coinbase : Bytes
solved_coinbase = build_coinbase solved_job a_share extranonce1

solved_coinbase-made :
    block_coinbase toy_bitcoin solved_assembly solved_coinbase ≡ some (ok solved_coinbase)
unfolding block_coinbase
solved_coinbase-made = refl

solved_coinbase-Readable : Readable toy_bitcoin solved_coinbase
unfolding Readable
solved_coinbase-Readable = (empty_transaction, refl)

judged : validate_share zero_digest no_hex solved_job a_share extranonce1 4 ≡ block
unfolding be_value hash_value share_header double_sha256 nbits_to_target large_target
judged =
    validate_share_outcome zero_digest no_hex zero_digest-IsHash solved_job a_share extranonce1 4
      rolled (omega arith) a_share_version

block_reaches_submitter_example :
    (header : Bytes) × (build_solved_block_header zero_digest no_hex solved_job a_share extranonce1
      ≡ ok header)
    × (hash_value zero_digest header ≤ be_value (nbits_to_target solved_job.nbits))
    × (submit_block_candidate count_blocks toy_bitcoin 0 header solved_job extranonce1
          a_share.extra_nonce2
        ≡ some (1, submitted))
unfolding read_answer
block_reaches_submitter_example =
    block_reaches_submitter zero_digest no_hex zero_digest-IsHash count_blocks toy_bitcoin 0
      solved_job a_share extranonce1 4 solved_assembly solved_coinbase (omega arith) refl refl
      solved_coinbase-made solved_coinbase-Readable tt (omega arith) judged
