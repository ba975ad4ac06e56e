-- ===== src/Coin/Candidate.antt =====
-- crates/coin_azcoin/src/candidate_submit.rs: a solved share turned into a submitted block.
-- `serialize` and `deserialize` are those of the interface `Bitcoin`; `submit_block` is the method of
-- the trait `BlockSubmitter`, whose implementation calls the node.
pub mod Laws
pub mod Solved
pub mod Keeps
use azcoin_stratum_pool.Prelude.{
  ℕ, String, Bool, true, false, Option, none, some, List, [], ◌∷◌, ◌++◌, Result, ok, err, replicate,
}
use azcoin_stratum_pool.Prelude.Text.{format, decimal, strip_prefix}
use azcoin_stratum_pool.PoolCore.Types.{Bytes, Job, BlockAssemblyData, BlockCandidate}
use azcoin_stratum_pool.Coin.Coinbase.{
  PoolError, config, daemon, storage, protocol, internal, Bitcoin, TxIn, Transaction,
}
use azcoin_stratum_pool.Coin.RawBlock.{build_raw_block}

pub data CandidateSubmissionResult : Type 0 where
  submitted : CandidateSubmissionResult
  rejected : String → CandidateSubmissionResult
  local_error : String → CandidateSubmissionResult

unfoldable pub reconstruct_miner_coinbase : Job → Bytes → Bytes → Bytes
reconstruct_miner_coinbase job extranonce1 extra_nonce2 =
    job.coinbase_part1 ++ (extranonce1 ++ (extra_nonce2 ++ job.coinbase_part2))

-- `tx.input[0].witness = w`; `None` where the index is out of bounds, which panics.
unfoldable pub set_first_witness : List Bytes → Transaction → Option Transaction
set_first_witness w tx = elim tx.input [
  | [] ↦ none
  | first ∷ rest ↦ some (record {
    version = tx.version;
    lock_time = tx.lock_time;
    input =
        record {
          previous_output_is_null = first.previous_output_is_null;
          script_sig = first.script_sig;
          sequence = first.sequence;
          witness = w;
        }
        ∷ rest;
    output = tx.output;
  })
]

-- `None` is a panic.
unfoldable pub restore_coinbase_witness : Bitcoin → Bytes → Option (Result Bytes String)
restore_coinbase_witness b coinbase_no_witness = elim (b.deserialize coinbase_no_witness) [
  | err e ↦ some (err (format ("coinbase deserialize for witness: " ∷ e ∷ [])))
  | ok tx ↦ elim (set_first_witness (replicate 32 0 ∷ []) tx) [
    | none ↦ none
    | some tx' ↦ some (ok (b.serialize tx'))
  ]
]

-- The coinbase as it stands in the raw block.
unfoldable pub block_coinbase : Bitcoin → BlockAssemblyData → Bytes → Option (Result Bytes String)
block_coinbase b block_assembly coinbase_no_witness =
    elim block_assembly.default_witness_commitment [
      | none ↦ some (ok coinbase_no_witness)
      | some commitment ↦ restore_coinbase_witness b coinbase_no_witness
    ]

-- `to_string()` of an error: crates/common/src/error.rs
unfoldable pub error_text : PoolError → String
error_text (config s) = format ("configuration error: " ∷ s ∷ [])
error_text (protocol s) = format ("protocol error: " ∷ s ∷ [])
error_text (storage s) = format ("storage error: " ∷ s ∷ [])
error_text (daemon s) = format ("daemon/RPC error: " ∷ s ∷ [])
error_text (internal s) = format ("internal error: " ∷ s ∷ [])

-- What the answer of the submitter means.
unfoldable pub read_answer : Result Bool String → CandidateSubmissionResult
read_answer (ok true) = submitted
read_answer (ok false) = rejected "block submitter returned false"
read_answer (err message) = elim (strip_prefix "submitblock rejected: " message) [
  | some reason ↦ rejected reason
  | none ↦ local_error message
]

unfoldable pub block_candidate : BlockAssemblyData → Bytes → BlockCandidate
block_candidate block_assembly raw_block = record {
  block_hash = replicate 32 0;
  height = block_assembly.height;
  raw_block = raw_block;
}

-- `S` is what the submitter keeps; a call gives its new state and its answer.
module _ {S : Type 0} (submit_block : S → BlockCandidate → S × Result Bool String)
    (b : Bitcoin) where
  unfoldable pub submit_raw :
      S → BlockAssemblyData → Result Bytes PoolError → S × CandidateSubmissionResult
  submit_raw s block_assembly (err e) = (s, local_error (error_text e))
  submit_raw s block_assembly (ok raw_block) =
      let answer = submit_block s (block_candidate block_assembly raw_block) in
      (answer.0, read_answer answer.1)

  -- `None` is a panic, in `restore_coinbase_witness`.
  unfoldable pub submit_block_candidate :
      S → Bytes → Job → Bytes → Bytes → Option (S × CandidateSubmissionResult)
  submit_block_candidate s solved_header_bytes job extranonce1 extra_nonce2 =
      elim job.block_assembly [
        | none ↦ some (s, local_error "missing job.block_assembly")
        | some block_assembly ↦
            let coinbase_no_witness = reconstruct_miner_coinbase job extranonce1 extra_nonce2 in
            elim (block_coinbase b block_assembly coinbase_no_witness) [
              | none ↦ none
              | some (err e) ↦ some (s, local_error e)
              | some (ok coinbase_tx) ↦ some (
                  submit_raw s block_assembly (
                    build_raw_block b solved_header_bytes coinbase_tx
                      block_assembly.template_transactions))
            ]
      ]
