-- ===== src/Coin/Tests.antt =====
-- The theorems of coin_azcoin at concrete inputs.
use azcoin_stratum_pool.Prelude.{
  ℕ, suc, ◌*◌, ◌^◌, ◌≤◌, String, Bool, true, none, some, [], ◌∷◌, ◌++◌, Result, ok, length,
  replicate, All-replicate, ◌≡◌, refl, ◌↔◌, arith,
}
use azcoin_stratum_pool.Prelude.Bits.{bit}
use azcoin_stratum_pool.Prelude.Words.{IsByte, be_value}
use azcoin_stratum_pool.PoolCore.Types.{
  Bytes, Job, placeholder, BlockCandidate, ShareSubmission, ShareValidationContext, block,
}
use azcoin_stratum_pool.Coin.Target.{nbits_to_target, large_target, div_target_by_difficulty}
use azcoin_stratum_pool.Coin.Target.Shape.{IsHash}
use azcoin_stratum_pool.Coin.Target.Value.{div_target_value, nbits_to_target_value}
use azcoin_stratum_pool.Prelude.While.{While}
use azcoin_stratum_pool.Coin.Coinbase.{script_num_loop}
use azcoin_stratum_pool.Coin.Coinbase.NumberLoop.{
  Encoding, is_left, push_byte, script_num_loop-Ends,
}
use azcoin_stratum_pool.Coin.Header.Fields.{Fields, build_block_header-Fields}
use azcoin_stratum_pool.Coin.Header.{build_block_header, resolved_version, double_sha256}
use azcoin_stratum_pool.Coin.Header.Version.{resolved_version_bits}
use azcoin_stratum_pool.Coin.ShareValidator.{validate_share}
use azcoin_stratum_pool.Coin.ShareValidator.Outcome.{
  hash_value, share_header, validate_share_outcome,
}
use azcoin_stratum_pool.Coin.Coinbase.{build_coinbase_script_sig, Bitcoin, Transaction}
use azcoin_stratum_pool.Coin.Coinbase.ScriptSig.{
  ShortFlags, wanted_parts, read_script_sig, height_and_flags,
  read_script_sig-build_coinbase_script_sig,
}
use azcoin_stratum_pool.Coin.RawBlock.{build_raw_block}
use azcoin_stratum_pool.Coin.RawBlock.Laws.{CanAssemble, raw_block_bytes, build_raw_block_iff}

div_target_value_example :
    (be_value (div_target_by_difficulty (1 ∷ 0 ∷ []) 3) ≡ 85)
    × (length (div_target_by_difficulty (1 ∷ 0 ∷ []) 3) ≡ 2)
unfolding be_value
div_target_value_example =
    div_target_value (1 ∷ 0 ∷ []) 3 (omega arith, (omega arith, tt)) (omega arith)

nbits_to_target_value_example : be_value (nbits_to_target 0x1d00ffff) ≡ 0xffff * 256 ^ 26
nbits_to_target_value_example = nbits_to_target_value 0x1d00ffff (omega arith)

abbrev zero_hash : Bytes
zero_hash = replicate 32 0

build_block_header-Fields_example :
    Fields (build_block_header 4 zero_hash zero_hash 7 8 9) 4 7 8 9 zero_hash zero_hash
build_block_header-Fields_example =
    build_block_header-Fields 4 zero_hash zero_hash 7 8 9 refl refl (omega arith) (omega arith)
      (omega arith) (omega arith)

script_num_loop-Ends_example :
    While is_left push_byte
      (record { encoded = 0x40 ∷ 0xd1 ∷ 0x0c ∷ []; remaining = 0 })
      (record { encoded = []; remaining = 840000 })
    ↔ (◌≡◌ {A = Encoding}
        (record { encoded = 0x40 ∷ 0xd1 ∷ 0x0c ∷ []; remaining = 0 })
        (record { encoded = script_num_loop 8 840000; remaining = 0 }))
script_num_loop-Ends_example =
    script_num_loop-Ends 840000 (record { encoded = 0x40 ∷ 0xd1 ∷ 0x0c ∷ []; remaining = 0 })
      (omega arith)

abbrev rolling : ShareValidationContext
rolling = record {
  expected_extra_nonce2_len = some 4;
  extranonce1_hex = none;
  version_rolling_mask = some 0x1fffe000;
  version_bits = some 0x2000;
}

abbrev pub a_share : ShareSubmission
a_share = record {
  job_id = "7";
  worker = record { id = "u"; username = some "u"; worker_name = none };
  extra_nonce2 = 0 ∷ 0 ∷ 0 ∷ 1 ∷ [];
  ntime = 5;
  nonce = 9;
  validation_context = some rolling;
}

abbrev pub rolled : ℕ
rolled = 0x20002000

pub a_share_version : resolved_version 0x20000000 a_share ≡ ok rolled
unfolding resolved_version
a_share_version = refl

resolved_version_bits_example :
    (bit 13 rolled ≡ bit 13 0x2000) × (bit 13 0x2000 ≤ bit 13 0x1fffe000)
unfolding bit
resolved_version_bits_example =
    resolved_version_bits 0x20000000 a_share rolling 0x2000 0x1fffe000 rolled 13 refl refl refl
      (omega arith) (omega arith) a_share_version

-- A digest that is always zero, which meets every target.
abbrev pub zero_digest : Bytes → Bytes
zero_digest input = zero_hash

pub zero_digest-IsHash : (input : Bytes) → IsHash (zero_digest input)
zero_digest-IsHash input = record { size = refl; bytes = All-replicate IsByte 32 0 (omega arith) }

abbrev pub no_hex : Bytes → String
no_hex input = ""

abbrev pub extranonce1 : Bytes
extranonce1 = 0 ∷ 0 ∷ 0 ∷ 7 ∷ []

validate_share_outcome_example :
    validate_share zero_digest no_hex placeholder a_share extranonce1 4 ≡ block
unfolding be_value hash_value share_header double_sha256 nbits_to_target large_target
validate_share_outcome_example =
    validate_share_outcome zero_digest no_hex zero_digest-IsHash placeholder a_share extranonce1 4
      rolled (omega arith) a_share_version

read_script_sig-build_coinbase_script_sig_example :
    read_script_sig (build_coinbase_script_sig 840000 (some (0xfa ∷ 0xce ∷ [])))
    ≡ height_and_flags 840000 (0xfa ∷ 0xce ∷ [])
unfolding ShortFlags wanted_parts
read_script_sig-build_coinbase_script_sig_example =
    read_script_sig-build_coinbase_script_sig 840000 (some (0xfa ∷ 0xce ∷ [])) (omega arith)
      (omega arith)

abbrev pub empty_transaction : Transaction
empty_transaction = record { version = 1; lock_time = 0; input = []; output = [] }

-- Encoders that write one byte each, and a reader that takes everything.
abbrev pub toy_bitcoin : Bitcoin
toy_bitcoin = record {
  serialize = λ tx. 1 ∷ [];
  deserialize = λ input. ok empty_transaction;
  encode_version = λ n. 1 ∷ [];
  encode_inputs = λ ins. 2 ∷ [];
  encode_outputs = λ outs. 3 ∷ [];
  encode_lock_time = λ n. 4 ∷ [];
  encode_var_int = λ n. n ∷ [];
}

build_raw_block_iff_example :
    (build_raw_block toy_bitcoin (replicate 80 5) (1 ∷ []) ((2 ∷ 3 ∷ []) ∷ [])
      ≡ ok (replicate 80 5 ++ (2 ∷ 1 ∷ 2 ∷ 3 ∷ [])))
    ↔ (CanAssemble toy_bitcoin (replicate 80 5) (1 ∷ []) ((2 ∷ 3 ∷ []) ∷ [])
        × (replicate 80 5 ++ (2 ∷ 1 ∷ 2 ∷ 3 ∷ [])
            ≡ raw_block_bytes toy_bitcoin (replicate 80 5) (1 ∷ []) ((2 ∷ 3 ∷ []) ∷ [])))
build_raw_block_iff_example =
    build_raw_block_iff toy_bitcoin (replicate 80 5) (1 ∷ []) ((2 ∷ 3 ∷ []) ∷ [])
      (replicate 80 5 ++ (2 ∷ 1 ∷ 2 ∷ 3 ∷ []))

-- A submitter that counts its calls and takes every block.
abbrev pub count_blocks : ℕ → BlockCandidate → ℕ × Result Bool String
count_blocks n candidate = (suc n, ok true)

abbrev pub solved_job : Job
solved_job = record placeholder {
  block_assembly = some (record {
    height = 7;
    coinbase_value = 50;
    coinbase_aux_flags = none;
    template_transactions = [];
    default_witness_commitment = none;
  });
}
