-- ===== src/Coin/Coinbase.antt =====
-- crates/coin_azcoin/src/coinbase_builder.rs: the coinbase transaction and its script.
-- The types and the encoders of the crate `bitcoin` are the interface `Bitcoin`.
pub mod NumberLoop
pub mod Script
pub mod ScriptSig
use azcoin_stratum_pool.Prelude.{
  ℕ, zero, suc, ◌+◌, ◌*◌, ◌/◌, ◌%◌, ◌^◌, ◌-◌, String, Bool, true, false, not, Option, none, some,
  List, [], ◌∷◌, ◌++◌, Result, ok, err, leb, ltb, length, replicate, bit_and, if◌then◌else◌, nat_eq,
  ◌==◌,
}
use azcoin_stratum_pool.Prelude.Words.{le_bytes}
use azcoin_stratum_pool.PoolCore.Types.{Bytes}

-- crates/common/src/error.rs
pub data PoolError : Type 0 where
  config : String → PoolError
  daemon : String → PoolError
  storage : String → PoolError
  protocol : String → PoolError
  internal : String → PoolError

pub record CoinbaseBuildInputs : Type 0 where
  pub height : ℕ
  pub coinbase_value : ℕ
  pub payout_script_pubkey : Bytes
  pub coinbase_aux_flags : Option Bytes
  pub default_witness_commitment : Option Bytes

-- The bytes of `remaining`, lowest first, until it is 0: eight rounds are enough for a `u64`.
unfoldable pub script_num_loop : ℕ → ℕ → Bytes
script_num_loop zero remaining = []
script_num_loop (suc fuel) remaining =
    let rest = script_num_loop fuel (remaining / 2 ^ 8) in
    if ltb 0 remaining then remaining % 256 ∷ rest else []

-- `encoded.last().is_some_and(|byte| byte & 0x80 != 0)`
unfoldable pub last_is_negative : Bytes → Bool
last_is_negative [] = false
last_is_negative (b ∷ []) = not (bit_and b 0x80 == 0)
last_is_negative (b ∷ c ∷ bs) = last_is_negative (c ∷ bs)

unfoldable pub encode_script_num : ℕ → Bytes
encode_script_num value =
    let encoded = script_num_loop 8 value in
    if value == 0 then [] else if last_is_negative encoded then encoded ++ (0 ∷ []) else encoded

-- The opcode and the length in front of the data; `len as u8`, `u16`, `u32` cut the length.
unfoldable pub push_prefix : ℕ → Bytes
push_prefix len =
    if leb len 0x4b
    then len % 256 ∷ []
    else if leb len 0xff
    then 0x4c ∷ len % 256 ∷ []
    else if leb len 0xffff
    then 0x4d ∷ le_bytes 2 (len % 2 ^ 16)
    else 0x4e ∷ le_bytes 4 (len % 2 ^ 32)

unfoldable pub push_data : Bytes → Bytes → Bytes
push_data buf input = buf ++ (push_prefix (length input) ++ input)

unfoldable pub build_coinbase_script_sig : ℕ → Option Bytes → Bytes
build_coinbase_script_sig height coinbase_aux_flags =
    let script_sig = push_data [] (encode_script_num height) in
    elim coinbase_aux_flags [
      | none ↦ script_sig
      | some flags ↦ elim flags [ [] ↦ script_sig | b ∷ bs ↦ push_data script_sig (b ∷ bs) ]
    ]

-- The public fields of `bitcoin::{TxOut, TxIn, Transaction}` that the builder fills. A null previous
-- output, `Sequence::MAX`, `Version::ONE` and `LockTime::ZERO` are the constants of a coinbase.
pub record TxOut : Type 0 where
  pub value : ℕ
  pub script_pubkey : Bytes

pub record TxIn : Type 0 where
  pub previous_output_is_null : Bool
  pub script_sig : Bytes
  pub sequence : ℕ
  pub witness : List Bytes

pub record Transaction : Type 0 where
  pub version : ℕ
  pub lock_time : ℕ
  pub input : List TxIn
  pub output : List TxOut

-- `bitcoin::consensus`: `serialize`, `deserialize` and the encoders of a transaction's parts.
pub record Bitcoin : Type 0 where
  pub serialize : Transaction → Bytes
  pub deserialize : Bytes → Result Transaction String
  pub encode_version : ℕ → Bytes
  pub encode_inputs : List TxIn → Bytes
  pub encode_outputs : List TxOut → Bytes
  pub encode_lock_time : ℕ → Bytes
  pub encode_var_int : ℕ → Bytes

unfoldable pub coinbase_outputs : CoinbaseBuildInputs → List TxOut
coinbase_outputs inputs =
    let payout : TxOut = record {
      value = inputs.coinbase_value;
      script_pubkey = inputs.payout_script_pubkey;
    } in
    elim inputs.default_witness_commitment [
      | none ↦ payout ∷ []
      | some commitment_script ↦
          payout ∷ record { value = 0; script_pubkey = commitment_script } ∷ []
    ]

unfoldable pub coinbase_witness : CoinbaseBuildInputs → List Bytes
coinbase_witness inputs = elim inputs.default_witness_commitment [
  | none ↦ []
  | some commitment_script ↦ replicate 32 0 ∷ []
]

unfoldable pub coinbase_transaction : CoinbaseBuildInputs → Transaction
coinbase_transaction inputs = record {
  version = 1;
  lock_time = 0;
  input =
      record {
        previous_output_is_null = true;
        script_sig = build_coinbase_script_sig inputs.height inputs.coinbase_aux_flags;
        sequence = 0xffffffff;
        witness = coinbase_witness inputs;
      }
      ∷ [];
  output = coinbase_outputs inputs;
}

unfoldable pub build_coinbase_transaction : Bitcoin → CoinbaseBuildInputs → Result Bytes PoolError
build_coinbase_transaction b inputs = elim inputs.payout_script_pubkey [
  | [] ↦ err (config "coinbase payout script_pubkey cannot be empty")
  | x ∷ xs ↦ ok (b.serialize (coinbase_transaction inputs))
]

unfoldable pub serialize_no_witness : Bitcoin → Transaction → Bytes
serialize_no_witness b tx =
    b.encode_version tx.version
    ++ (b.encode_inputs tx.input ++ (b.encode_outputs tx.output ++ b.encode_lock_time tx.lock_time))
