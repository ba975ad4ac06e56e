-- ===== src/Coin/Template.antt =====
-- crates/coin_azcoin/src/template_mapper.rs: block templates turned into jobs. The template types are
-- those of src/daemon.rs.
-- `hex_decode` is `hex::decode` of the crate `hex`; `serialize` and the rest are those of `Bitcoin`.
pub mod Parts
pub mod Content
pub mod Laws
use Prim.Native.Char.{code}
use azcoin_stratum_pool.Prelude.{
  ℕ, zero, suc, ◌+◌, ◌%◌, ◌^◌, String, Bool, true, false, not, ◌&&◌, ◌||◌, Option, none, some, List,
  [], ◌∷◌, ◌++◌, reverse, Result, ok, err, ◌>>=◌, ok_or, map_err, leb, length, take, drop,
  if◌then◌else◌, nat_eq, string_eq, ◌==◌,
}
use azcoin_stratum_pool.Prelude.Words.{be_value}
use azcoin_stratum_pool.Prelude.Text.{format, decimal, trim}
use azcoin_stratum_pool.PoolCore.Types.{Bytes, Job, BlockAssemblyData}
use azcoin_stratum_pool.Coin.Coinbase.{
  PoolError, daemon, internal, CoinbaseBuildInputs, Bitcoin, build_coinbase_transaction,
  serialize_no_witness,
}

pub record TransactionEntry : Type 0 where
  pub raw : String
  pub txid : Option String
  pub hash : Option String

pub record CoinbaseAux : Type 0 where
  pub flags : Option String

pub record BlockTemplate : Type 0 where
  pub version : ℕ
  pub previousblockhash : String
  pub bits : String
  pub curtime : ℕ
  pub height : ℕ
  pub transactions : List TransactionEntry
  pub coinbasevalue : ℕ
  pub coinbaseaux : Option CoinbaseAux
  pub default_witness_commitment : Option String

abbrev pub sv1_extranonce_placeholder : Bytes
sv1_extranonce_placeholder = 0xfa ∷ 0xce ∷ 0xb0 ∷ 0x0c ∷ 0xde ∷ 0xad ∷ 0xbe ∷ 0xef ∷ []

-- `curtime as u32`
abbrev pub ntime_to_u32 : ℕ → ℕ
ntime_to_u32 curtime = curtime % 2 ^ 32

-- Whether a byte string begins with another.
unfoldable pub starts_with : Bytes → Bytes → Bool
starts_with [] window = true
starts_with (x ∷ needle) [] = false
starts_with (x ∷ needle) (y ∷ window) = x == y && starts_with needle window

-- `windows(needle.len()).position(|window| window == needle)`, for a needle that is not empty.
unfoldable pub position : Bytes → Bytes → Option ℕ
unfolding starts_with
position needle [] = none
position needle (y ∷ rest) =
    if starts_with needle (y ∷ rest)
    then some 0
    else elim (position needle rest) [ none ↦ none | some i ↦ some (suc i) ]

-- The two parts around the placeholder.
unfoldable pub split_at_placeholder : Bytes → Result (Bytes × Bytes) PoolError
split_at_placeholder coinbase_no_witness =
    elim (position sv1_extranonce_placeholder coinbase_no_witness) [
      | none ↦ err (internal "coinbase transaction missing SV1 extranonce placeholder")
      | some split_at ↦ ok (
        take split_at coinbase_no_witness,
        drop (split_at + length sv1_extranonce_placeholder) coinbase_no_witness,
      )
    ]

unfoldable pub unwrap_flags : Option Bytes → Bytes
unwrap_flags none = []
unwrap_flags (some flags) = flags

unfoldable pub coinbase_inputs :
    BlockTemplate → Bytes → Option Bytes → Option Bytes → CoinbaseBuildInputs
coinbase_inputs template payout_script_pubkey coinbase_aux_flags default_witness_commitment =
    record {
      height = template.height;
      coinbase_value = template.coinbasevalue;
      payout_script_pubkey = payout_script_pubkey;
      coinbase_aux_flags = some (unwrap_flags coinbase_aux_flags ++ sv1_extranonce_placeholder);
      default_witness_commitment = default_witness_commitment;
    }

unfoldable pub build_coinbase_parts :
    Bitcoin → BlockTemplate → Bytes → Option Bytes → Option Bytes → Result (Bytes × Bytes) PoolError
build_coinbase_parts b template payout_script_pubkey coinbase_aux_flags default_witness_commitment =
    do
      coinbase_tx_bytes ← build_coinbase_transaction b (
          coinbase_inputs template payout_script_pubkey coinbase_aux_flags
            default_witness_commitment)
      coinbase_tx ←
          map_err (λ e. internal (format ("coinbase deserialize: " ∷ e ∷ [])))
            (b.deserialize coinbase_tx_bytes)
      split_at_placeholder (serialize_no_witness b coinbase_tx)

module _ (hex_decode : String → Result Bytes String) where
  unfoldable pub decode_prev_hash : String → Result Bytes PoolError
  decode_prev_hash hex = do
    bytes ← map_err (λ e. daemon (format ("prev_hash hex: " ∷ e ∷ []))) (hex_decode hex)
    if length bytes == 32
        then ok (reverse bytes)
        else err (daemon (format ("prev_hash length " ∷ decimal (length bytes) ∷ " != 32" ∷ [])))

  unfoldable pub decode_bits : String → Result ℕ PoolError
  decode_bits hex = do
    bytes ← map_err (λ e. daemon (format ("bits hex: " ∷ e ∷ []))) (hex_decode hex)
    if length bytes == 4
        then ok (be_value bytes)
        else err (daemon (format ("bits length " ∷ decimal (length bytes) ∷ " != 4" ∷ [])))

  -- The common body of the two decoders of optional hexadecimal fields.
  unfoldable pub decode_optional : String → Option String → Result (Option Bytes) PoolError
  decode_optional label none = ok none
  decode_optional label (some field) =
      if trim field == "" then ok none else elim (hex_decode (trim field)) [
        | ok bytes ↦ ok (some bytes)
        | err e ↦ err (daemon (format (label ∷ " hex: " ∷ e ∷ [])))
      ]

  unfoldable pub decode_coinbase_aux_flags : BlockTemplate → Result (Option Bytes) PoolError
  decode_coinbase_aux_flags template = elim template.coinbaseaux [
    | none ↦ ok none
    | some aux ↦ decode_optional "coinbaseaux.flags" aux.flags
  ]

  unfoldable pub decode_default_witness_commitment : BlockTemplate → Result (Option Bytes) PoolError
  decode_default_witness_commitment template =
      decode_optional "default_witness_commitment" template.default_witness_commitment

  -- `index` is the number of the first transaction of the list.
  unfoldable pub decode_transactions_from :
      ℕ → List TransactionEntry → Result (List Bytes) PoolError
  decode_transactions_from index [] = ok []
  decode_transactions_from index (tx ∷ rest) = do
    bytes ←
        map_err (λ e. daemon (format ("transaction " ∷ decimal index ∷ " data hex: " ∷ e ∷ [])))
          (hex_decode tx.raw)
    others ← decode_transactions_from (suc index) rest
    ok (bytes ∷ others)

  unfoldable pub decode_template_transactions : BlockTemplate → Result (List Bytes) PoolError
  decode_template_transactions template = decode_transactions_from 0 template.transactions

  -- `tx.txid.as_ref().or(tx.hash.as_ref())`
  unfoldable pub transaction_id : TransactionEntry → Option String
  transaction_id tx = elim tx.txid [ some id ↦ some id | none ↦ tx.hash ]

  -- An id that is missing, is no hexadecimal text or is not of 32 bytes is skipped.
  unfoldable pub branch_entry : TransactionEntry → Option Bytes
  branch_entry tx = elim (transaction_id tx) [
    | none ↦ none
    | some h ↦ elim (hex_decode h) [
      | err e ↦ none
      | ok bytes ↦ if length bytes == 32 then some (reverse bytes) else none
    ]
  ]

  unfoldable pub branch_of : List TransactionEntry → List Bytes
  branch_of [] = []
  branch_of (tx ∷ rest) = elim (branch_entry tx) [
    | none ↦ branch_of rest
    | some entry ↦ entry ∷ branch_of rest
  ]

  unfoldable pub build_merkle_branch : BlockTemplate → List Bytes
  build_merkle_branch template = branch_of template.transactions

  unfoldable pub template_to_job : Bitcoin → BlockTemplate → Bytes → Result Job PoolError
  template_to_job b template payout_script_pubkey = do
    prev_hash ← decode_prev_hash template.previousblockhash
    nbits ← decode_bits template.bits
    let merkle_branch = build_merkle_branch template
    coinbase_aux_flags ← decode_coinbase_aux_flags template
    default_witness_commitment ← decode_default_witness_commitment template
    template_transactions ← decode_template_transactions template
    (coinbase_part1, coinbase_part2) ←
        build_coinbase_parts b template payout_script_pubkey coinbase_aux_flags
          default_witness_commitment
    ok (record {
      job_id = decimal template.height;
      prev_hash = prev_hash;
      coinbase_part1 = coinbase_part1;
      coinbase_part2 = coinbase_part2;
      merkle_branch = merkle_branch;
      version = template.version;
      nbits = nbits;
      ntime = ntime_to_u32 template.curtime;
      clean_jobs = true;
      block_assembly = some (record {
        height = template.height;
        coinbase_value = template.coinbasevalue;
        coinbase_aux_flags = coinbase_aux_flags;
        template_transactions = template_transactions;
        default_witness_commitment = default_witness_commitment;
      });
    })
