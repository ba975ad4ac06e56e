-- ===== src/Sv2/Template.antt =====
-- crates/sv2_scaffold/src/{template_adapter,job_bridge}.rs: templates in a normal form, beside the job
-- that the template mapper makes of them.
pub mod Digits
pub mod Laws
use azcoin_stratum_pool.Prelude.{
  ℕ, ◌+◌, ◌*◌, ◌%◌, ◌^◌, String, Option, none, some, List, [], ◌∷◌, reverse, Result, ok, err, ◌>>=◌,
  map_err, ok_or, length, if◌then◌else◌, string_eq, nat_eq, ◌==◌, not, ltb,
}
use azcoin_stratum_pool.Prelude.Words.{be_value}
use azcoin_stratum_pool.Prelude.Text.{format, decimal, trim, nibble, as_bytes}
use azcoin_stratum_pool.PoolCore.Types.{Bytes, Job}
use azcoin_stratum_pool.Coin.Coinbase.{Bitcoin}
use azcoin_stratum_pool.Coin.Template.{BlockTemplate, template_to_job}
use azcoin_stratum_pool.Coin.Candidate.{error_text}

pub record AzcoinJobTemplate : Type 0 where
  pub job_id : String
  pub prev_hash : Bytes
  pub version : ℕ
  pub nbits : ℕ
  pub ntime : ℕ
  pub height : ℕ
  pub coinbase_value : ℕ

pub data AdapterError : Type 0 where
  missing_required_field : String → AdapterError
  hex_decode_failure : String → String → AdapterError
  invalid_numeric_conversion : String → String → AdapterError

-- `u32::try_from`
unfoldable pub to_u32 : String → ℕ → Result ℕ AdapterError
to_u32 field value =
    if ltb value (2 ^ 32) then ok value else err (invalid_numeric_conversion field (decimal value))

unfoldable pub nibble_at : String → ℕ → ℕ → Result ℕ AdapterError
nibble_at field i byte =
    ok_or (nibble byte)
      (hex_decode_failure field (format ("invalid hex at byte " ∷ decimal i ∷ [])))

-- The loop from the byte `i` on. The length is even, so that no single byte is left.
unfoldable pub decode_pairs : String → ℕ → Bytes → Result Bytes AdapterError
decode_pairs field i [] = ok []
decode_pairs field i (x ∷ []) = err (hex_decode_failure field "odd-length hex string")
decode_pairs field i (x ∷ y ∷ rest) = do
  hi ← nibble_at field i x
  lo ← nibble_at field (i + 1) y
  out ← decode_pairs field (i + 2) rest
  ok ((hi * 16 + lo) ∷ out)

unfoldable pub decode_hex : String → String → Result Bytes AdapterError
decode_hex hex field =
    let bytes = as_bytes (trim hex) in
    if not (length bytes % 2 == 0)
    then err (hex_decode_failure field "odd-length hex string")
    else decode_pairs field 0 bytes

unfoldable pub decode_prev_hash : String → Result Bytes AdapterError
decode_prev_hash hex =
    if trim hex == "" then err (missing_required_field "previousblockhash") else (do
      bytes ← decode_hex hex "previousblockhash"
      if not (length bytes == 32)
          then err (
              hex_decode_failure "previousblockhash"
                (format ("decoded length " ∷ decimal (length bytes) ∷ " != 32" ∷ [])))
          else ok (reverse bytes))

unfoldable pub decode_nbits : String → Result ℕ AdapterError
decode_nbits hex = if trim hex == "" then err (missing_required_field "bits") else (do
  bytes ← decode_hex hex "bits"
  if not (length bytes == 4)
      then err (invalid_numeric_conversion "bits" hex)
      else ok (be_value bytes))

unfoldable pub from_block_template : BlockTemplate → Result AzcoinJobTemplate AdapterError
from_block_template template = do
  prev_hash ← decode_prev_hash template.previousblockhash
  nbits ← decode_nbits template.bits
  ntime ← to_u32 "curtime" template.curtime
  height ← to_u32 "height" template.height
  ok (record {
    job_id = format (
        decimal template.height
        ∷ ":"
        ∷ template.previousblockhash
        ∷ ":"
        ∷ decimal template.curtime
        ∷ []);
    prev_hash = prev_hash;
    version = template.version;
    nbits = nbits;
    ntime = ntime;
    height = height;
    coinbase_value = template.coinbasevalue;
  })

pub record AzcoinJobBridge : Type 0 where
  pub canonical : AzcoinJobTemplate
  pub job : Job

pub data BridgeError : Type 0 where
  adapter : AdapterError → BridgeError
  job_construction : String → BridgeError

-- `hex_decode` is `hex::decode`.
unfoldable pub bridge_block_template :
    (String → Result Bytes String)
    → Bitcoin
    → BlockTemplate
    → Bytes
    → Result AzcoinJobBridge BridgeError
bridge_block_template hex_decode b template payout_script_pubkey = do
  canonical ← map_err adapter (from_block_template template)
  job ←
      map_err (λ e. job_construction (error_text e))
        (template_to_job hex_decode b template payout_script_pubkey)
  ok (record { canonical = canonical; job = job })
