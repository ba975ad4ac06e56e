-- ===== src/Coin/RawBlock.antt =====
-- crates/coin_azcoin/src/raw_block_builder.rs: the serialized block.
-- `deserialize` and the variable-length integer are those of the interface `Bitcoin`.
pub mod Laws
use azcoin_stratum_pool.Prelude.{
  ℕ, suc, ◌^◌, String, Bool, true, false, Option, none, some, List, [], ◌∷◌, ◌++◌, Result, ok, err,
  ◌>>=◌, ok_or, map_err, ltb, length, if◌then◌else◌, nat_eq, ◌==◌,
}
use azcoin_stratum_pool.Prelude.Text.{format, decimal}
use azcoin_stratum_pool.PoolCore.Types.{Bytes}
use azcoin_stratum_pool.Coin.Coinbase.{PoolError, internal, Bitcoin}

unfoldable pub validate_transaction_bytes : Bitcoin → String → Bytes → Result (Unit {0}) PoolError
validate_transaction_bytes b label tx_bytes = elim (b.deserialize tx_bytes) [
  | ok tx ↦ ok tt
  | err e ↦ err (internal (format ("invalid " ∷ label ∷ " bytes: " ∷ e ∷ [])))
]

-- The loop over the template's transactions, `index` the number of the first.
unfoldable pub validate_template : Bitcoin → ℕ → List Bytes → Result (Unit {0}) PoolError
validate_template b index [] = ok tt
validate_template b index (tx_bytes ∷ rest) = do
  _ ← validate_transaction_bytes b (format ("template transaction " ∷ decimal index ∷ [])) tx_bytes
  validate_template b (suc index) rest

-- `1usize.checked_add(n)` with a `usize` of 64 bits.
unfoldable pub checked_count : ℕ → Option ℕ
checked_count n = if ltb (suc n) (2 ^ 64) then some (suc n) else none

unfoldable pub extend_all : Bytes → List Bytes → Bytes
extend_all raw_block [] = raw_block
extend_all raw_block (tx_bytes ∷ rest) = extend_all (raw_block ++ tx_bytes) rest

-- What follows the test of the header.
unfoldable pub assemble : Bitcoin → Bytes → Bytes → List Bytes → Result Bytes PoolError
assemble b header_bytes coinbase_tx_bytes template_transactions = do
  _ ← validate_transaction_bytes b "coinbase" coinbase_tx_bytes
  _ ← validate_template b 0 template_transactions
  tx_count ←
      ok_or (checked_count (length template_transactions))
        (internal "block transaction count overflow")
  ok (
      extend_all ((header_bytes ++ b.encode_var_int tx_count) ++ coinbase_tx_bytes)
        template_transactions)

unfoldable pub build_raw_block : Bitcoin → Bytes → Bytes → List Bytes → Result Bytes PoolError
build_raw_block b header_bytes coinbase_tx_bytes template_transactions =
    if length header_bytes == 80
    then assemble b header_bytes coinbase_tx_bytes template_transactions
    else err
        (internal (format ("block header length " ∷ decimal (length header_bytes) ∷ " != 80" ∷ [])))
