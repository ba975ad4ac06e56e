-- ===== src/Coin/ApiTemplate.antt =====
-- crates/coin_azcoin/src/api_template_mapper.rs: templates of the node's REST interface turned into
-- jobs. `hex_decode` is `hex::decode`.
pub mod Laws
use azcoin_stratum_pool.Prelude.{
  ℕ, String, none, [], ◌∷◌, ◌++◌, Result, ok, err, ◌>>=◌, map_err, length, if◌then◌else◌, nat_eq,
  ◌==◌,
}
use azcoin_stratum_pool.Prelude.Text.{format, decimal, trim}
use azcoin_stratum_pool.Prelude.Words.{le_value, le_bytes}
use azcoin_stratum_pool.PoolCore.Types.{Bytes, Job}
use azcoin_stratum_pool.Coin.Coinbase.{PoolError, daemon}
use azcoin_stratum_pool.Coin.Template.{decode_prev_hash, decode_bits}
use azcoin_stratum_pool.Coin.NodeApi.{NodeApiTemplate}

unfoldable pub ntime_hex_to_u32 : (String → Result Bytes String) → String → Result ℕ PoolError
ntime_hex_to_u32 hex_decode s = do
  bytes ← map_err (λ e. daemon (format ("ntime hex: " ∷ e ∷ []))) (hex_decode (trim s))
  if length bytes == 4
      then ok (le_value bytes)
      else err (daemon (format ("ntime length " ∷ decimal (length bytes) ∷ " != 4" ∷ [])))

-- `height.to_le_bytes()` has the eight bytes of a `u64`.
unfoldable pub build_coinbase_parts : NodeApiTemplate → Bytes × Bytes
build_coinbase_parts template =
    ((1 ∷ 0 ∷ 0 ∷ 0 ∷ 0 ∷ []) ++ le_bytes 8 template.height, 0xff ∷ 0xff ∷ 0xff ∷ 0xff ∷ [])

unfoldable pub api_template_to_job :
    (String → Result Bytes String) → NodeApiTemplate → Result Job PoolError
api_template_to_job hex_decode template = do
  prev_hash ← decode_prev_hash hex_decode template.prev_hash
  nbits ← decode_bits hex_decode template.nbits
  ntime ← ntime_hex_to_u32 hex_decode template.ntime
  let (coinbase_part1, coinbase_part2) = build_coinbase_parts template
  ok (record {
    job_id = template.job_id;
    prev_hash = prev_hash;
    coinbase_part1 = coinbase_part1;
    coinbase_part2 = coinbase_part2;
    merkle_branch = [];
    version = template.version;
    nbits = nbits;
    ntime = ntime;
    clean_jobs = template.clean_jobs;
    block_assembly = none;
  })
