-- ===== src/Sv1/Notify/Laws.antt =====
-- What a miner reads of a notified job.
use azcoin_stratum_pool.Prelude.{
  ◌^◌, ◌<◌, String, some, List, [], ◌∷◌, reverse, Result, ok, All, ◌≡◌,
}
use azcoin_stratum_pool.Prelude.Words.{IsByte}
use azcoin_stratum_pool.Prelude.Text.{u32_from_hex}
use azcoin_stratum_pool.PoolCore.Types.{Bytes, Job}
use azcoin_stratum_pool.Coin.Target.Shape.{IsHash}
use azcoin_stratum_pool.Sv1.Notify.{word_swapped, NotifyParams}

-- Texts that decode, one by one, to the hashes with their bytes reversed.
unfoldable pub Reversed : (String → Result Bytes String) → List String → List Bytes → Type 0
Reversed hex_decode [] [] = Unit
Reversed hex_decode [] (hash ∷ hashes) = ⊥
Reversed hex_decode (text ∷ texts) [] = ⊥
Reversed hex_decode (text ∷ texts) (hash ∷ hashes) =
    (hex_decode text ≡ ok (reverse hash)) × Reversed hex_decode texts hashes

pub record Reads (hex_decode : String → Result Bytes String) (p : NotifyParams) (job : Job)
    : Type 0 where
  pub id_kept : p.job_id ≡ job.job_id
  pub swapped : Bytes
  pub prev_hash_read : hex_decode p.prev_hash ≡ ok swapped
  pub prev_hash_swapped : word_swapped swapped ≡ job.prev_hash
  pub coinb1_read : hex_decode p.coinb1 ≡ ok job.coinbase_part1
  pub coinb2_read : hex_decode p.coinb2 ≡ ok job.coinbase_part2
  pub branch_reversed : Reversed hex_decode p.merkle_branch job.merkle_branch
  pub version_read : u32_from_hex p.version ≡ some job.version
  pub nbits_read : u32_from_hex p.nbits ≡ some job.nbits
  pub ntime_read : u32_from_hex p.ntime ≡ some job.ntime
  pub clean_kept : p.clean_jobs ≡ job.clean_jobs

-- A job of bytes, hashes and 32-bit numbers.
pub record Sendable (job : Job) : Type 0 where
  pub prev_hash_IsHash : IsHash job.prev_hash
  pub part1_bytes : All IsByte job.coinbase_part1
  pub part2_bytes : All IsByte job.coinbase_part2
  pub branch_bytes : All (All IsByte) job.merkle_branch
  pub version_small : job.version < 2 ^ 32
  pub nbits_small : job.nbits < 2 ^ 32
  pub ntime_small : job.ntime < 2 ^ 32
