-- ===== src/Coin/Header/Version.antt =====
-- Version rolling, bit by bit.
use azcoin_stratum_pool.Prelude.{
  ℕ, ◌^◌, ◌≤◌, ◌<◌, min, some, ok, bit_and, bit_or, ◌≡◌, arith, ◌==◌, nat_eq, if◌then◌else◌, ◌∙◌,
  sym, ap,
}
use azcoin_stratum_pool.Prelude.Bits.{
  bit, bit-and, bit-or, bit-complement, complement, bit_lt_two, bit-zero,
}
use azcoin_stratum_pool.PoolCore.Types.{ShareSubmission, ShareValidationContext}
use azcoin_stratum_pool.Coin.Header.{resolved_version}

-- The bits of a version in the negotiated mask are the miner's, the others the job's.
pub bit-rolled :
    (k job_version bits mask : ℕ)
    → k < 32
    → mask < 2 ^ 32
    → bit k (bit_or (bit_and job_version (complement 32 mask)) (bit_and bits mask))
      ≡ (if bit k mask == 1 then bit k bits else bit k job_version)
bit-rolled k job_version bits mask h hm =
    let low = bit_lt_two k mask in
    let low' = bit_lt_two k bits in
    let low'' = bit_lt_two k job_version in
    bit-or k (bit_and job_version (complement 32 mask)) (bit_and bits mask)
    ∙ grind (
      arith,
      bit-and k job_version (complement 32 mask),
      bit-and k bits mask,
      bit-complement 32 k mask h hm,
      low,
      low',
      low'',
    )

bits_within_mask :
    (k bits mask : ℕ)
    → k < 32
    → mask < 2 ^ 32
    → bit_and bits (complement 32 mask) ≡ 0
    → bit k bits ≤ bit k mask
bits_within_mask k bits mask h hm z =
    let both : min (bit k bits) (bit k (complement 32 mask)) ≡ 0 =
      sym (bit-and k bits (complement 32 mask)) ∙ ap (bit k) z ∙ bit-zero k in
    omega (arith, both, bit-complement 32 k mask h hm, bit_lt_two k mask, bit_lt_two k bits)

-- Where a share with version bits and a negotiated mask of 32 bits resolves to a version, every bit of the
-- version inside the mask is the miner's and every bit outside is the job's, and the miner has set
-- no bit outside the mask.
pub resolved_version_bits :
    (job_version : ℕ) (share : ShareSubmission) (ctx : ShareValidationContext)
    (bits mask version k : ℕ)
    → share.validation_context ≡ some ctx
    → ctx.version_bits ≡ some bits
    → ctx.version_rolling_mask ≡ some mask
    → mask < 2 ^ 32
    → k < 32
    → resolved_version job_version share ≡ ok version
    → (bit k version ≡ (if bit k mask == 1 then bit k bits else bit k job_version))
      × (bit k bits ≤ bit k mask)
unfolding resolved_version
resolved_version_bits job_version share ctx bits mask version k c b m hm h r =
    let inside : bit_and bits (complement 32 mask) ≡ 0 = ground arith in
    (
      ground (arith, bit-rolled k job_version bits mask h hm),
      bits_within_mask k bits mask h hm inside,
    )
