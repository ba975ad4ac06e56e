-- ===== src/Coin/NodeApi/Laws.antt =====
-- What the node reads of a share, and when a template is fetched.
use azcoin_stratum_pool.Prelude.{
  ℕ, ◌^◌, ◌<◌, String, true, false, some, Result, ok, All, ◌≡◌, refl, ◌⊎◌, inl, inr,
}
use azcoin_stratum_pool.Prelude.Words.{IsByte}
use azcoin_stratum_pool.Prelude.Text.{u32_from_hex}
use azcoin_stratum_pool.Prelude.Numerals.{u32_from_hex-hex08}
use azcoin_stratum_pool.PoolCore.Types.{
  Bytes, ShareSubmission, ShareResult, accepted, block, low_difficulty, malformed, unknown_job,
  rejected, is_accepted, reject_reason,
}
use azcoin_stratum_pool.Coin.NodeApi.{NodeApiShareRequest, reason_text, build_share_request}

-- What a reader of the request finds in it.
pub record ReadsAs (hex_decode : String → Result Bytes String) (request : NodeApiShareRequest)
    (share : ShareSubmission) (result : ShareResult) : Type 0 where
  pub worker_kept : request.worker ≡ share.worker.id
  pub job_kept : request.job_id ≡ share.job_id
  pub extranonce2_read : hex_decode request.extranonce2 ≡ ok share.extra_nonce2
  pub ntime_read : u32_from_hex request.ntime ≡ some share.ntime
  pub nonce_read : u32_from_hex request.nonce ≡ some share.nonce
  pub verdict :
      ((request.accepted ≡ true) × (request.reason ≡ "") × ((result ≡ accepted) ⊎ (result ≡ block)))
      ⊎ ((request.accepted ≡ false) × (reject_reason result ≡ some request.reason))

verdict_of :
    (r : ShareResult)
    → ((is_accepted r ≡ true) × (reason_text r ≡ "") × ((r ≡ accepted) ⊎ (r ≡ block)))
      ⊎ ((is_accepted r ≡ false) × (reject_reason r ≡ some (reason_text r)))
unfolding reason_text
verdict_of accepted = inl (refl, refl, inl refl)
verdict_of block = inl (refl, refl, inr refl)
verdict_of (low_difficulty r) = inr (refl, refl)
verdict_of (malformed r) = inr (refl, refl)
verdict_of (unknown_job r) = inr (refl, refl)
verdict_of (rejected r) = inr (refl, refl)

module _ (hex_encode : Bytes → String) (hex_decode : String → Result Bytes String)
    (decode_encode : (bs : Bytes) → All IsByte bs → hex_decode (hex_encode bs) ≡ ok bs) where
  -- Where decoding undoes the encoding of bytes, extra_nonce2 is of bytes and the time and the nonce of a share have 32 bits, the request
  -- gives back the worker, the job, the three numbers of the share and its result: accepted with no
  -- reason for an accepted share or a block, not accepted with the result's reason otherwise.
  pub build_share_request-ReadsAs :
      (ts : ℕ) (share : ShareSubmission) (result : ShareResult) (pool_difficulty : ℕ)
      → All IsByte share.extra_nonce2
      → share.ntime < 2 ^ 32
      → share.nonce < 2 ^ 32
      → ReadsAs hex_decode
          (build_share_request hex_encode ts share result pool_difficulty)
          share
          result
  unfolding build_share_request
  build_share_request-ReadsAs ts share result pool_difficulty hb ht hn = record {
    worker_kept = refl;
    job_kept = refl;
    extranonce2_read = decode_encode share.extra_nonce2 hb;
    ntime_read = u32_from_hex-hex08 share.ntime ht;
    nonce_read = u32_from_hex-hex08 share.nonce hn;
    verdict = verdict_of result;
  }
