-- ===== src/Sv1/Mapper/Laws.antt =====
-- What a submitted share is parsed to.
use azcoin_stratum_pool.Prelude.{ℕ, ◌^◌, ◌<◌, String, some, [], ◌∷◌, Result, ok, ◌≡◌, refl}
use azcoin_stratum_pool.Prelude.Text.{hex08}
use azcoin_stratum_pool.Prelude.Numerals.{len-hex08, u32_from_hex-hex08}
use azcoin_stratum_pool.PoolCore.Types.{Bytes}
use azcoin_stratum_pool.Sv1.Messages.{Json, Sv1Request, submit_share}
use azcoin_stratum_pool.Sv1.Mapper.{
  string_at, eight_hex, parse_hex_u32, parse_version_bits, map_submit_items, known,
  map_submit_params, map_request_to_command,
}

eight_hex-hex08 :
    (n : ℕ) (wrong_length invalid : String)
    → n < 2 ^ 32
    → eight_hex (hex08 n) wrong_length invalid ≡ ok n
unfolding eight_hex
eight_hex-hex08 n wrong_length invalid h =
    rw (len-hex08 n, eight_hex) (rw (u32_from_hex-hex08 n h) refl)

module _ {V O : Type 0} (json : Json V O) where
  -- What a miner sends: five strings and the version bits, the numbers as `{:08x}` writes them.
  pub record Written (req : Sv1Request V) (username job_id extra_nonce2_hex : String)
      (ntime nonce bits : ℕ) : Type 0 where
    pub is_submit : req.method ≡ "mining.submit"
    pub params : V
    pub has_params : req.params ≡ some params
    pub v0 : V
    pub v1 : V
    pub v2 : V
    pub v3 : V
    pub v4 : V
    pub v5 : V
    pub items : json.as_array params ≡ some (v0 ∷ v1 ∷ v2 ∷ v3 ∷ v4 ∷ v5 ∷ [])
    pub username_at : json.as_str v0 ≡ some username
    pub job_id_at : json.as_str v1 ≡ some job_id
    pub extra_nonce2_at : json.as_str v2 ≡ some extra_nonce2_hex
    pub ntime_at : json.as_str v3 ≡ some (hex08 ntime)
    pub nonce_at : json.as_str v4 ≡ some (hex08 nonce)
    pub bits_at : json.as_str v5 ≡ some (hex08 bits)

  pub items-submit :
      (hex_decode : String → Result Bytes String) (req : Sv1Request V)
      (username job_id extra_nonce2_hex : String) (extra_nonce2 : Bytes) (ntime nonce bits : ℕ)
      → (w : Written req username job_id extra_nonce2_hex ntime nonce bits)
      → hex_decode extra_nonce2_hex ≡ ok extra_nonce2
      → ntime < 2 ^ 32
      → nonce < 2 ^ 32
      → bits < 2 ^ 32
      → map_submit_items json hex_decode (w.v0 ∷ w.v1 ∷ w.v2 ∷ w.v3 ∷ w.v4 ∷ w.v5 ∷ [])
        ≡ ok (submit_share username job_id extra_nonce2 ntime nonce (some bits))
  unfolding map_submit_items string_at parse_version_bits parse_hex_u32
  items-submit hex_decode req username job_id extra_nonce2_hex extra_nonce2 ntime nonce bits w
        decoded ht hn hb =
      rw (w.username_at, map_submit_items, string_at)
        (rw (w.job_id_at) (
          rw w.extra_nonce2_at (
            rw w.ntime_at (
              rw w.nonce_at (
                rw decoded (
                  rw (eight_hex-hex08 ntime _ _ ht) (
                    rw (eight_hex-hex08 nonce _ _ hn)
                      (rw (w.bits_at, parse_hex_u32) (rw (eight_hex-hex08 bits _ _ hb) refl)))))))))

  -- A share that is written with five strings and its version bits, its 32-bit numbers as eight
  -- hexadecimal digits and its extra_nonce2 as text that decodes, is parsed to just that share.
  pub map_request-Written :
      (hex_decode : String → Result Bytes String) (req : Sv1Request V)
      (username job_id extra_nonce2_hex : String) (extra_nonce2 : Bytes) (ntime nonce bits : ℕ)
      → Written req username job_id extra_nonce2_hex ntime nonce bits
      → hex_decode extra_nonce2_hex ≡ ok extra_nonce2
      → ntime < 2 ^ 32
      → nonce < 2 ^ 32
      → bits < 2 ^ 32
      → map_request_to_command json hex_decode req
        ≡ ok (some (submit_share username job_id extra_nonce2 ntime nonce (some bits)))
  unfolding map_request_to_command map_submit_params known
  map_request-Written hex_decode req username job_id extra_nonce2_hex extra_nonce2 ntime nonce bits
        w decoded ht hn hb =
      rw (w.is_submit, map_request_to_command)
        (rw (w.has_params, map_submit_params)
          (rw w.items (
            rw
              (items-submit hex_decode req username job_id extra_nonce2_hex extra_nonce2 ntime nonce
                bits w decoded ht hn hb)
              refl)))
