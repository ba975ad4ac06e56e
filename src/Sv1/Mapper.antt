-- ===== src/Sv1/Mapper.antt =====
-- crates/protocol_sv1/src/domain_mapper.rs: requests taken apart into commands.
-- `json` is `serde_json`, `hex_decode` is `hex::decode` of the crate `hex`.
pub mod Laws
use Prim.Native.String.{len}
use azcoin_stratum_pool.Prelude.{
  ℕ, ◌^◌, String, Bool, true, false, not, Option, none, some, List, [], ◌∷◌, Result, ok, err, ◌>>=◌,
  ok_or, map_err, ltb, length, get_elem?, if◌then◌else◌, nat_eq, string_eq, ◌==◌,
}
use azcoin_stratum_pool.Prelude.Text.{format, decimal, u32_from_hex}
use azcoin_stratum_pool.PoolCore.Types.{Bytes}
use azcoin_stratum_pool.Sv1.Messages.{
  Json, Sv1Request, Sv1VersionRollingConfig, Sv1DomainCommand, configure, subscribe, authorize,
  submit_share,
}

abbrev pub u32_max : ℕ
u32_max = 0xffffffff

-- `o.and_then(f)`
abbrev pub and_then {ℓ κ} : {A : Type ℓ} {B : Type κ} → (A → Option B) → Option A → Option B
and_then f none = none
and_then f (some a) = f a

-- `unwrap_or("")`
abbrev pub or_empty : Option String → String
or_empty none = ""
or_empty (some s) = s

unfoldable pub any_equal : String → List String → Bool
any_equal name [] = false
any_equal name (s ∷ rest) = if s == name then true else any_equal name rest

-- Eight characters, then a hexadecimal number of 32 bits.
unfoldable pub eight_hex : String → String → String → Result ℕ String
eight_hex hex wrong_length invalid =
    if len hex == 8 then ok_or (u32_from_hex hex) invalid else err wrong_length

-- `map(Some)`
unfoldable pub known : Result Sv1DomainCommand String → Result (Option Sv1DomainCommand) String
known (ok command) = ok (some command)
known (err e) = err e

module _ {V O : Type 0} (json : Json V O) where
  -- `params.get(i).and_then(|v| v.as_str()).ok_or(message)?`
  unfoldable pub string_at : List V → ℕ → String → Result String String
  string_at params i message = ok_or (and_then json.as_str (get_elem? params i)) message

  unfoldable pub parse_hex_u32 : V → String → Result ℕ String
  parse_hex_u32 value label = do
    hex ← ok_or (json.as_str value) (format (label ∷ " must be 8-char hex string" ∷ []))
    eight_hex hex (format (label ∷ " must be 8-char hex string" ∷ []))
        (format (label ∷ " invalid hex" ∷ []))

  unfoldable pub parse_mask : Option O → Result ℕ String
  parse_mask options =
      elim (and_then (λ opts. json.get_field opts "version-rolling.mask") options) [
        | none ↦ ok u32_max
        | some value ↦ parse_hex_u32 value "mining.configure version-rolling.mask"
      ]

  unfoldable pub parse_min_bit_count : Option O → Result ℕ String
  parse_min_bit_count options =
      elim (and_then (λ opts. json.get_field opts "version-rolling.min-bit-count") options) [
        | none ↦ ok 0
        | some value ↦ elim (json.as_u64 value) [
          | none ↦ err "mining.configure version-rolling.min-bit-count must be integer"
          | some n ↦
              if ltb n (2 ^ 32)
              then ok n
              else err "mining.configure version-rolling.min-bit-count out of range"
        ]
      ]

  unfoldable pub parse_version_rolling_config : Option O → Result Sv1VersionRollingConfig String
  parse_version_rolling_config options = do
    mask ← parse_mask options
    min_bit_count ← parse_min_bit_count options
    ok (record { mask = mask; min_bit_count = min_bit_count })

  unfoldable pub extension_names : List V → Result (List String) String
  extension_names [] = ok []
  extension_names (item ∷ rest) = do
    name ← ok_or (json.as_str item) "mining.configure extensions must be strings"
    names ← extension_names rest
    ok (name ∷ names)

  unfoldable pub configure_array : Option V → Result (Option (List V)) String
  configure_array none = ok none
  configure_array (some params) = elim (json.as_array params) [
    | none ↦ err "mining.configure requires params array"
    | some items ↦ ok (some items)
  ]

  unfoldable pub configure_extensions : Option (List V) → Result (List String) String
  configure_extensions none = ok []
  configure_extensions (some []) = ok []
  configure_extensions (some (value ∷ rest)) = elim (json.as_array value) [
    | none ↦ err "mining.configure param 0 (extensions) must be array"
    | some items ↦ extension_names items
  ]

  unfoldable pub requested_rolling :
      Bool → Option O → Result (Option Sv1VersionRollingConfig) String
  requested_rolling false options = ok none
  requested_rolling true options = do
    config ← parse_version_rolling_config options
    ok (some config)

  unfoldable pub map_configure_params : Sv1Request V → Result Sv1DomainCommand String
  map_configure_params req = do
    params ← configure_array req.params
    extensions ← configure_extensions params
    let options = and_then json.as_object (and_then (λ p. get_elem? p 1) params)
    version_rolling ← requested_rolling (any_equal "version-rolling" extensions) options
    ok (configure extensions version_rolling)

  unfoldable pub map_authorize_params : Sv1Request V → Result Sv1DomainCommand String
  map_authorize_params req = do
    params ← ok_or (and_then json.as_array req.params) "mining.authorize requires params array"
    username ← string_at params 0 "mining.authorize requires username"
    ok (authorize username (or_empty (and_then json.as_str (get_elem? params 1))))

  unfoldable pub parse_version_bits : Option V → Result (Option ℕ) String
  parse_version_bits none = ok none
  parse_version_bits (some value) = do
    bits ← parse_hex_u32 value "mining.submit param 5 (version_bits)"
    ok (some bits)

  unfoldable pub map_submit_items :
      (String → Result Bytes String) → List V → Result Sv1DomainCommand String
  map_submit_items hex_decode params = do
    username ← string_at params 0 "mining.submit param 0 (username) must be string"
    job_id ← string_at params 1 "mining.submit param 1 (job_id) must be string"
    extra_nonce2_hex ← string_at params 2 "mining.submit param 2 (extra_nonce2) must be hex string"
    ntime_hex ← string_at params 3 "mining.submit param 3 (ntime) must be hex string"
    nonce_hex ← string_at params 4 "mining.submit param 4 (nonce) must be hex string"
    extra_nonce2 ←
        map_err (λ e. "mining.submit param 2 (extra_nonce2) invalid hex")
          (hex_decode extra_nonce2_hex)
    ntime ←
        eight_hex ntime_hex "mining.submit param 3 (ntime) must be 8 hex chars"
          "mining.submit param 3 (ntime) invalid hex"
    nonce ←
        eight_hex nonce_hex "mining.submit param 4 (nonce) must be 8 hex chars"
          "mining.submit param 4 (nonce) invalid hex"
    version_bits ← parse_version_bits (get_elem? params 5)
    ok (submit_share username job_id extra_nonce2 ntime nonce version_bits)

  unfoldable pub map_submit_params :
      (String → Result Bytes String) → Sv1Request V → Result Sv1DomainCommand String
  map_submit_params hex_decode req = do
    params ← ok_or (and_then json.as_array req.params) "mining.submit requires params array"
    if ltb (length params) 5
        then err (format ("mining.submit requires 5 params, got " ∷ decimal (length params) ∷ []))
        else map_submit_items hex_decode params

  unfoldable pub map_request_to_command :
      (String → Result Bytes String) → Sv1Request V → Result (Option Sv1DomainCommand) String
  map_request_to_command hex_decode req =
      if req.method == "mining.configure"
      then known (map_configure_params req)
      else if req.method == "mining.subscribe"
      then ok (some subscribe)
      else if req.method == "mining.authorize"
      then known (map_authorize_params req)
      else if req.method == "mining.submit"
      then known (map_submit_params hex_decode req)
      else ok none
