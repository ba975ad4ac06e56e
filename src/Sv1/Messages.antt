-- ===== src/Sv1/Messages.antt =====
-- crates/protocol_sv1/src/{messages,session}.rs: requests, responses and commands, and the
-- negotiation of version rolling.
-- `serde_json::Value` is a parameter `V`, with the accessors that the parser calls in `Json`.
use azcoin_stratum_pool.Prelude.{
  ℕ, zero, suc, ◌+◌, ◌/◌, ◌%◌, min, String, Option, none, some, List, bit_and, if◌then◌else◌,
  nat_eq, ◌==◌,
}
use azcoin_stratum_pool.PoolCore.Types.{Bytes}

-- `as_array`, `as_str`, `as_u64`, `as_object` and `Map::get`.
pub record Json (V O : Type 0) : Type 0 where
  pub as_array : V → Option (List V)
  pub as_str : V → Option String
  pub as_u64 : V → Option ℕ
  pub as_object : V → Option O
  pub get_field : O → String → Option V

pub record Sv1Request (V : Type 0) : Type 0 where
  pub id : Option V
  pub method : String
  pub params : Option V

pub record Sv1VersionRollingConfig : Type 0 where
  pub mask : ℕ
  pub min_bit_count : ℕ

pub data Sv1DomainCommand : Type 0 where
  configure : List String → Option Sv1VersionRollingConfig → Sv1DomainCommand
  subscribe : Sv1DomainCommand
  authorize : String → String → Sv1DomainCommand
  submit_share : String → String → Bytes → ℕ → ℕ → Option ℕ → Sv1DomainCommand

abbrev pub sv1_version_rolling_mask : ℕ
sv1_version_rolling_mask = 0x1fffe000

-- `count_ones` of a word of `width` bits.
unfoldable pub count_ones : ℕ → ℕ → ℕ
count_ones zero n = 0
count_ones (suc width) n = n % 2 + count_ones width (n / 2)

unfoldable pub negotiate_version_rolling : Sv1VersionRollingConfig → Option Sv1VersionRollingConfig
negotiate_version_rolling requested =
    let mask = bit_and sv1_version_rolling_mask requested.mask in
    if mask == 0
    then none
    else some
        (record { mask = mask; min_bit_count = min requested.min_bit_count (count_ones 32 mask) })
