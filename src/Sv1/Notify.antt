-- ===== src/Sv1/Notify.antt =====
-- crates/protocol_sv1/src/notify.rs and the builders of src/session.rs: the messages as JSON.
-- `JsonMake` is how `json!` makes a value; an object is made by insertions in the order of the list, so
-- that a later entry replaces an earlier one. `hex_encode` is `hex::encode`.
pub mod Laws
use azcoin_stratum_pool.Prelude.{
  ℕ, String, Bool, true, false, Option, none, some, List, [], ◌∷◌, ◌++◌, map, reverse,
  if◌then◌else◌, string_eq, ◌==◌,
}
use azcoin_stratum_pool.Prelude.Text.{hex08}
use azcoin_stratum_pool.PoolCore.Types.{Bytes, Job}
use azcoin_stratum_pool.Sv1.Messages.{Sv1VersionRollingConfig}
use azcoin_stratum_pool.Sv1.Session.{
  Sv1Response, configure_response, subscribe_response, authorize_success, submit_success,
  error_response,
}

pub record JsonMake (V : Type 0) : Type 0 where
  pub boolean : Bool → V
  pub number : ℕ → V
  pub string : String → V
  pub array : List V → V
  pub object : List (String × V) → V

-- The bytes of each whole group of four in turn, last byte first.
unfoldable pub word_swapped : Bytes → Bytes
word_swapped (a ∷ b ∷ c ∷ d ∷ rest) = d ∷ c ∷ b ∷ a ∷ word_swapped rest
word_swapped _ = []

-- The nine parameters of `mining.notify`.
pub record NotifyParams : Type 0 where
  pub job_id : String
  pub prev_hash : String
  pub coinb1 : String
  pub coinb2 : String
  pub merkle_branch : List String
  pub version : String
  pub nbits : String
  pub ntime : String
  pub clean_jobs : Bool

module _ (hex_encode : Bytes → String) where
  unfoldable pub hex_encode_prevhash_sv1 : Bytes → String
  hex_encode_prevhash_sv1 bytes = hex_encode (word_swapped bytes)

  unfoldable pub hex_encode_reversed : Bytes → String
  hex_encode_reversed bytes = hex_encode (reverse bytes)

  unfoldable pub notify_params : Job → NotifyParams
  notify_params job = record {
    job_id = job.job_id;
    prev_hash = hex_encode_prevhash_sv1 job.prev_hash;
    coinb1 = hex_encode job.coinbase_part1;
    coinb2 = hex_encode job.coinbase_part2;
    merkle_branch = map hex_encode_reversed job.merkle_branch;
    version = hex08 job.version;
    nbits = hex08 job.nbits;
    ntime = hex08 job.ntime;
    clean_jobs = job.clean_jobs;
  }

-- `id`, `result` and `error`; the code of an error is negative and stands without its sign.
pub record WireResponse (V : Type 0) : Type 0 where
  pub id : Option V
  pub result : Option V
  pub error : Option (ℕ × String)

module _ {V : Type 0} (json : JsonMake V) where
  unfoldable pub build_mining_notify : (Bytes → String) → Job → V
  build_mining_notify hex_encode job =
      let p = notify_params hex_encode job in
      json.object (
        ("method", json.string "mining.notify")
        ∷ (
          "params",
          json.array (
              json.string p.job_id
              ∷ json.string p.prev_hash
              ∷ json.string p.coinb1
              ∷ json.string p.coinb2
              ∷ json.array (map json.string p.merkle_branch)
              ∷ json.string p.version
              ∷ json.string p.nbits
              ∷ json.string p.ntime
              ∷ json.boolean p.clean_jobs
              ∷ []),
        )
        ∷ [])

  unfoldable pub build_set_difficulty_notification : ℕ → V
  build_set_difficulty_notification difficulty = json.object (
      ("method", json.string "mining.set_difficulty")
      ∷ ("params", json.array (json.number difficulty ∷ []))
      ∷ [])

  -- The entries that one extension inserts.
  unfoldable pub extension_entries : Option Sv1VersionRollingConfig → String → List (String × V)
  extension_entries version_rolling extension =
      if extension == "version-rolling"
      then elim version_rolling [
        | some config ↦
            (extension, json.boolean true)
            ∷ ("version-rolling.mask", json.string (hex08 config.mask))
            ∷ ("version-rolling.min-bit-count", json.number config.min_bit_count)
            ∷ []
        | none ↦
            (extension, json.boolean false)
            ∷ ("version-rolling.mask", json.string "00000000")
            ∷ ("version-rolling.min-bit-count", json.number 0)
            ∷ []
      ]
      else (extension, json.boolean false) ∷ []

  unfoldable pub configure_entries :
      Option Sv1VersionRollingConfig → List String → List (String × V)
  configure_entries version_rolling [] = []
  configure_entries version_rolling (extension ∷ rest) =
      extension_entries version_rolling extension ++ configure_entries version_rolling rest

  unfoldable pub succeed : Option V → V → WireResponse V
  succeed id result = record { id = id; result = some result; error = none }

  -- What each builder of src/session.rs makes.
  unfoldable pub build_response : Option V → Sv1Response → WireResponse V
  build_response id (configure_response extensions version_rolling) =
      succeed id (json.object (configure_entries version_rolling extensions))
  build_response id (subscribe_response extranonce1) = succeed id (
      json.array (
        json.array (
          json.array (json.string "mining.set_difficulty" ∷ json.string "mining.notify" ∷ [])
          ∷ json.string extranonce1
          ∷ json.number 4
          ∷ [])
        ∷ json.string extranonce1
        ∷ json.number 4
        ∷ []))
  build_response id authorize_success = succeed id (json.boolean true)
  build_response id submit_success = succeed id (json.boolean true)
  build_response id (error_response code message) = record {
    id = id;
    result = none;
    error = some (code, message);
  }
