-- ===== src/Sv1/Tests.antt =====
-- The theorems of protocol_sv1 at concrete inputs.
use azcoin_stratum_pool.Prelude.{
  ℕ, suc, String, Option, none, some, List, [], ◌∷◌, map, Result, ok, ◌≡◌, ◌⊎◌, ◌≢◌, refl, arith,
}
use azcoin_stratum_pool.Prelude.Text.{hex08}
use azcoin_stratum_pool.PoolCore.Types.{Bytes, WorkerIdentity, accepted}
use azcoin_stratum_pool.Sv1.Messages.{Json, Sv1Request, Sv1VersionRollingConfig, submit_share}
use azcoin_stratum_pool.Sv1.Mapper.{map_request_to_command}
use azcoin_stratum_pool.Sv1.Mapper.Laws.{Written, map_request-Written}
use azcoin_stratum_pool.Sv1.Session.{
  SessionState, new_session, SessionEventHandler, Shared, submit_success, dispatch_request,
}
use azcoin_stratum_pool.Sv1.Session.Submission.{Entitled, Handed, written_share-Handed}

-- JSON values that are arrays of texts; a text is an array of one.
abbrev one_text : List String → Option String
one_text [] = none
one_text (s ∷ []) = some s
one_text (s ∷ t ∷ rest) = none

abbrev pub texts : Json (List String) (Unit {0})
texts = record {
  as_array = λ v. some (map (λ s. s ∷ []) v);
  as_str = one_text;
  as_u64 = λ v. none;
  as_object = λ v. none;
  get_field = λ o key. none;
}

abbrev submit_params : List String
submit_params = "u" ∷ "7" ∷ "00000001" ∷ hex08 5 ∷ hex08 9 ∷ hex08 0x2000 ∷ []

abbrev submit_request : Sv1Request (List String)
submit_request = record { id = none; method = "mining.submit"; params = some submit_params }

abbrev pub decode_four : String → Result Bytes String
decode_four s = ok (0 ∷ 0 ∷ 0 ∷ 1 ∷ [])

abbrev submit_request-Written : Written texts submit_request "u" "7" "00000001" 5 9 0x2000
submit_request-Written = record {
  is_submit = refl;
  params = submit_params;
  has_params = refl;
  v0 = "u" ∷ [];
  v1 = "7" ∷ [];
  v2 = "00000001" ∷ [];
  v3 = hex08 5 ∷ [];
  v4 = hex08 9 ∷ [];
  v5 = hex08 0x2000 ∷ [];
  items = refl;
  username_at = refl;
  job_id_at = refl;
  extra_nonce2_at = refl;
  ntime_at = refl;
  nonce_at = refl;
  bits_at = refl;
}

map_request-Written_example :
    map_request_to_command texts decode_four submit_request
    ≡ ok (some (submit_share "u" "7" (0 ∷ 0 ∷ 0 ∷ 1 ∷ []) 5 9 (some 0x2000)))
map_request-Written_example =
    map_request-Written texts decode_four submit_request "u" "7" "00000001" (0 ∷ 0 ∷ 0 ∷ 1 ∷ []) 5 9
      0x2000 submit_request-Written refl (omega arith) (omega arith) (omega arith)

abbrev asked : Sv1VersionRollingConfig
asked = record { mask = 0xffffffff; min_bit_count = 2 }

abbrev granted : Sv1VersionRollingConfig
granted = record { mask = 0x1fffe000; min_bit_count = 2 }

-- A handler that counts the shares and accepts them.
abbrev counting : SessionEventHandler ℕ
counting = record {
  on_connect = λ n. n;
  on_disconnect = λ n. n;
  on_authorize = λ n username. (n, ok none);
  on_notify_sent = λ n job. n;
  on_submit = λ n share. (suc n, some accepted);
}

abbrev start : Shared ℕ
start = record { next_extranonce1 = 1; world = 0 }

abbrev a_worker : WorkerIdentity
a_worker = record { id = "u"; username = some "u"; worker_name = none }

abbrev pub open_session : SessionState
open_session = record new_session {
  authorized_worker = some a_worker;
  version_rolling = some granted;
}

written_share-Handed_example :
    let d = dispatch_request counting texts decode_four submit_request start open_session in
    ((worker : WorkerIdentity) × (cfg : Sv1VersionRollingConfig) × Entitled open_session "u" worker
        cfg
      × Handed counting start open_session d (record {
        job_id = "7";
        worker = worker;
        extra_nonce2 = 0 ∷ 0 ∷ 0 ∷ 1 ∷ [];
        ntime = 5;
        nonce = 9;
        validation_context = some (record {
          expected_extra_nonce2_len = some open_session.extranonce2_size;
          extranonce1_hex = some open_session.extranonce1;
          version_rolling_mask = some cfg.mask;
          version_bits = some 0x2000;
        });
      }))
    ⊎ (((worker : WorkerIdentity) (cfg : Sv1VersionRollingConfig)
          → ¬ Entitled open_session "u" worker cfg)
        × (d.shared ≡ start)
        × (d.session_state ≡ open_session)
        × (d.response ≢ some submit_success))
written_share-Handed_example =
    written_share-Handed counting texts decode_four submit_request start open_session "u" "7"
      "00000001" (0 ∷ 0 ∷ 0 ∷ 1 ∷ []) 5 9 0x2000 submit_request-Written refl (omega arith)
      (omega arith) (omega arith)
