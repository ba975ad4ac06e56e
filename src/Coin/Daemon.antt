-- ===== src/Coin/Daemon.antt =====
-- crates/coin_azcoin/src/daemon.rs, the client of the daemon's JSON-RPC interface, and
-- AzcoinBlockSubmitter of src/block_submit.rs.
pub mod Laws
pub mod Refusal
use azcoin_stratum_pool.Prelude.{
  String, Bool, true, false, not, Option, none, some, List, [], ◌∷◌, Result, ok, err, ◌>>=◌, ok_or,
  map_err, if◌then◌else◌, string_eq, ◌==◌,
}
use azcoin_stratum_pool.Prelude.Text.{format, trim, trim_end_matches}
use azcoin_stratum_pool.PoolCore.Types.{Bytes, BlockCandidate}
use azcoin_stratum_pool.Coin.Coinbase.{PoolError, daemon}
use azcoin_stratum_pool.Coin.Template.{BlockTemplate}
use azcoin_stratum_pool.Coin.Candidate.{error_text}
use azcoin_stratum_pool.Coin.Http.{
  Auth, no_auth, basic_auth, http_post, HttpRequest, HttpResponse, Send, JsonValue,
}

pub record DaemonClient : Type 0 where
  pub url : String
  pub rpc_user : String
  pub rpc_password : String

-- `DaemonClient::new`
unfoldable pub new : String → String → String → DaemonClient
new url rpc_user rpc_password = record {
  url = trim_end_matches "/" url;
  rpc_user = rpc_user;
  rpc_password = rpc_password;
}

unfoldable pub rpc_auth : DaemonClient → Auth
rpc_auth client =
    if client.rpc_user == "" then no_auth else basic_auth client.rpc_user client.rpc_password

module _ {V : Type 0} (json : JsonValue V) where
  unfoldable pub rpc_request : DaemonClient → String → V → HttpRequest V
  rpc_request client method params = record {
    verb = http_post;
    url = format (client.url ∷ "/" ∷ []);
    body = some (
        json.object (
          ("jsonrpc", json.string "1.0")
          ∷ ("id", json.string "azcoin-pool")
          ∷ ("method", json.string method)
          ∷ ("params", params)
          ∷ []));
    auth = rpc_auth client;
  }

  -- `err.get("message").and_then(|m| m.as_str()).unwrap_or("unknown")`
  unfoldable pub rpc_message : V → String
  rpc_message e = elim (json.get e "message") [
    | none ↦ "unknown"
    | some m ↦ elim (json.as_str m) [ none ↦ "unknown" | some text ↦ text ]
  ]

  -- The error in an answer.
  unfoldable pub rpc_error : V → Result (Unit {0}) PoolError
  rpc_error value = elim (json.get value "error") [
    | none ↦ ok tt
    | some e ↦
        if json.is_null e
        then ok tt
        else err (daemon (format ("daemon RPC error: " ∷ rpc_message e ∷ [])))
  ]

  unfoldable pub rpc_status : HttpResponse V → Result (Unit {0}) PoolError
  rpc_status resp =
      if not resp.is_success
      then err (daemon (format ("daemon returned HTTP " ∷ resp.status ∷ [])))
      else ok tt

  -- What an answer means.
  unfoldable pub read_response : HttpResponse V → Result V PoolError
  read_response resp = do
    value ← map_err (λ e. daemon (format ("daemon response parse failed: " ∷ e ∷ []))) resp.json
    checked ← rpc_error value
    successful ← rpc_status resp
    ok_or (json.get value "result") (daemon "daemon response missing result")

  -- What the result of `submitblock` means.
  unfoldable pub read_submission : V → Result Bool PoolError
  read_submission value = if json.is_null value then ok true else elim (json.as_str value) [
    | none ↦
        err (daemon (format ("submitblock returned unexpected result: " ∷ json.to_text value ∷ [])))
    | some reason ↦
        if trim reason == ""
        then ok true
        else err (daemon (format ("submitblock rejected: " ∷ reason ∷ [])))
  ]

  module _ {N : Type 0} (send : Send N V) (client : DaemonClient) where
    unfoldable pub rpc_call : N → String → V → N × Result V PoolError
    rpc_call n method params =
        let (n', answer) = send n (rpc_request client method params) in
        (
          n',
          (do
            resp ← map_err (λ e. daemon (format ("daemon request failed: " ∷ e ∷ []))) answer
            read_response resp),
        )

    -- `from_value` is `serde_json::from_value` at the type of templates.
    unfoldable pub get_block_template :
        (V → Result BlockTemplate String) → N → N × Result (Option BlockTemplate) PoolError
    get_block_template from_value n =
        let (n', answer) = rpc_call n "getblocktemplate" (
          json.array (json.object (("rules", json.array (json.string "segwit" ∷ [])) ∷ []) ∷ [])) in
        (
          n',
          (do
            result ← answer
            template ←
                map_err (λ e. daemon (format ("daemon template parse failed: " ∷ e ∷ [])))
                  (from_value result)
            ok (some template)),
        )

    -- `hex_encode` is `hex::encode`.
    unfoldable pub submit_block : (Bytes → String) → N → Bytes → N × Result Bool PoolError
    submit_block hex_encode n raw_block =
        let (n', answer) =
          rpc_call n "submitblock" (json.array (json.string (hex_encode raw_block) ∷ [])) in
        (n', (do result ← answer; read_submission result))

    -- AzcoinBlockSubmitter: the method of the trait `BlockSubmitter`.
    unfoldable pub submit_candidate : (Bytes → String) → N → BlockCandidate → N × Result Bool String
    submit_candidate hex_encode n block =
        let (n', answer) = submit_block hex_encode n block.raw_block in
        (n', map_err error_text answer)
