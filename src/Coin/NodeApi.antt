-- ===== src/Coin/NodeApi.antt =====
-- crates/coin_azcoin/src/node_api.rs: the client of the node's REST interface, a source of templates and
-- a sink of shares.
-- `json::<T>()` is the body read as JSON and that as a `T`.
pub mod Laws
use azcoin_stratum_pool.Prelude.{
  ℕ, String, Bool, true, false, not, Option, none, some, List, [], ◌∷◌, Result, ok, err, ◌>>=◌,
  map_err, if◌then◌else◌, string_eq, ◌==◌,
}
use azcoin_stratum_pool.Prelude.Text.{format, trim, trim_end_matches, hex08}
use azcoin_stratum_pool.PoolCore.Types.{
  Bytes, ShareSubmission, ShareResult, is_accepted, reject_reason,
}
use azcoin_stratum_pool.Coin.Coinbase.{PoolError, daemon}
use azcoin_stratum_pool.Coin.Candidate.{error_text}
use azcoin_stratum_pool.Coin.Http.{
  Auth, no_auth, bearer_auth, http_get, http_post, HttpRequest, HttpResponse, Send,
}

pub record NodeApiClient : Type 0 where
  pub base_url : String
  pub bearer_token : Option String

pub record NodeApiTemplate : Type 0 where
  pub job_id : String
  pub prev_hash : String
  pub version : ℕ
  pub nbits : String
  pub ntime : String
  pub clean_jobs : Bool
  pub height : ℕ

pub record NodeApiShareRequest : Type 0 where
  pub ts : ℕ
  pub worker : String
  pub job_id : String
  pub extranonce2 : String
  pub ntime : String
  pub nonce : String
  pub accepted : Bool
  pub duplicate : Bool
  pub share_diff : ℕ
  pub reason : String

-- A token without blanks around it, unless it is blank.
unfoldable pub trimmed_token : Option String → Option String
trimmed_token none = none
trimmed_token (some t) = if trim t == "" then none else some (trim t)

-- `NodeApiClient::new`
unfoldable pub new : String → Option String → NodeApiClient
new base_url bearer_token = record {
  base_url = trim_end_matches "/" base_url;
  bearer_token = trimmed_token bearer_token;
}

unfoldable pub auth_configured : NodeApiClient → Bool
auth_configured client = elim client.bearer_token [ none ↦ false | some token ↦ true ]

unfoldable pub api_auth : NodeApiClient → Auth
api_auth client = elim client.bearer_token [ none ↦ no_auth | some token ↦ bearer_auth token ]

-- `reject_reason().unwrap_or_default()`
unfoldable pub reason_text : ShareResult → String
reason_text result = elim (reject_reason result) [ none ↦ "" | some reason ↦ reason ]

-- `build_share_request` at the time `ts`.
unfoldable pub build_share_request :
    (Bytes → String) → ℕ → ShareSubmission → ShareResult → ℕ → NodeApiShareRequest
build_share_request hex_encode ts share result pool_difficulty = record {
  ts = ts;
  worker = share.worker.id;
  job_id = share.job_id;
  extranonce2 = hex_encode share.extra_nonce2;
  ntime = hex08 share.ntime;
  nonce = hex08 share.nonce;
  accepted = is_accepted result;
  duplicate = false;
  share_diff = pool_difficulty;
  reason = reason_text result;
}

module _ {N V : Type 0} (send : Send N V) (client : NodeApiClient) where
  unfoldable pub template_request : HttpRequest V
  template_request = record {
    verb = http_get;
    url = format (client.base_url ∷ "/v1/az/mining/template/current" ∷ []);
    body = none;
    auth = api_auth client;
  }

  -- `from_value` reads a template from its JSON.
  unfoldable pub get_template_current :
      (V → Result NodeApiTemplate String) → N → N × Result (Option NodeApiTemplate) PoolError
  get_template_current from_value n =
      let (n', answer) = send n template_request in
      (
        n',
        (do
          resp ← map_err (λ e. daemon (format ("node API request failed: " ∷ e ∷ []))) answer
          if not resp.is_success
              then err (daemon (format ("node API returned HTTP " ∷ resp.status ∷ [])))
              else (do
                template ←
                    map_err (λ e. daemon (format ("node API response parse failed: " ∷ e ∷ [])))
                      (resp.json >>= from_value)
                ok (some template))),
      )

  -- `to_value` is the JSON of a share request.
  unfoldable pub share_post : (NodeApiShareRequest → V) → NodeApiShareRequest → HttpRequest V
  share_post to_value payload = record {
    verb = http_post;
    url = format (client.base_url ∷ "/v1/mining/share" ∷ []);
    body = some (to_value payload);
    auth = api_auth client;
  }

  unfoldable pub post_share :
      (NodeApiShareRequest → V) → N → NodeApiShareRequest → N × Result (Unit {0}) PoolError
  post_share to_value n payload =
      let (n', answer) = send n (share_post to_value payload) in
      (
        n',
        (do
          resp ← map_err (λ e. daemon (format ("node API share POST failed: " ∷ e ∷ []))) answer
          if not resp.is_success
              then err (daemon (format ("node API share POST returned HTTP " ∷ resp.status ∷ [])))
              else ok tt),
      )

  -- The method of the trait `ShareSink`.
  unfoldable pub submit_share :
      (NodeApiShareRequest → V)
      → (Bytes → String)
      → ℕ
      → N
      → ShareSubmission
      → ShareResult
      → ℕ
      → N × Result (Unit {0}) String
  submit_share to_value hex_encode ts n share result pool_difficulty =
      let (n', answer) =
        post_share to_value n (build_share_request hex_encode ts share result pool_difficulty) in
      (n', map_err error_text answer)
