-- ===== src/Coin/Http.antt =====
-- What the clients of crates/coin_azcoin ask of the crates reqwest and serde_json.
use azcoin_stratum_pool.Prelude.{Bool, String, Option, List, Result}

pub data Verb : Type 0 where
  http_get : Verb
  http_post : Verb

-- `basic_auth` and `bearer_auth`.
pub data Auth : Type 0 where
  no_auth : Auth
  basic_auth : String → String → Auth
  bearer_auth : String → Auth

pub record HttpRequest (V : Type 0) : Type 0 where
  pub verb : Verb
  pub url : String
  pub body : Option V
  pub auth : Auth

-- The status, as a test and as a text, and the body read as JSON.
pub record HttpResponse (V : Type 0) : Type 0 where
  pub is_success : Bool
  pub status : String
  pub json : Result V String

-- What `send` gives, where `N` is the state of the world behind the connection.
abbrev pub Send : Type 0 → Type 0 → Type 0
Send N V = N → HttpRequest V → N × Result (HttpResponse V) String

-- `serde_json::Value`: what it is made from, and what is asked of it.
pub record JsonValue (V : Type 0) : Type 0 where
  pub string : String → V
  pub array : List V → V
  pub object : List (String × V) → V
  pub get : V → String → Option V
  pub is_null : V → Bool
  pub as_str : V → Option String
  pub to_text : V → String
