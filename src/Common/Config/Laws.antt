-- ===== src/Common/Config/Laws.antt =====
-- What the environment does to a configuration, and what holds of one that is loaded.
use azcoin_stratum_pool.Prelude.{
  ℕ, ◌^◌, ◌<◌, String, Option, none, some, Result, ok, >>=-ok, ok-injective, map_err, ltb, ltb→lt,
  if◌then◌else◌, ◌≡◌, refl, sym, ap, ◌∙◌, subst, ◌⊎◌, inl, inr, Bool-cases, Option-cases,
  Result-cases, List, [], ◌∷◌, arith,
}
use azcoin_stratum_pool.Prelude.Text.{trim, codes, strip_plus, read_decimal, parse_below}
use azcoin_stratum_pool.PoolCore.Types.{Bytes}
use azcoin_stratum_pool.Coin.Coinbase.{PoolError, config}
use azcoin_stratum_pool.Common.Config.{
  PoolConfig, default_config, payout_script_pubkey_bytes, replaced, replaced_trimmed,
  replaced_number, replaced_mode, override_pool, override_daemon, override_listeners,
  apply_env_overrides_from, apply_env_overrides, checked, load_config,
}
use azcoin_stratum_pool.Common.Config.Environment.{found, apply_env_overrides-Agrees}

-- Each field, from its own variable and its own old value.
pub record Overridden (env : String → Option String) (c c' : PoolConfig) : Type 0 where
  pub name : c'.pool.name ≡ c.pool.name
  pub difficulty :
      c'.pool.initial_difficulty
      ≡ replaced_number (2 ^ 32) (env "POOL__INITIAL_DIFFICULTY") c.pool.initial_difficulty
  pub payout :
      c'.pool.payout_script_pubkey_hex
      ≡ replaced_trimmed (env "POOL__PAYOUT_SCRIPT_PUBKEY_HEX") c.pool.payout_script_pubkey_hex
  pub mode :
      c'.daemon.job_source_mode
      ≡ replaced_mode (env "DAEMON__JOB_SOURCE_MODE") c.daemon.job_source_mode
  pub url : c'.daemon.url ≡ replaced_trimmed (env "DAEMON__URL") c.daemon.url
  pub user : c'.daemon.rpc_user ≡ replaced (env "DAEMON__RPC_USER") c.daemon.rpc_user
  pub password :
      c'.daemon.rpc_password ≡ replaced (env "DAEMON__RPC_PASSWORD") c.daemon.rpc_password
  -- The later of two variables wins.
  pub token :
      c'.daemon.node_api_token
      ≡ replaced
          (env "DAEMON__NODE_API_TOKEN")
          (replaced (env "AZ_NODE_API_TOKEN") c.daemon.node_api_token)
  pub share_url :
      c'.daemon.share_api_url
      ≡ replaced_trimmed (env "DAEMON__SHARE_API_URL") c.daemon.share_api_url
  pub api_bind : c'.api_section.bind ≡ replaced_trimmed (env "API__BIND") c.api_section.bind
  pub api_port : c'.api_section.port ≡ replaced_number (2 ^ 16) (env "API__PORT") c.api_section.port
  pub stratum_bind : c'.stratum.bind ≡ replaced_trimmed (env "STRATUM__BIND") c.stratum.bind
  pub stratum_port : c'.stratum.port ≡ replaced_number (2 ^ 16) (env "STRATUM__PORT") c.stratum.port

overrides-Overridden :
    (env : String → Option String) (c : PoolConfig)
    → Overridden env c (apply_env_overrides_from env c)
unfolding apply_env_overrides_from override_pool override_daemon override_listeners
overrides-Overridden env c = record {
  name = refl;
  difficulty = refl;
  payout = refl;
  mode = refl;
  url = refl;
  user = refl;
  password = refl;
  token = refl;
  share_url = refl;
  api_bind = refl;
  api_port = refl;
  stratum_bind = refl;
  stratum_port = refl;
}

-- The numbers of a configuration are of the widths of their types.
unfoldable pub InBounds : PoolConfig → Type 0
InBounds c =
    (c.pool.initial_difficulty < 2 ^ 32) × (c.api_section.port < 2 ^ 16) × (c.stratum.port < 2 ^ 16)

unfoldable below : ℕ → List ℕ → Option ℕ
below bound [] = none
below bound (c ∷ cs) = elim (read_decimal 0 (c ∷ cs)) [
  | none ↦ none
  | some n ↦ if ltb n bound then some n else none
]

digits_lt : (bound : ℕ) (cs : List ℕ) (n : ℕ) → below bound cs ≡ some n → n < bound
unfolding below
digits_lt bound [] n h = cc
digits_lt bound (c ∷ cs) n h = elim (Option-cases (read_decimal 0 (c ∷ cs))) [
  | inl e ↦ absurd (ground (arith, h, e))
  | inr (m, e) ↦ elim (Bool-cases (ltb m bound)) [
    | inl k ↦
        let same : m ≡ n = ground (arith, h, e, k) in subst (λ x. x < bound) same (ltb→lt m bound k)
    | inr k ↦ absurd (ground (arith, h, e, k))
  ]
]

parse_below-lt : (bound : ℕ) (s : String) (n : ℕ) → parse_below bound s ≡ some n → n < bound
unfolding parse_below below
parse_below-lt bound s n h = digits_lt bound (strip_plus (codes s)) n h

replaced_number-lt :
    (bound : ℕ) (v : Option String) (old : ℕ) → old < bound → replaced_number bound v old < bound
unfolding replaced_number
replaced_number-lt bound none old h = h
replaced_number-lt bound (some v) old h = elim (Option-cases (parse_below bound (trim v))) [
  | inl e ↦ rw (e, replaced_number) h
  | inr (n, e) ↦ rw (e, replaced_number) (parse_below-lt bound (trim v) n e)
]

overrides-InBounds :
    (env : String → Option String) (c : PoolConfig)
    → InBounds c
    → InBounds (apply_env_overrides_from env c)
unfolding InBounds apply_env_overrides_from override_pool override_daemon override_listeners
overrides-InBounds env c (difficulty, api_port, stratum_port) = (
  replaced_number-lt (2 ^ 32) _ _ difficulty,
  replaced_number-lt (2 ^ 16) _ _ api_port,
  replaced_number-lt (2 ^ 16) _ _ stratum_port,
)

module _ {E : Type 0} (hex_decode : String → Result Bytes String)
    (from_toml : String → Result PoolConfig String) (read_to_string : String → Option String)
    (var : String → Result String E) where
  -- Where a configuration comes from: the defaults or a file that parses, and then the environment.
  unfoldable pub Base : Option String → PoolConfig → Type 0
  Base path base =
      ((read_to_string (elim path [ none ↦ "config.toml" | some p ↦ p ]) ≡ none)
        × (base ≡ default_config))
      ⊎ ((s : String) × (read_to_string (elim path [ none ↦ "config.toml" | some p ↦ p ]) ≡ some s)
          × (from_toml s ≡ ok base))

  pub record Loaded (path : Option String) (c : PoolConfig) : Type 0 where
    pub base : PoolConfig
    pub base_from : Base path base
    pub overridden : Overridden (λ key. found (var key)) base c
    pub in_bounds : InBounds c
    pub payout : Option Bytes
    pub payout_decodes : payout_script_pubkey_bytes hex_decode c.pool ≡ ok payout

  base_of : Option String → Result PoolConfig PoolError
  base_of path = elim (read_to_string (elim path [ none ↦ "config.toml" | some p ↦ p ])) [
    | none ↦ ok default_config
    | some s ↦ map_err config (from_toml s)
  ]

  base_of-Base :
      (path : Option String) (base : PoolConfig) → base_of path ≡ ok base → Base path base
  unfolding base_of Base
  base_of-Base path base h =
      elim (Option-cases
        (read_to_string (elim path as (λ x. String) [ none ↦ "config.toml" | some p ↦ p ]))) [
          | inl e ↦ inl (e, sym (ok-injective (sym (rw (e, base_of) refl) ∙ h)))
          | inr (s, e) ↦ elim (Result-cases (from_toml s)) [
            | inl (c, p) ↦
                inr (s, e, p ∙ ap ok (ok-injective (sym (rw (e, base_of) (rw (p) refl)) ∙ h)))
            | inr (m, p) ↦ absurd (ground (arith, h, e, p))
          ]
        ]

  Base-InBounds :
      ((s : String) (c : PoolConfig) → from_toml s ≡ ok c → InBounds c)
      → (path : Option String) (base : PoolConfig) → Base path base
      → InBounds base
  unfolding Base InBounds
  Base-InBounds typed path base (inl (e, same)) = rw same ((omega arith, omega arith, omega arith))
  Base-InBounds typed path base (inr (s, e, made)) = typed s base made

  -- Where a file that parses has numbers of the widths of their types, a configuration that is loaded
  -- comes from the defaults or from such a file and then from the environment, field by field: the
  -- difficulty is below 2 ^ 32, the ports are below 2 ^ 16, and the payout script decodes or is blank.
  pub load_config-Loaded :
      (typed : (s : String) (c : PoolConfig) → from_toml s ≡ ok c → InBounds c)
      (path : Option String) (c : PoolConfig)
      → load_config hex_decode from_toml read_to_string var path ≡ ok c
      → Loaded path c
  unfolding load_config checked base_of
  load_config-Loaded typed path c h =
      let (base, made, rest) = >>=-ok (base_of path) _ c h in
      let env : String → Option String = λ key. found (var key) in
      let after = apply_env_overrides var base in
      let agrees = sym (apply_env_overrides-Agrees var base) in
      let (payout, decoded, same) =
        >>=-ok (payout_script_pubkey_bytes hex_decode after.pool) _ c rest in
      let from = base_of-Base path base made in
      subst (Loaded path) (ok-injective same) (record {
        base = base;
        base_from = from;
        overridden = subst (Overridden env base) agrees (overrides-Overridden env base);
        in_bounds =
            subst InBounds agrees
              (overrides-InBounds env base (Base-InBounds typed path base from));
        payout = payout;
        payout_decodes = decoded;
      })
