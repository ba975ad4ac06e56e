-- ===== src/Common/Config/Environment.antt =====
-- The two copies of the overrides: from the process and from a map.
use azcoin_stratum_pool.Prelude.{ℕ, String, Option, none, some, Result, ok, err, ◌≡◌, refl, sym}
use azcoin_stratum_pool.Prelude.Text.{trim, parse_below}
use azcoin_stratum_pool.Common.Config.{
  JobSourceMode, PoolConfig, parse_job_source_mode, replaced, replaced_trimmed, replaced_number,
  replaced_mode, override_pool, override_daemon, override_listeners, apply_env_overrides_from,
  if_ok, set_pool, set_daemon, set_listeners, apply_env_overrides,
}

module _ {E : Type 0} where
  -- The map that a test would give for the variables of the process.
  unfoldable pub found : Result String E → Option String
  found (ok v) = some v
  found (err e) = none

  text : (r : Result String E) (old : String) → replaced (found r) old ≡ if_ok r old (λ v. v)
  unfolding replaced found if_ok
  text (ok v) old = refl
  text (err e) old = refl

  trimmed :
      (r : Result String E) (old : String)
      → replaced_trimmed (found r) old ≡ if_ok r old (λ v. trim v)
  unfolding replaced_trimmed found if_ok
  trimmed (ok v) old = refl
  trimmed (err e) old = refl

  number :
      (bound : ℕ) (r : Result String E) (old : ℕ)
      → replaced_number bound (found r) old
        ≡ if_ok r old (λ v. elim (parse_below bound (trim v)) [ none ↦ old | some n ↦ n ])
  unfolding replaced_number found if_ok
  number bound (ok v) old = refl
  number bound (err e) old = refl

  mode :
      (r : Result String E) (old : JobSourceMode)
      → replaced_mode (found r) old
        ≡ if_ok r old (λ v. elim (parse_job_source_mode v) [ none ↦ old | some m ↦ m ])
  unfolding replaced_mode found if_ok
  mode (ok v) old = refl
  mode (err e) old = refl

  -- The overrides that the process's variables make are those that the map of the variables that are
  -- set makes: both copies of the code agree on every configuration.
  pub apply_env_overrides-Agrees :
      (var : String → Result String E) (c : PoolConfig)
      → apply_env_overrides var c ≡ apply_env_overrides_from (λ key. found (var key)) c
  unfolding apply_env_overrides_from override_pool override_daemon override_listeners
      apply_env_overrides set_pool set_daemon set_listeners
  apply_env_overrides-Agrees var c = sym (simp (text, trimmed, number, mode) refl)
