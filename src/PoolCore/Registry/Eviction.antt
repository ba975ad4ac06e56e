-- ===== src/PoolCore/Registry/Eviction.antt =====
-- The loop of `ActiveJobRegistry::register` that evicts the oldest jobs.
use azcoin_stratum_pool.Prelude.{
  ℕ, zero, suc, ◌-◌, ◌≤◌, String, Bool, List, [], ◌∷◌, leb, length, ◌≡◌, refl, ◌↔◌, arith, inl, inr,
  Bool-cases,
}
use azcoin_stratum_pool.Prelude.While.{While, ends_only}
use azcoin_stratum_pool.PoolCore.Registry.{
  ActiveJobRegistry, active_jobs_max, pop_oldest, evict_loop,
}

-- The test of the loop: `order.len() >= ACTIVE_JOBS_MAX`.
unfoldable pub is_full : ActiveJobRegistry → Bool
is_full inner = leb active_jobs_max (length inner.order)

pop_oldest-length :
    (inner : ActiveJobRegistry) → length (pop_oldest inner).order ≡ length inner.order - 1
unfolding pop_oldest
pop_oldest-length inner = go inner.order refl
  where
    go :
        (ids : List String)
        → inner.order ≡ ids
        → length (pop_oldest inner).order ≡ length inner.order - 1
    go [] e = rw (e) refl
    go (id ∷ rest) e = rw (e) (omega arith)

evict_loop-While :
    (fuel : ℕ) (inner : ActiveJobRegistry)
    → length inner.order ≤ fuel
    → While is_full pop_oldest (evict_loop fuel inner) inner
unfolding evict_loop is_full
evict_loop-While zero inner h = While.stop inner (ground arith) refl
evict_loop-While (suc fuel) inner h = elim (Bool-cases (leb active_jobs_max (length inner.order))) [
  | inl full ↦ rw full (
      While.round inner full
        (evict_loop-While fuel (pop_oldest inner) (omega (arith, pop_oldest-length inner))))
  | inr free ↦ rw free (While.stop inner free refl)
]

-- The loop `while order.len() >= ACTIVE_JOBS_MAX` ends for every registry, also one whose map and
-- queue do not belong together, in the state that `evict_loop` computes and in no other.
pub evict_loop-Ends :
    (inner final : ActiveJobRegistry)
    → While is_full pop_oldest final inner ↔ (final ≡ evict_loop (length inner.order) inner)
evict_loop-Ends inner final =
    ends_only is_full pop_oldest inner _ final
      (evict_loop-While (length inner.order) inner (omega arith))
