-- ===== src/PoolCore/Registry.antt =====
-- crates/pool_core/src/services.rs: `ActiveJobRegistry`. Each method holds the lock for its whole
-- body, so it is one step.
pub mod Refinement
pub mod Eviction
pub mod Laws
use azcoin_stratum_pool.Prelude.{
  ℕ, zero, suc, String, Bool, true, false, Option, none, some, List, [], ◌∷◌, ◌++◌, leb, length,
  if◌then◌else◌, string_eq,
}
use azcoin_stratum_pool.Prelude.HashMap
use azcoin_stratum_pool.Prelude.HashMap.{HashMap}
use azcoin_stratum_pool.PoolCore.Types.{Job}

abbrev pub active_jobs_max : ℕ
active_jobs_max = 64

pub record ActiveJobRegistry : Type 0 where
  pub by_id : HashMap String Job
  pub order : List String

unfoldable pub new : ActiveJobRegistry
new = record { by_id = []; order = [] }

-- `by_id.clear(); order.clear()` for a job with `clean_jobs`.
invalidate : Job → ActiveJobRegistry → ActiveJobRegistry
invalidate job inner = if job.clean_jobs then record { by_id = []; order = [] } else inner

-- `if let Some(old_id) = order.pop_front() { by_id.remove(&old_id); }`
pub pop_oldest : ActiveJobRegistry → ActiveJobRegistry
pop_oldest inner = elim inner.order [
  | [] ↦ inner
  | old_id ∷ rest ↦ record { by_id = HashMap.remove old_id inner.by_id; order = rest }
]

-- `while order.len() >= ACTIVE_JOBS_MAX`: each round takes one entry of `order`, so as many rounds
-- as it has entries are enough.
pub evict_loop : ℕ → ActiveJobRegistry → ActiveJobRegistry
unfolding pop_oldest
evict_loop zero inner = inner
evict_loop (suc fuel) inner =
    let rest = evict_loop fuel (pop_oldest inner) in
    if leb active_jobs_max (length inner.order) then rest else inner

append_job : Job → ActiveJobRegistry → ActiveJobRegistry
append_job job inner = record {
  by_id = HashMap.insert job.job_id job inner.by_id;
  order = inner.order ++ (job.job_id ∷ []);
}

unfoldable pub register : ActiveJobRegistry → Job → ActiveJobRegistry
unfolding invalidate evict_loop append_job
register self job =
    let inner = invalidate job self in
    if HashMap.contains_key job.job_id inner.by_id
    then inner
    else append_job job (evict_loop (length inner.order) inner)

unfoldable pub contains : ActiveJobRegistry → String → Bool
contains self job_id = HashMap.contains_key job_id self.by_id

unfoldable pub get_job : ActiveJobRegistry → String → Option Job
get_job self job_id = HashMap.lookup job_id self.by_id
