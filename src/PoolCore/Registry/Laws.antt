-- ===== src/PoolCore/Registry/Laws.antt =====
-- What a caller of the registry sees after `register`.
use azcoin_stratum_pool.Prelude.{
  suc, ◌-◌, ◌<◌, String, true, false, none, some, List, ◌∷◌, length, drop, if◌then◌else◌, string_eq,
  ◌==◌, ◌≡◌, refl, arith,
}
use azcoin_stratum_pool.Prelude.HashMap.{lookup, contains_key, insert}
use azcoin_stratum_pool.PoolCore.Types.{Job}
use azcoin_stratum_pool.PoolCore.Registry.{
  ActiveJobRegistry, active_jobs_max, register, contains, get_job,
}
use azcoin_stratum_pool.PoolCore.Registry.Refinement.{
  Implements, register-Implements, admit, find, find-append, Distinct,
}

-- A job with `clean_jobs` leaves itself as the only job, whatever the registry held, also a job of
-- the same id.
pub register_clean :
    (r : ActiveJobRegistry) (job : Job) (id : String)
    → job.clean_jobs ≡ true
    → get_job (register r job) id ≡ (if job.job_id == id then some job else none)
unfolding register get_job lookup contains_key insert
register_clean r job id clean = rw clean refl

-- A job without `clean_jobs` whose id is known changes nothing.
pub register_known :
    (r : ActiveJobRegistry) (job : Job)
    → job.clean_jobs ≡ false
    → contains r job.job_id ≡ true
    → register r job ≡ r
unfolding register contains
register_known r job more known = rw more (rw known)

-- `admit` of a job that is not known, at any length.
find-admit_fresh :
    (js : List Job) (job : Job) (id : String)
    → job.clean_jobs ≡ false
    → find job.job_id js ≡ none
    → find id (admit js job) ≡ elim (find id (drop (suc (length js) - active_jobs_max) js)) [
      | none ↦ if job.job_id == id then some job else none
      | some j ↦ some j
    ]
unfolding admit
find-admit_fresh js job id more fresh =
    ground (arith, find-append id (drop (suc (length js) - active_jobs_max) js) job)

contains→find :
    (r : ActiveJobRegistry) (js : List Job) (id : String)
    → Implements r js
    → contains r id ≡ false
    → find id js ≡ none
unfolding contains contains_key get_job
contains→find r js id v h = ground (arith, v.agrees.lookup_eq id)

-- A job that is not known, without `clean_jobs`, joins the jobs of a registry with room.
pub register_room :
    (r : ActiveJobRegistry) (js : List Job) (job : Job) (id : String)
    → Implements r js
    → length js < active_jobs_max
    → job.clean_jobs ≡ false
    → contains r job.job_id ≡ false
    → get_job (register r job) id ≡ (if job.job_id == id then some job else get_job r id)
register_room r js job id v room more fresh =
    let gone : find job.job_id js ≡ none = contains→find r js job.job_id v fresh in
    let none_dropped : suc (length js) - active_jobs_max ≡ 0 = omega arith in
    ground (
      arith,
      (register-Implements r js job v).agrees.lookup_eq id,
      rw none_dropped at (find-admit_fresh js job id more gone),
      v.agrees.lookup_eq id,
      gone,
      string_eq.test_iff job.job_id id,
    )

-- In a full registry a job that is not known, without `clean_jobs`, takes the place of the oldest
-- job; every other job stays.
pub register_full :
    (r : ActiveJobRegistry) (oldest : Job) (js : List Job) (job : Job) (id : String)
    → Implements r (oldest ∷ js)
    → length (oldest ∷ js) ≡ active_jobs_max
    → job.clean_jobs ≡ false
    → contains r job.job_id ≡ false
    → get_job (register r job) id
      ≡ (if job.job_id == id then some job else if oldest.job_id == id then none else get_job r id)
unfolding find Distinct
register_full r oldest js job id v full more fresh =
    let gone : find job.job_id (oldest ∷ js) ≡ none =
      contains→find r (oldest ∷ js) job.job_id v fresh in
    let one_dropped : suc (suc (length js)) - active_jobs_max ≡ 1 = omega arith in
    ground (
      arith,
      (register-Implements r (oldest ∷ js) job v).agrees.lookup_eq id,
      rw one_dropped at (find-admit_fresh (oldest ∷ js) job id more gone),
      v.agrees.lookup_eq id,
      v.agrees.distinct.0,
      gone,
      string_eq.test_iff job.job_id id,
      string_eq.test_iff oldest.job_id id,
    )
