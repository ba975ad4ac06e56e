-- ===== src/PoolCore/Registry/Refinement.antt =====
-- The registry as the list of its jobs, oldest first: what `register` promises, and that it keeps it.
use azcoin_stratum_pool.Prelude.{
  ℕ, zero, suc, ◌-◌, ◌≤◌, String, true, false, Option, none, some, List, [], ◌∷◌, ◌++◌, map, leb,
  length, drop, length-append, length-drop, length-map, if◌then◌else◌, string_eq, ◌==◌, ◌≡◌, refl,
  ◌∙◌, ap, subst, arith, Bool-cases, Option-cases, inl, inr,
}
use mathlib.Core.List.{map-append}
use azcoin_stratum_pool.Prelude.HashMap
use azcoin_stratum_pool.Prelude.HashMap.{lookup, contains_key, lookup-insert, lookup-remove}
use azcoin_stratum_pool.PoolCore.Types.{Job}
use azcoin_stratum_pool.PoolCore.Registry.{
  ActiveJobRegistry, active_jobs_max, new, invalidate, pop_oldest, evict_loop, append_job, register,
  get_job,
}

-- The abstract registry: the jobs themselves.
unfoldable pub find : String → List Job → Option Job
find id [] = none
find id (j ∷ js) = if j.job_id == id then some j else find id js

-- Clear on `clean_jobs`; keep a job that is there; else drop the oldest until 63 are left, and add.
unfoldable pub admit : List Job → Job → List Job
unfolding find
admit js job =
    let kept = if job.clean_jobs then [] else js in
    elim (find job.job_id kept) [
      | some j ↦ kept
      | none ↦ drop (suc (length kept) - active_jobs_max) kept ++ (job ∷ [])
    ]

unfoldable pub Distinct : List Job → Type 0
Distinct [] = Unit
Distinct (j ∷ js) = (find j.job_id js ≡ none) × Distinct js

-- The two containers agree with the list, whatever its length.
pub record Agrees (r : ActiveJobRegistry) (js : List Job) : Type 0 where
  pub order_eq : r.order ≡ map (λ j. j.job_id) js
  pub lookup_eq : (id : String) → get_job r id ≡ find id js
  pub distinct : Distinct js

pub record Implements (r : ActiveJobRegistry) (js : List Job) : Type 0 where
  pub agrees : Agrees r js
  pub bounded : length js ≤ active_jobs_max

pub find-append :
    (id : String) (js : List Job) (job : Job)
    → find id (js ++ (job ∷ []))
      ≡ elim (find id js) [ none ↦ if job.job_id == id then some job else none | some j ↦ some j ]
unfolding find
find-append id [] job = refl
find-append id (j ∷ js) job = ground (arith, find-append id js job)

find-head_gone :
    (id : String) (j : Job) (js : List Job) → find id (j ∷ js) ≡ none → find id js ≡ none
unfolding find
find-head_gone id j js h = ground arith

find-drop : (id : String) (n : ℕ) (js : List Job) → find id js ≡ none → find id (drop n js) ≡ none
unfolding find
find-drop id zero js h = h
find-drop id (suc n) [] h = refl
find-drop id (suc n) (j ∷ js) h = find-drop id n js (find-head_gone id j js h)

Distinct-append :
    (js : List Job) (job : Job)
    → Distinct js
    → find job.job_id js ≡ none
    → Distinct (js ++ (job ∷ []))
unfolding Distinct find
Distinct-append [] job d h = (refl, tt)
Distinct-append (j ∷ js) job (f, d) h = (
  ground (
    arith,
    find-append j.job_id js job,
    string_eq.test_iff job.job_id j.job_id,
    string_eq.test_iff j.job_id job.job_id,
  ),
  Distinct-append js job d (find-head_gone job.job_id j js h),
)

append_job-Agrees :
    (r : ActiveJobRegistry) (js : List Job) (job : Job)
    → Agrees r js
    → find job.job_id js ≡ none
    → Agrees (append_job job r) (js ++ (job ∷ []))
unfolding append_job get_job
append_job-Agrees r js job a h = record {
  order_eq = rw (map-append, a.order_eq) refl;
  lookup_eq = λ id. ground (
    arith,
    lookup-insert job.job_id id job r.by_id,
    a.lookup_eq id,
    find-append id js job,
    string_eq.test_iff job.job_id id,
  );
  distinct = Distinct-append js job a.distinct h;
}

pop_oldest-Agrees :
    (r : ActiveJobRegistry) (j : Job) (js : List Job) → Agrees r (j ∷ js) → Agrees (pop_oldest r) js
unfolding pop_oldest get_job find Distinct
pop_oldest-Agrees r j js a =
    rw (a.order_eq, pop_oldest)
      (record {
        order_eq = refl;
        lookup_eq = λ id. ground (
          arith,
          lookup-remove j.job_id id r.by_id,
          a.lookup_eq id,
          a.distinct.0,
          string_eq.test_iff j.job_id id,
        );
        distinct = a.distinct.1;
      })

evict_loop-Agrees :
    (fuel : ℕ) (r : ActiveJobRegistry) (js : List Job)
    → length js ≤ fuel
    → Agrees r js
    → Agrees (evict_loop fuel r) (drop (suc (length js) - active_jobs_max) js)
unfolding evict_loop
evict_loop-Agrees zero r [] h a = a
evict_loop-Agrees zero r (j ∷ js) h a = absurd (omega arith)
evict_loop-Agrees (suc fuel) r [] h a =
    let short : leb active_jobs_max (length r.order) ≡ false = rw a.order_eq refl in rw short a
evict_loop-Agrees (suc fuel) r (j ∷ js) h a =
    let size : length r.order ≡ suc (length js) =
      ap length a.order_eq ∙ ap suc (length-map (λ (i : Job). i.job_id) js) in
    elim (Bool-cases (leb active_jobs_max (length r.order))) [
      | inl full ↦ rw full (
          subst (λ n. Agrees (evict_loop fuel (pop_oldest r)) (drop n (j ∷ js)))
            {x = suc (suc (length js) - active_jobs_max)} (ground arith)
            (evict_loop-Agrees fuel (pop_oldest r) js (omega arith) (pop_oldest-Agrees r j js a)))
      | inr room ↦ rw room (subst (λ n. Agrees r (drop n (j ∷ js))) {x = 0} (ground arith) a)
    ]

invalidate-Agrees :
    (r : ActiveJobRegistry) (js : List Job) (job : Job)
    → Agrees r js
    → Agrees (invalidate job r) (if job.clean_jobs then [] else js)
unfolding invalidate get_job find Distinct lookup
invalidate-Agrees r js job a = elim (Bool-cases job.clean_jobs) [
  | inl clean ↦ rw clean (record { order_eq = refl; lookup_eq = λ id. refl; distinct = tt })
  | inr more ↦ rw more a
]

contains_key-Agrees :
    (r : ActiveJobRegistry) (js : List Job) (id : String)
    → Agrees r js
    → HashMap.contains_key id r.by_id ≡ elim (find id js) [ none ↦ false | some j ↦ true ]
unfolding contains_key get_job
contains_key-Agrees r js id a = rw (← a.lookup_eq id) refl

order-length : (r : ActiveJobRegistry) (js : List Job) → Agrees r js → length r.order ≡ length js
order-length r js a = ap length a.order_eq ∙ length-map (λ (i : Job). i.job_id) js

register_kept-Implements :
    (r : ActiveJobRegistry) (kept : List Job) (job : Job)
    → Agrees r kept
    → length kept ≤ active_jobs_max
    → Implements
        (if HashMap.contains_key job.job_id r.by_id
          then r
          else append_job job (evict_loop (length r.order) r))
        (elim (find job.job_id kept) [
          | some j ↦ kept
          | none ↦ drop (suc (length kept) - active_jobs_max) kept ++ (job ∷ [])
        ])
register_kept-Implements r kept job a h = elim (Option-cases (find job.job_id kept)) [
  | inl fresh ↦ rw (contains_key-Agrees r kept job.job_id a) (
      rw fresh (record {
        agrees =
            append_job-Agrees _ _ job
              (evict_loop-Agrees (length r.order) r kept (omega (arith, order-length r kept a)) a)
              (find-drop job.job_id _ kept fresh);
        bounded = omega (
          arith,
          length-append (drop (suc (length kept) - active_jobs_max) kept) (job ∷ []),
          length-drop (suc (length kept) - active_jobs_max) kept,
        );
      }))
  | inr (j, known) ↦
      rw (contains_key-Agrees r kept job.job_id a) (rw known (record { agrees = a; bounded = h }))
]

pub new-Implements : Implements new []
unfolding new get_job lookup find Distinct
new-Implements = record {
  agrees = record { order_eq = refl; lookup_eq = λ id. refl; distinct = tt };
  bounded = omega arith;
}

-- The concrete `register` does to its two containers what `admit` does to the list of jobs.
pub register-Implements :
    (r : ActiveJobRegistry) (js : List Job) (job : Job)
    → Implements r js
    → Implements (register r job) (admit js job)
unfolding register admit
register-Implements r js job v =
    register_kept-Implements (invalidate job r) (if job.clean_jobs then [] else js) job
      (invalidate-Agrees r js job v.agrees) (ground (arith, v.bounded))

-- Any sequence of notified jobs, from an empty registry.
unfoldable pub register_all : ActiveJobRegistry → List Job → ActiveJobRegistry
register_all r [] = r
register_all r (job ∷ jobs) = register_all (register r job) jobs

unfoldable pub admit_all : List Job → List Job → List Job
admit_all js [] = js
admit_all js (job ∷ jobs) = admit_all (admit js job) jobs

register_all-Implements :
    (r : ActiveJobRegistry) (js jobs : List Job)
    → Implements r js
    → Implements (register_all r jobs) (admit_all js jobs)
unfolding register_all admit_all
register_all-Implements r js [] v = v
register_all-Implements r js (job ∷ jobs) v =
    register_all-Implements (register r job) (admit js job) jobs (register-Implements r js job v)

pub registry_refines : (jobs : List Job) → Implements (register_all new jobs) (admit_all [] jobs)
registry_refines jobs = register_all-Implements new [] jobs new-Implements
