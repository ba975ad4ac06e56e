-- ===== src/App/System/Jobs.antt =====
-- The registered jobs over the pool's runs.
use azcoin_stratum_pool.Prelude.{
  ℕ, zero, suc, ◌-◌, String, some, List, [], ◌∷◌, length, drop, All, All-append, if◌then◌else◌,
  string_eq, ◌==◌, ◌≡◌, sym, ◌∙◌, inl, inr, subst, arith, Bool-cases, Option-cases,
}
use azcoin_stratum_pool.PoolCore.Types.{Job}
use azcoin_stratum_pool.PoolCore.Registry
use azcoin_stratum_pool.PoolCore.Registry.{ActiveJobRegistry, active_jobs_max, get_job}
use azcoin_stratum_pool.PoolCore.Registry.Refinement.{
  Implements, find, admit, new-Implements, register-Implements,
}
use azcoin_stratum_pool.Sv1.Server.Keeps.{Keeps}
use azcoin_stratum_pool.App.Handler.{Pool, on_connect, on_disconnect, on_notify_sent, on_authorize}
use azcoin_stratum_pool.App.Handler.Keeps.{on_submit-kept}
use azcoin_stratum_pool.App.System.{Wiring, System, decoded, sv1_handler, Reach}
use azcoin_stratum_pool.App.System.Keeps.{Offered, authorized-Offered, Reach-Holds}

-- The registry holds a list of jobs, as `Implements` says, and each of them is a `J`.
pub record Registered (J : Job → Type 0) (registry : ActiveJobRegistry) : Type 0 where
  pub jobs : List Job
  pub implements : Implements registry jobs
  pub each : All J jobs

All-drop : (J : Job → Type 0) (n : ℕ) (js : List Job) → All J js → All J (drop n js)
All-drop J zero js h = h
All-drop J (suc n) [] h = h
All-drop J (suc n) (j ∷ js) h = All-drop J n js h.1

All-admit : (J : Job → Type 0) (js : List Job) (job : Job) → All J js → J job → All J (admit js job)
unfolding admit
All-admit J js job h j =
    let kept = if job.clean_jobs then [] else js in
    let kept_all : All J kept = elim (Bool-cases job.clean_jobs) [
      | inl e ↦ rw e tt
      | inr e ↦ rw e h
    ] in
    elim (Option-cases (find job.job_id kept)) [
      | inl e ↦
          rw (e, admit)
            (All-append J (drop (suc (length kept) - active_jobs_max) kept) (job ∷ [])
              (All-drop J _ kept kept_all) (j, tt))
      | inr (known, e) ↦ rw (e, admit) kept_all
    ]

All-find :
    (J : Job → Type 0) (js : List Job) (id : String) (job : Job)
    → All J js
    → find id js ≡ some job
    → J job
unfolding find
All-find J [] id job h e = cc
All-find J (j ∷ js) id job h e = elim (Bool-cases (j.job_id == id)) [
  | inl is ↦ let same : j ≡ job = ground (arith, e, is) in subst J same h.0
  | inr other ↦ All-find J js id job h.1 (ground (arith, e, other))
]

-- A job that a lookup finds is one of them.
pub get_job-Registered :
    (J : Job → Type 0) (registry : ActiveJobRegistry) (id : String) (job : Job)
    → Registered J registry
    → get_job registry id ≡ some job
    → J job
get_job-Registered J registry id job r e =
    All-find J r.jobs id job r.each (sym (r.implements.agrees.lookup_eq id) ∙ e)

pub new-Registered : (J : Job → Type 0) → Registered J Registry.new
new-Registered J = record { jobs = []; implements = new-Implements; each = tt }

pub register-Registered :
    (J : Job → Type 0) (registry : ActiveJobRegistry) (job : Job)
    → J job
    → Registered J registry
    → Registered J (Registry.register registry job)
register-Registered J registry job j r = record {
  jobs = admit r.jobs job;
  implements = register-Implements registry r.jobs job r.implements;
  each = All-admit J r.jobs job r.each j;
}

abbrev Holds : {N V O : Type 0} → Wiring N V O → ℕ → Pool N → Type 0
Holds w n pool = Registered (Offered w) pool.state.job_registry

module _ {N V O : Type 0} (w : Wiring N V O) where
  handler-Holds : Keeps (sv1_handler w) (λ pool. Offered w) (Holds w)
  unfolding sv1_handler on_connect on_disconnect on_notify_sent on_authorize
  handler-Holds = record {
    connect = λ n pool h. h;
    disconnect = λ n pool h. h;
    authorize = λ n pool username h. h;
    authorized_job = λ n pool username job h e. authorized-Offered w pool username job e;
    notify_sent = λ n pool job j h. register-Registered (Offered w) _ job j h;
    submit = λ n pool share h.
        subst (Registered (Offered w))
          (sym
            (on_submit-kept w.current_job (decoded w.hex_decode) w.sha256 w.hex_encode w.bitcoin
              w.submit_block w.share_processor pool share).1)
          h;
  }

  -- After any steps from an empty registry, whatever the miners send: the registry is that of a list
  -- of at most 64 jobs with distinct ids, and each of them is a job that the source gives in some state
  -- of the node.
  pub job_registry-Registered :
      (pool : Pool N) (k : ℕ) (sys : System N)
      → pool.state.job_registry ≡ Registry.new
      → Reach w pool k sys
      → Registered (Offered w) sys.server.common.world.state.job_registry
  job_registry-Registered pool k sys h r =
      Reach-Holds w (Holds w) handler-Holds (λ n pool h. h) pool k sys
        (subst (Registered (Offered w)) (sym h) (new-Registered (Offered w))) r
