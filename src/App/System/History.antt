-- ===== src/App/System/History.antt =====
-- What the job source has answered over the pool's runs.
use azcoin_stratum_pool.Prelude.{
  ℕ, Option, none, some, List, [], ◌∷◌, All, ok-injective, ◌≡◌, refl, sym, ◌⊎◌, inl, inr, subst,
}
use azcoin_stratum_pool.PoolCore.Types.{Job}
use azcoin_stratum_pool.PoolCore.Registry
use azcoin_stratum_pool.Sv1.Server.Keeps.{Keeps}
use azcoin_stratum_pool.App.Handler.{Pool, on_connect, on_disconnect, on_notify_sent, on_authorize}
use azcoin_stratum_pool.App.Handler.Keeps.{on_submit-kept}
use azcoin_stratum_pool.App.Handler.Node.{on_submit-node}
use azcoin_stratum_pool.App.System.{Wiring, System, decoded, sv1_handler, Reach}
use azcoin_stratum_pool.App.System.Keeps.{questioned, Reach-Keeps}
use azcoin_stratum_pool.App.System.Jobs.{Registered, new-Registered, register-Registered}

-- A job, and the state in which the node was asked for it.
pub record Answer (N : Type 0) : Type 0 where
  pub asked_in : N
  pub job : Job

-- The node with a list of the jobs that its source has answered, newest first.
unfoldable pub noted : {N : Type 0} → N → Option Job → List (Answer N) → List (Answer N)
noted n none log = log
noted n (some job) log = record { asked_in = n; job = job } ∷ log

unfoldable pub remembering : {N V O : Type 0} → Wiring N V O → Wiring (N × List (Answer N)) V O
remembering w = record {
  current_job = λ node. (
    ((w.current_job node.0).0, noted node.0 (w.current_job node.0).1 node.1),
    (w.current_job node.0).1,
  );
  submit_block = λ node candidate.
      (((w.submit_block node.0 candidate).0, node.1), (w.submit_block node.0 candidate).1);
  share_processor = w.share_processor;
  initial_difficulty = w.initial_difficulty;
  hex_decode = w.hex_decode;
  hex_encode = w.hex_encode;
  sha256 = w.sha256;
  bitcoin = w.bitcoin;
  json = w.json;
}

unfoldable pub with_memory : {N : Type 0} → Pool N → Pool (N × List (Answer N))
with_memory pool = record {
  stats = pool.stats;
  worker_registry = pool.worker_registry;
  state = pool.state;
  node = (pool.node, []);
}

-- The list has this job as an answer to a question in this state.
unfoldable pub Answered : {N : Type 0} → N → Job → List (Answer N) → Type 0
Answered n job [] = ⊥
Answered n job (a ∷ log) = ((a.asked_in ≡ n) × (a.job ≡ job)) ⊎ Answered n job log

-- Nothing that was answered is lost.
abbrev Grows : {N : Type 0} → List (Answer N) → List (Answer N) → Type 0
Grows {N} old log = (n : N) (job : Job) → Answered n job old → Answered n job log

All-map :
    (J J' : Job → Type 0) (js : List Job) → ((job : Job) → J job → J' job) → All J js → All J' js
All-map J J' [] f h = tt
All-map J J' (j ∷ js) f h = (f j h.0, All-map J J' js f h.1)

module _ {N V O : Type 0} (w : Wiring N V O) where
  abbrev Given : Pool (N × List (Answer N)) → Job → Type 0
  Given pool job = (n : N) × Answered n job pool.node.1

  -- The answers are those of the source, and each registered job is among them.
  abbrev Sourced : List (Answer N) → Type 0
  Sourced = All (λ a. (w.current_job a.asked_in).1 ≡ some a.job)

  abbrev Holds : ℕ → Pool (N × List (Answer N)) → Type 0
  Holds k pool = Registered (Given pool) pool.state.job_registry × Sourced pool.node.1

  noted-Sourced :
      (n : N) (answer : Option Job) (log : List (Answer N))
      → (w.current_job n).1 ≡ answer
      → Sourced log
      → Sourced (noted n answer log)
  unfolding noted
  noted-Sourced n none log e h = h
  noted-Sourced n (some job) log e h = (e, h)

  noted-Grows :
      (n : N) (answer : Option Job) (log : List (Answer N)) → Grows log (noted n answer log)
  unfolding noted Answered
  noted-Grows n none log m job h = h
  noted-Grows n (some new) log m job h = inr h

  noted-Answered :
      (n : N) (answer : Option Job) (log : List (Answer N)) (job : Job)
      → answer ≡ some job
      → Answered n job (noted n answer log)
  unfolding noted Answered
  noted-Answered n none log job e = absurd cc
  noted-Answered n (some new) log job e = inl (refl, cc)

  -- A call that keeps the registry and lets the log grow keeps what the pool and the broadcasts hold.
  onward :
      (sent : List Job) (before after : Pool (N × List (Answer N)))
      → after.state.job_registry ≡ before.state.job_registry
      → Grows before.node.1 after.node.1
      → Sourced after.node.1
      → Holds 0 before × All (Given before) sent
      → Holds 0 after × All (Given after) sent
  onward sent before after same grows sourced (held, known) =
      let more : (job : Job) → Given before job → Given after job =
        λ job g. (g.0, grows g.0 job g.1) in
      (
        (
          subst (Registered (Given after)) (sym same) (record {
            jobs = held.0.jobs;
            implements = held.0.implements;
            each = All-map (Given before) (Given after) held.0.jobs more held.0.each;
          }),
          sourced,
        ),
        All-map (Given before) (Given after) sent more known,
      )

  handler-Holds :
      (sent : List Job)
      → Keeps (sv1_handler (remembering w)) Given (λ k pool. Holds k pool × All (Given pool) sent)
  unfolding sv1_handler on_connect on_disconnect on_notify_sent on_authorize remembering
  handler-Holds sent = record {
    connect = λ k pool h. h;
    disconnect = λ k pool h. h;
    authorize = λ k pool username h.
        onward sent pool ((sv1_handler (remembering w)).on_authorize pool username).0 refl
          (noted-Grows pool.node.0 _ pool.node.1)
          (noted-Sourced pool.node.0 _ pool.node.1 refl h.0.1) h;
    authorized_job = λ k pool username job h e.
        (pool.node.0, noted-Answered pool.node.0 _ pool.node.1 job (ok-injective e));
    notify_sent = λ k pool job j h. ((register-Registered (Given pool) _ job j h.0.0, h.0.1), h.1);
    submit = λ k pool share h.
        let after =
          on_submit-node (remembering w).current_job (decoded w.hex_decode) w.sha256 w.hex_encode
            w.bitcoin (remembering w).submit_block
            (λ node. Grows pool.node.1 node.1 × Sourced node.1)
            (λ node q. (
              (λ n job g. noted-Grows node.0 _ node.1 n job (q.0 n job g)),
              noted-Sourced node.0 _ node.1 refl q.1,
            ))
            w.share_processor pool share (λ node job a candidate known has q. q)
            ((λ n job g. g), h.0.1) in
        onward sent pool ((sv1_handler (remembering w)).on_submit pool share).0
          (on_submit-kept (remembering w).current_job (decoded w.hex_decode) w.sha256 w.hex_encode
            w.bitcoin (remembering w).submit_block w.share_processor pool share).1
          after.0 after.1 h;
  }

  -- After any steps from an empty registry, the registered jobs are answers that the source has given in
  -- these steps.
  pub job_registry-Given :
      (pool : Pool N) (k : ℕ) (sys : System (N × List (Answer N)))
      → pool.state.job_registry ≡ Registry.new
      → Reach (remembering w) (with_memory pool) k sys
      → Holds 0 sys.server.common.world
  unfolding with_memory questioned remembering
  job_registry-Given pool k sys h r =
      Reach-Keeps (remembering w) Given Holds handler-Holds
        (λ j p sent held.
          onward sent p (questioned (remembering w) p) refl (noted-Grows p.node.0 _ p.node.1)
            (noted-Sourced p.node.0 _ p.node.1 refl held.0.1) held)
        (λ j p job held e. (p.node.0, noted-Answered p.node.0 _ p.node.1 job e)) (with_memory pool)
        k sys (subst (Registered _) (sym h) (new-Registered _), tt) r
