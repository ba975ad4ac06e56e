-- ===== src/App/System/Templates.antt =====
-- The registered jobs and the templates of the daemon.
use azcoin_stratum_pool.Prelude.{
  Option, Result, err, ℕ, String, some, List, [], ◌∷◌, ok, All, string_eq, ◌==◌, ◌≡◌, refl, sym, ap,
  ◌∙◌, subst, arith, inl, inr, Bool-cases,
}
use azcoin_stratum_pool.Prelude.Words.{IsByte}
use azcoin_stratum_pool.PoolCore.Types.{Bytes, Job}
use azcoin_stratum_pool.PoolCore.Registry.{get_job}
use azcoin_stratum_pool.PoolCore.Registry.Refinement.{find}
use azcoin_stratum_pool.PoolCore.Services.{new_inner, new_with_validator_and_share_sink}
use azcoin_stratum_pool.Coin.Template.{BlockTemplate}
use azcoin_stratum_pool.Coin.Template.Laws.{WellFormed}
use azcoin_stratum_pool.Coin.Coinbase.{PoolError}
use azcoin_stratum_pool.Coin.Daemon
use azcoin_stratum_pool.Coin.Daemon.{get_block_template}
use azcoin_stratum_pool.Coin.JobSource.Laws.{rpc_current_job-WellFormed}
use azcoin_stratum_pool.Common.Config.{PoolConfig, rpc, payout_script_pubkey_bytes}
use azcoin_stratum_pool.App.Composition.{
  build_job_source, source_of, payout_or_none, build_pool_services,
}
use azcoin_stratum_pool.App.System.{
  System, Reach, Outside, source_current_job, pool_services, main_wiring, main_pool,
}
use azcoin_stratum_pool.App.System.History.{
  Answer, Answered, remembering, with_memory, job_registry-Given,
}
use azcoin_stratum_pool.App.System.Jobs.{get_job-Registered}

find-id : (js : List Job) (id : String) (job : Job) → find id js ≡ some job → job.job_id ≡ id
unfolding find
find-id [] id job e = absurd cc
find-id (j ∷ js) id job e = elim (Bool-cases (j.job_id == id)) [
  | inl is ↦
      let same : j ≡ job = ground (arith, e, is) in
      ap (λ (x : Job). x.job_id) (sym same) ∙ (string_eq.test_iff j.job_id id).0 is
  | inr other ↦ find-id js id job (ground (arith, e, other))
]

payout_set :
    (r : Result (Option Bytes) PoolError) (script : Bytes)
    → payout_or_none r ≡ some script
    → r ≡ ok (some script)
unfolding payout_or_none
payout_set (ok payout) script e = ap ok e
payout_set (err m) script e = absurd cc

Answered-source :
    {N : Type 0} (current_job : N → N × Option Job) (n : N) (job : Job) (log : List (Answer N))
    → All (λ (a : Answer N). (current_job a.asked_in).1 ≡ some a.job) log
    → Answered n job log
    → (current_job n).1 ≡ some job
unfolding Answered
Answered-source current_job n job [] h g = absurd g
Answered-source current_job n job (a ∷ log) h (inl (same_state, same_job)) =
    ap (λ m. (current_job m).1) (sym same_state) ∙ (h.0 ∙ ap some same_job)
Answered-source current_job n job (a ∷ log) h (inr g) = Answered-source current_job n job log h.1 g

module _ {N V O : Type 0} (o : Outside N V O)
    (decoded_bytes : (s : String) (bs : Bytes) → o.hex_decode s ≡ ok bs → All IsByte bs)
    (c : PoolConfig) (mode : c.daemon.job_source_mode ≡ rpc) where
  -- The log has the job as an answer to a question in a state of the node in which the daemon's answer was
  -- a template that the job is well formed for, with the configured payout script.
  pub record FromTemplate (log : List (Answer N)) (job : Job) : Type 0 where
    pub node : N
    pub in_log : Answered node job log
    pub template : BlockTemplate
    pub answered :
        (get_block_template o.json_value o.send
          (Daemon.new c.daemon.url c.daemon.rpc_user c.daemon.rpc_password)
          o.block_template_of
          node).1
        ≡ ok (some template)
    pub script : Bytes
    pub paid : payout_script_pubkey_bytes o.hex_decode c.pool ≡ ok (some script)
    pub formed : WellFormed o.hex_decode decoded_bytes o.bitcoin script template job

  from-template :
      (log : List (Answer N)) (n : N) (job : Job)
      → Answered n job log
      → ((main_wiring o c).current_job n).1 ≡ some job
      → FromTemplate log job
  unfolding main_wiring pool_services build_pool_services new_with_validator_and_share_sink
      new_inner source_current_job build_job_source source_of
  from-template log n job g e =
      let e' =
        subst (λ m. (source_current_job o (source_of o.hex_decode c m) n).1 ≡ some job) mode e in
      let (template, script, answered, paid, formed) =
        rpc_current_job-WellFormed o.hex_decode decoded_bytes o.send o.json_value
          o.block_template_of o.bitcoin _ n job e' in
      record {
        node = n;
        in_log = g;
        template = template;
        answered = answered;
        script = script;
        paid = payout_set _ script paid;
        formed = formed;
      }

  -- Where hexadecimal text decodes to bytes and the mode is RPC: after any steps of the pool, whatever the
  -- miners send and whatever the daemon answers, a job that is registered has the id that it is
  -- registered under, the source has answered it in these steps, to a question in a state of the node in
  -- which the daemon's answer was a template, and the job carries that template, field by field as
  -- `WellFormed` says, with the coinbase of the configured payout script.
  pub main_jobs-FromTemplate :
      (n : N) (k : ℕ) (sys : System (N × List (Answer N))) (id : String) (job : Job)
      → Reach (remembering (main_wiring o c)) (with_memory (main_pool o c n)) k sys
      → get_job sys.server.common.world.state.job_registry id ≡ some job
      → (job.job_id ≡ id) × FromTemplate sys.server.common.world.node.1 job
  unfolding main_pool pool_services build_pool_services new_with_validator_and_share_sink new_inner
  main_jobs-FromTemplate n k sys id job r known =
      let (held, sourced) = job_registry-Given (main_wiring o c) (main_pool o c n) k sys refl r in
      let (state, given) = get_job-Registered _ _ id job held known in
      (
        find-id held.jobs id job (sym (held.implements.agrees.lookup_eq id) ∙ known),
        from-template _ state job given
            (Answered-source (main_wiring o c).current_job state job _ sourced given),
      )
