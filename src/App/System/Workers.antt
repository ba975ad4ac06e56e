-- ===== src/App/System/Workers.antt =====
-- The workers of the open sessions and those that the API shows.
use azcoin_stratum_pool.Prelude.{
  ℕ, ◌≤◌, String, [], All, length, length-map, map, string_eq, nat_eq, some, ◌≡◌, refl, sym, subst,
  ◌∙◌, inl, inr, arith, Bool-cases, Option-cases,
}
use azcoin_stratum_pool.PoolCore.Types.{WorkerIdentity, ShareSubmission}
use azcoin_stratum_pool.PoolCore.Worker
use azcoin_stratum_pool.PoolCore.Worker.{InMemoryWorkerRegistry}
use azcoin_stratum_pool.PoolCore.Stats.{snapshot}
use azcoin_stratum_pool.PoolCore.Processor.{process_share}
use azcoin_stratum_pool.Sv1.Session.{SessionState}
use azcoin_stratum_pool.Sv1.Server as Sv1Server
use azcoin_stratum_pool.Sv1.Server.Known.{Extends, Remembers, Known, AllKnown}
use azcoin_stratum_pool.Sv1.Server.Known.Turns.{accept-AllKnown, turned-AllKnown}
use azcoin_stratum_pool.App.Handler.{
  Pool, on_connect, on_disconnect, on_notify_sent, on_authorize, on_submit, is_block,
}
use azcoin_stratum_pool.App.Api.{pool_jobs_current, pool_workers, pool_stats, summarize}
use azcoin_stratum_pool.App.Api.Laws.{shown, shown_in, Keyed, Keyed-insert, shown-insert}
use azcoin_stratum_pool.App.System.{
  Wiring, System, decoded, with_pool, sv1_handler, tick, session_turn, Step, accepted, turned,
  ticked, jobs_shown, begin, Reach, begun, next,
}

-- Each worker stands under its own id, and none is shown twice.
unfoldable pub Good : InMemoryWorkerRegistry → Type 0
Good m = Keyed m × ((u : String) → shown_in u m ≤ 1)

register-Good :
    (m : InMemoryWorkerRegistry) (w : WorkerIdentity) → Good m → Good (Worker.register m w)
unfolding Good Worker.register
register-Good m w h = (Keyed-insert w m h.0, λ u. ground (arith, shown-insert u w m h.0, h.1 u))

register-kept :
    (m : InMemoryWorkerRegistry) (w : WorkerIdentity) (u : String)
    → Good m
    → shown_in u m ≡ 1
    → shown_in u (Worker.register m w) ≡ 1
unfolding Good Worker.register
register-kept m w u h k = ground (arith, shown-insert u w m h.0, k)

register-shown :
    (m : InMemoryWorkerRegistry) (w : WorkerIdentity)
    → Good m
    → shown_in w.id (Worker.register m w) ≡ 1
unfolding Good Worker.register
register-shown m w h =
    ground (arith, shown-insert w.id w m h.0, h.1 w.id, string_eq.test_iff w.id w.id)

-- The worker of the session, where it has authorized, is shown once.
unfoldable pub WorkerShown : {N : Type 0} → Pool N → SessionState → Type 0
WorkerShown pool s =
    (worker : WorkerIdentity)
    → s.authorized_worker ≡ some worker
    → shown worker.id (pool_workers pool) ≡ 1

module _ {N V O : Type 0} (w : Wiring N V O) where
  abbrev GoodPool : Pool N → Type 0
  GoodPool pool = Good pool.worker_registry

  abbrev Has : String → Pool N → Type 0
  Has u pool = shown_in u pool.worker_registry ≡ 1

  same_workers :
      (before after : Pool N)
      → after.worker_registry ≡ before.worker_registry
      → GoodPool before
      → Extends GoodPool Has before after
  same_workers before after e h = record {
    good = subst Good (sym e) h;
    kept = λ u k. subst (λ m. shown_in u m ≡ 1) (sym e) k;
  }

  submit-workers :
      (pool : Pool N) (share : ShareSubmission)
      → ((sv1_handler w).on_submit pool share).0.worker_registry ≡ pool.worker_registry
  unfolding sv1_handler on_submit
  submit-workers pool share =
      let answer = process_share (decoded w.hex_decode) w.share_processor pool.state share in
      elim (Bool-cases (is_block answer.0)) [
        | inl e ↦ rw (e, on_submit) refl
        | inr e ↦ rw (e, on_submit) refl
      ]

  handler-Remembers : Remembers GoodPool Has (sv1_handler w)
  unfolding sv1_handler on_connect on_disconnect on_notify_sent on_authorize Worker.new
  handler-Remembers = record {
    connect = λ pool h. same_workers pool _ refl h;
    disconnect = λ pool h. same_workers pool _ refl h;
    authorize = λ pool username h. record {
      good = register-Good _ (Worker.new username) h;
      kept = λ u k. register-kept _ (Worker.new username) u h k;
    };
    authorized = λ pool username h. register-shown _ (Worker.new username) h;
    notify_sent = λ pool job h. same_workers pool _ refl h;
    submit = λ pool share h. same_workers pool _ (submit-workers pool share) h;
  }

  Holds : System N → Type 0
  Holds sys = AllKnown GoodPool Has sys.server

  tick-Holds : (sys : System N) → Holds sys → Holds (tick w sys)
  unfolding Holds tick with_pool Known
  tick-Holds sys h = elim (Option-cases (w.current_job sys.server.common.world.node).1) [
    | inl e ↦ rw (e, tick) (record { good = h.good; each = h.each })
    | inr (job, e) ↦ rw (e, tick) (record { good = h.good; each = h.each })
  ]

  Step-Holds : (before after : System N) → Step w before after → Holds before → Holds after
  unfolding Holds session_turn with_pool pool_jobs_current Known
  Step-Holds sys after accepted h =
      accept-AllKnown GoodPool Has (sv1_handler w) handler-Remembers w.initial_difficulty w.json
        w.hex_decode sys.server h
  Step-Holds sys after (turned i s e at sent) h =
      turned-AllKnown GoodPool Has (sv1_handler w) handler-Remembers w.initial_difficulty w.json
        w.hex_decode sys.server i s e at h
  Step-Holds sys after ticked h = tick-Holds sys h
  Step-Holds sys after jobs_shown h = record { good = h.good; each = h.each }

  Reach-Holds :
      (pool : Pool N) (k : ℕ) (sys : System N)
      → pool.worker_registry ≡ []
      → Reach w pool k sys
      → Holds sys
  unfolding Holds begin Sv1Server.start Good shown_in shown Keyed
  Reach-Holds pool k sys h begun = record { good = rw h (tt, λ u. omega arith); each = tt }
  Reach-Holds pool k sys h (next {k = j} {before = before} r step) =
      Step-Holds before sys step (Reach-Holds pool j before h r)

  -- After any steps from a pool without workers, whatever the miners send: the API shows the worker of
  -- every open session that has authorized exactly once, it shows no id twice, and the count in its
  -- statistics is the length of the list that it shows.
  pub workers_shown :
      (pool : Pool N) (k : ℕ) (sys : System N)
      → pool.worker_registry ≡ []
      → Reach w pool k sys
      → let after = sys.server.common.world in
        All (WorkerShown after) sys.server.sessions
        × ((u : String) → shown u (pool_workers after) ≤ 1)
        × ((pool_stats after).worker_count ≡ length (pool_workers after))
  unfolding Holds Good pool_workers pool_stats Worker.list Worker.count shown_in snapshot Known
      WorkerShown
  workers_shown pool k sys h r =
      let holds = Reach-Holds pool k sys h r in
      let entries = sys.server.common.world.worker_registry in
      (
        holds.each,
        holds.good.1,
        sym (length-map summarize (map (λ e. e.1) entries) ∙ length-map (λ e. e.1) entries),
      )
