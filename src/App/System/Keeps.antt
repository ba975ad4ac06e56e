-- ===== src/App/System/Keeps.antt =====
-- An invariant of the whole pool, from what each call of the handler and each question to the node keeps.
use azcoin_stratum_pool.Prelude.{
  ℕ, some, List, [], ◌∷◌, All, All-append, String, ok, ok-injective, ◌≡◌, sym, inl, inr, subst,
  Bool-cases, Option-cases,
}
use azcoin_stratum_pool.PoolCore.Types.{Job}
use azcoin_stratum_pool.Sv1.Server.{
  Event, read_error, end_of_stream, blank_line, bad_json, request, pushed, lagged, channel_closed,
}
use azcoin_stratum_pool.Sv1.Server as Sv1Server
use azcoin_stratum_pool.Sv1.Server.Keeps.{Keeps, Carries}
use azcoin_stratum_pool.Sv1.Server.Counted.{counted, accept-Keeps, turned-Keeps}
use azcoin_stratum_pool.App.Handler.{Pool, on_authorize}
use azcoin_stratum_pool.App.Poller.{is_new}
use azcoin_stratum_pool.App.Api.{pool_jobs_current}
use azcoin_stratum_pool.App.System.{
  Wiring, System, Sent, with_pool, sv1_handler, tick, session_turn, Step, accepted, turned, ticked,
  jobs_shown, begin, Reach, begun, next,
}

-- The job source gives the job, in some state of the node.
unfoldable pub Offered : {N V O : Type 0} → Wiring N V O → Job → Type 0
Offered {N} w job = (n : N) × ((w.current_job n).1 ≡ some job)

-- A session that authorizes is notified of what the source has just given.
pub authorized-Offered :
    {N V O : Type 0} (w : Wiring N V O) (pool : Pool N) (username : String) (job : Job)
    → ((sv1_handler w).on_authorize pool username).1 ≡ ok (some job)
    → Offered w job
unfolding Offered sv1_handler on_authorize
authorized-Offered w pool username job e = (pool.node, ok-injective e)

Sent-All : (J : Job → Type 0) (jobs : List Job) (job : Job) → All J jobs → Sent job jobs → J job
unfolding Sent
Sent-All J [] job h s = absurd s
Sent-All J (first ∷ rest) job h (inl e) = subst J (sym e) h.0
Sent-All J (first ∷ rest) job h (inr s) = Sent-All J rest job h.1 s

Carries-All :
    {V : Type 0} (J : Job → Type 0) (jobs : List Job) (e : Event V)
    → All J jobs
    → Carries (λ job. Sent job jobs) e
    → Carries J e
unfolding Carries
Carries-All J jobs read_error h c = tt
Carries-All J jobs end_of_stream h c = tt
Carries-All J jobs blank_line h c = tt
Carries-All J jobs (bad_json io) h c = tt
Carries-All J jobs (request req io) h c = tt
Carries-All J jobs (pushed job io) h c = Sent-All J jobs job h c
Carries-All J jobs lagged h c = tt
Carries-All J jobs channel_closed h c = tt

-- The pool after its job source was asked.
unfoldable pub questioned : {N V O : Type 0} → Wiring N V O → Pool N → Pool N
questioned w pool = record pool { node = (w.current_job pool.node).0 }

-- `J pool` holds of the jobs that may be notified; the jobs that were broadcast are among them for good.
module _ {N V O : Type 0} (w : Wiring N V O) (J : Pool N → Job → Type 0) (P : ℕ → Pool N → Type 0)
    (keeps : (sent : List Job) → Keeps (sv1_handler w) J (λ n pool. P n pool × All (J pool) sent))
    (asked : (n : ℕ) (pool : Pool N) (sent : List Job)
      → P n pool × All (J pool) sent
      → P n (questioned w pool) × All (J (questioned w pool)) sent)
    (fresh : (n : ℕ) (pool : Pool N) (job : Job)
      → P n pool
      → (w.current_job pool.node).1 ≡ some job
      → J (questioned w pool) job) where
  Holds : System N → Type 0
  Holds sys =
      P (counted sys.server) sys.server.common.world
      × All (J sys.server.common.world) sys.broadcasts

  tick-Holds : (sys : System N) → Holds sys → Holds (tick w sys)
  unfolding Holds tick with_pool counted questioned
  tick-Holds sys h =
      let pool = sys.server.common.world in
      let after = asked _ pool sys.broadcasts h in
      elim (Option-cases (w.current_job pool.node).1) [
        | inl e ↦ rw (e, tick) after
        | inr (job, e) ↦ elim (Bool-cases (is_new sys.poller job)) [
          | inl f ↦
              rw (e, tick) (rw (f) (after.0, All-append _ _ _ after.1 (fresh _ pool job h.0 e, tt)))
          | inr f ↦ rw (e, tick) (rw (f) after)
        ]
      ]

  Step-Holds : (before after : System N) → Step w before after → Holds before → Holds after
  unfolding Holds session_turn with_pool counted pool_jobs_current questioned
  Step-Holds sys after accepted h =
      accept-Keeps (sv1_handler w) J _ (keeps sys.broadcasts) sys.server h
  Step-Holds sys after (turned i s e at sent) h =
      turned-Keeps (sv1_handler w) J _ (keeps sys.broadcasts) w.initial_difficulty w.json
        w.hex_decode sys.server i s e at (Carries-All _ sys.broadcasts e h.1 sent) h
  Step-Holds sys after ticked h = tick-Holds sys h
  Step-Holds sys after jobs_shown h = asked _ _ sys.broadcasts h

  Reach-Holds_all :
      (pool : Pool N) (k : ℕ) (sys : System N) → P 0 pool → Reach w pool k sys → Holds sys
  unfolding Holds begin counted Sv1Server.start
  Reach-Holds_all pool k sys h begun = (h, tt)
  Reach-Holds_all pool k sys h (next {k = j} {before = before} r step) =
      Step-Holds before sys step (Reach-Holds_all pool j before h r)

  pub Reach-Keeps :
      (pool : Pool N) (k : ℕ) (sys : System N)
      → P 0 pool
      → Reach w pool k sys
      → P (counted sys.server) sys.server.common.world
  unfolding Holds
  Reach-Keeps pool k sys h r = (Reach-Holds_all pool k sys h r).0

-- The same for jobs that the source gives in some state of the node, whatever the pool's state.
module _ {N V O : Type 0} (w : Wiring N V O) (P : ℕ → Pool N → Type 0)
    (keeps : Keeps (sv1_handler w) (λ pool. Offered w) P)
    (asked : (n : ℕ) (pool : Pool N)
      → P n pool
      → P n (record pool { node = (w.current_job pool.node).0 })) where
  with_sent :
      (sent : List Job)
      → Keeps (sv1_handler w) (λ pool. Offered w) (λ n pool. P n pool × All (Offered w) sent)
  with_sent sent = record {
    connect = λ n pool h. (keeps.connect n pool h.0, h.1);
    disconnect = λ n pool h. (keeps.disconnect n pool h.0, h.1);
    authorize = λ n pool username h. (keeps.authorize n pool username h.0, h.1);
    authorized_job = λ n pool username job h e. keeps.authorized_job n pool username job h.0 e;
    notify_sent = λ n pool job j h. (keeps.notify_sent n pool job j h.0, h.1);
    submit = λ n pool share h. (keeps.submit n pool share h.0, h.1);
  }

  pub Reach-Holds :
      (pool : Pool N) (k : ℕ) (sys : System N)
      → P 0 pool
      → Reach w pool k sys
      → P (counted sys.server) sys.server.common.world
  unfolding questioned Offered
  Reach-Holds =
      Reach-Keeps w (λ pool. Offered w) P with_sent (λ n pool sent h. (asked n pool h.0, h.1))
        (λ n pool job h e. (pool.node, e))
