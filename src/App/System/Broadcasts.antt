-- ===== src/App/System/Broadcasts.antt =====
-- What the poller broadcasts over the pool's runs.
use azcoin_stratum_pool.Prelude.{
  ℕ, true, List, [], ◌∷◌, ◌++◌, ◌≡◌, refl, sym, ap, ◌∙◌, inl, inr, subst, Bool-cases, Option-cases,
  string_eq,
}
use azcoin_stratum_pool.PoolCore.Types.{Job}
use azcoin_stratum_pool.App.Handler.{Pool}
use azcoin_stratum_pool.App.Poller.{
  Poller, new_poller, job_height, is_new, seen, Fresh, last_sent, seen-last, seen-old,
}
use azcoin_stratum_pool.App.System.{
  Wiring, System, tick, session_turn, Step, accepted, turned, ticked, jobs_shown, begin, Reach,
  begun, next,
}

-- `Fresh` and `last_sent` of a list with one more job at its end.
Fresh-append :
    (p : Poller) (jobs : List Job) (job : Job)
    → Fresh p jobs
    → is_new (last_sent p jobs) job ≡ true
    → Fresh p (jobs ++ (job ∷ []))
unfolding Fresh last_sent
Fresh-append p [] job h n = (n, tt)
Fresh-append p (first ∷ rest) job h n = (
  h.0,
  Fresh-append (seen p first) rest job h.1
      (subst (λ (q : Poller). is_new (last_sent q rest) job ≡ true) (sym (seen-last p first)) n),
)

last_sent-append :
    (p : Poller) (jobs : List Job) (job : Job)
    → last_sent p (jobs ++ (job ∷ [])) ≡ seen (last_sent p jobs) job
unfolding last_sent
last_sent-append p [] job = sym (seen-last p job)
last_sent-append p (first ∷ rest) job =
    last_sent-append (record { last_job_id = first.job_id; last_height = job_height first }) rest
      job

-- The broadcasts are fresh, and the poller remembers the last of them.
abbrev Remembers : {N : Type 0} → System N → Type 0
Remembers sys = Fresh new_poller sys.broadcasts × (last_sent new_poller sys.broadcasts ≡ sys.poller)

module _ {N V O : Type 0} (w : Wiring N V O) where
  tick-Remembers : (sys : System N) → Remembers sys → Remembers (tick w sys)
  unfolding tick
  tick-Remembers sys h = elim (Option-cases (w.current_job sys.server.common.world.node).1) [
    | inl e ↦ rw (e, tick) h
    | inr (job, e) ↦ elim (Bool-cases (is_new sys.poller job)) [
      | inl f ↦
          rw (e, tick)
            (rw (f) (
              Fresh-append new_poller sys.broadcasts job h.0
                  (ap (λ (q : Poller). is_new q job) h.1 ∙ f),
              last_sent-append new_poller sys.broadcasts job ∙ ap (λ (q : Poller). seen q job) h.1,
            ))
      | inr f ↦ rw (e, tick) (rw (f) (h.0, h.1 ∙ sym (seen-old sys.poller job f)))
    ]
  ]

  Step-Remembers :
      (before after : System N) → Step w before after → Remembers before → Remembers after
  unfolding session_turn
  Step-Remembers sys after accepted h = h
  Step-Remembers sys after (turned i s e at sent) h = h
  Step-Remembers sys after ticked h = tick-Remembers sys h
  Step-Remembers sys after jobs_shown h = h

  -- After any steps, no broadcast repeats the id and the height of the one before it, and the poller
  -- remembers those of the last one.
  pub broadcasts-Fresh :
      (pool : Pool N) (k : ℕ) (sys : System N)
      → Reach w pool k sys
      → Fresh new_poller sys.broadcasts × (last_sent new_poller sys.broadcasts ≡ sys.poller)
  unfolding begin Fresh last_sent
  broadcasts-Fresh pool k sys begun = (tt, refl)
  broadcasts-Fresh pool k sys (next {k = j} {before = before} r step) =
      Step-Remembers before sys step (broadcasts-Fresh pool j before r)
