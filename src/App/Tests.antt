-- ===== src/App/Tests.antt =====
-- The theorems of the application at concrete inputs.
use azcoin_stratum_pool.Prelude.{Option, none, some, List, [], ◌∷◌, ◌≡◌}
use azcoin_stratum_pool.PoolCore.Types.{Job, placeholder}
use azcoin_stratum_pool.App.Poller.{
  new_poller, job_height, is_new, seen, poll, last_seen, last_sent, last_sent-poll,
}

abbrev next_job : Job
next_job = record placeholder { job_id = "1" }

abbrev ticks : List (Option Job)
ticks = some placeholder ∷ none ∷ some placeholder ∷ some next_job ∷ []

last_sent-poll_example :
    last_sent new_poller (placeholder ∷ next_job ∷ [])
    ≡ record { last_job_id = "1"; last_height = 0 }
unfolding poll is_new seen job_height last_seen
last_sent-poll_example = last_sent-poll new_poller ticks
