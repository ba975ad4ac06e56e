-- ===== src/App/Poller.antt =====
-- crates/azcoin-pool/src/main.rs: the job poller. One tick asks the job source for its current job and
-- broadcasts it when its id or its height differs from the last broadcast.
use azcoin_stratum_pool.Prelude.{
  ℕ, String, Bool, true, false, not, ◌||◌, Option, none, some, List, [], ◌∷◌, if◌then◌else◌, nat_eq,
  string_eq, ◌==◌, ◌≡◌, refl, arith, Bool-cases, inl, inr, subst, sym, ap, ◌∙◌,
}
use azcoin_stratum_pool.PoolCore.Types.{Job}

-- `last_job_id` and `last_height`.
pub record Poller : Type 0 where
  pub last_job_id : String
  pub last_height : ℕ

abbrev pub new_poller : Poller
new_poller = record { last_job_id = ""; last_height = 0 }

-- `job.block_assembly.as_ref().map(|b| b.height).unwrap_or(0)`
unfoldable pub job_height : Job → ℕ
job_height job = elim job.block_assembly [ none ↦ 0 | some b ↦ b.height ]

-- Whether the job is not the one that was broadcast last.
unfoldable pub is_new : Poller → Job → Bool
is_new p job = not (job.job_id == p.last_job_id) || not (job_height job == p.last_height)

-- The poller after a job was seen.
unfoldable pub seen : Poller → Job → Poller
seen p job =
    if is_new p job then record { last_job_id = job.job_id; last_height = job_height job } else p

-- The jobs that are broadcast over the ticks; `none` is a tick without a current job.
unfoldable pub poll : Poller → List (Option Job) → List Job
poll p [] = []
poll p (none ∷ ticks) = poll p ticks
poll p (some job ∷ ticks) =
    let rest = poll (seen p job) ticks in if is_new p job then job ∷ rest else rest

-- No job of the list repeats the id and the height of the one before it.
unfoldable pub Fresh : Poller → List Job → Type 0
Fresh p [] = Unit
Fresh p (job ∷ jobs) = (is_new p job ≡ true) × Fresh (seen p job) jobs

poll-Fresh_from : (p : Poller) (ticks : List (Option Job)) → Fresh p (poll p ticks)
unfolding poll Fresh seen
poll-Fresh_from p [] = tt
poll-Fresh_from p (none ∷ ticks) = poll-Fresh_from p ticks
poll-Fresh_from p (some job ∷ ticks) =
    let rest = poll-Fresh_from (seen p job) ticks in
    elim (Bool-cases (is_new p job)) [
      | inl fresh ↦
          let same : poll p (some job ∷ ticks) ≡ job ∷ poll (seen p job) ticks =
            rw (fresh, poll) refl in
          subst (Fresh p) (sym same) (fresh, rest)
      | inr old ↦
          let same : poll p (some job ∷ ticks) ≡ poll p ticks = rw (old, poll, seen) refl in
          subst (Fresh p) (sym same) (poll-Fresh_from p ticks)
    ]

-- Over any sequence of ticks the poller never broadcasts a job with the id and the height of its last
-- broadcast.
pub poll-Fresh : (ticks : List (Option Job)) → Fresh new_poller (poll new_poller ticks)
poll-Fresh ticks = poll-Fresh_from new_poller ticks

-- The id and the height of the last job that the ticks saw, from those of `p`.
unfoldable pub last_seen : Poller → List (Option Job) → Poller
last_seen p [] = p
last_seen p (none ∷ ticks) = last_seen p ticks
last_seen p (some job ∷ ticks) =
    last_seen (record { last_job_id = job.job_id; last_height = job_height job }) ticks

-- The same of the jobs that were broadcast.
unfoldable pub last_sent : Poller → List Job → Poller
last_sent p [] = p
last_sent p (job ∷ jobs) =
    last_sent (record { last_job_id = job.job_id; last_height = job_height job }) jobs

pub seen-last :
    (p : Poller) (job : Job)
    → seen p job ≡ record { last_job_id = job.job_id; last_height = job_height job }
unfolding seen is_new
seen-last p job = elim (Bool-cases (is_new p job)) [
  | inl fresh ↦ rw (fresh, seen) refl
  | inr old ↦ ground (
    arith,
    old,
    string_eq.test_iff job.job_id p.last_job_id,
    nat_eq.test_iff (job_height job) p.last_height,
  )
]

pub seen-old : (p : Poller) (job : Job) → is_new p job ≡ false → seen p job ≡ p
unfolding seen
seen-old p job old = rw (old, seen) refl

-- Nothing is missed: after any sequence of ticks the last job that was broadcast has the id and the
-- height of the last job that the source gave.
pub last_sent-poll :
    (p : Poller) (ticks : List (Option Job)) → last_sent p (poll p ticks) ≡ last_seen p ticks
unfolding poll last_sent last_seen
last_sent-poll p [] = refl
last_sent-poll p (none ∷ ticks) = last_sent-poll p ticks
last_sent-poll p (some job ∷ ticks) =
    let rest = last_sent-poll (seen p job) ticks in
    let here = seen-last p job in
    elim (Bool-cases (is_new p job)) [
      | inl fresh ↦
          rw (fresh, poll)
            (subst (λ (q : Poller). last_sent q (poll (seen p job) ticks) ≡ last_seen q ticks) here
              rest)
      | inr old ↦
          rw (old, poll)
            (ap (λ (q : Poller). last_sent q (poll (seen p job) ticks)) (sym (seen-old p job old))
              ∙ (rest ∙ ap (λ (q : Poller). last_seen q ticks) here))
    ]
