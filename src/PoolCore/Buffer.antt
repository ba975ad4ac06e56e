-- ===== src/PoolCore/Buffer.antt =====
-- crates/pool_core/src/share_buffer.rs: the recent shares shown by the API, oldest first.
use azcoin_stratum_pool.Prelude.{
  ℕ, suc, ◌-◌, String, Bool, Option, List, [], ◌∷◌, ◌++◌, map, leb, length, drop, if◌then◌else◌,
  ◌≡◌, refl, sym, ◌∙◌, ap, arith, length-append, length-drop, length-map, inl, inr, drop-append_le,
  drop-drop_one, Bool-cases,
}
use mathlib.Core.List.{append_assoc, append-nil}
use azcoin_stratum_pool.PoolCore.Types.{ShareSubmission, ShareResult, is_accepted, reject_reason}

abbrev pub max_recent : ℕ
max_recent = 100

pub record ShareAttempt : Type 0 where
  pub worker_id : String
  pub job_id : String
  pub accepted : Bool
  pub reject_reason : Option String

abbrev pub RecentSharesBuffer : Type 0
RecentSharesBuffer = List ShareAttempt

-- The entry that `record` makes of a share and its result.
unfoldable pub attempt : ShareSubmission → ShareResult → ShareAttempt
attempt share result = record {
  worker_id = share.worker.id;
  job_id = share.job_id;
  accepted = is_accepted result;
  reject_reason = reject_reason result;
}

-- `pop_front` where the buffer is full, then `push_back`.
unfoldable pub push_attempt : RecentSharesBuffer → ShareAttempt → RecentSharesBuffer
push_attempt entries a =
    (if leb max_recent (length entries) then drop 1 entries else entries) ++ (a ∷ [])

unfoldable pub record_share :
    RecentSharesBuffer → ShareSubmission → ShareResult → RecentSharesBuffer
unfolding attempt push_attempt
record_share entries share result = push_attempt entries (attempt share result)

unfoldable pub recent : RecentSharesBuffer → List ShareAttempt
recent entries = entries

unfoldable pub record_all :
    RecentSharesBuffer → List (ShareSubmission × ShareResult) → RecentSharesBuffer
record_all entries [] = entries
record_all entries ((share, result) ∷ rest) = record_all (record_share entries share result) rest

-- A buffer that holds the last entries of a history goes on to hold the last entries.
push_attempt-last :
    (past : List ShareAttempt) (a : ShareAttempt)
    → push_attempt (drop (length past - max_recent) past) a
      ≡ drop (length (past ++ (a ∷ [])) - max_recent) (past ++ (a ∷ []))
unfolding push_attempt
push_attempt-last past a =
    let size = length-drop (length past - max_recent) past in
    let longer = length-append past (a ∷ []) in
    elim (Bool-cases (leb max_recent (length (drop (length past - max_recent) past)))) [
      | inl full ↦ rw full (
          rw (drop-drop_one (length past - max_recent) past) (
            sym
              (drop-append_le (suc (length past - max_recent)) past (a ∷ []) (ground (arith, size)))
            ∙ ap (λ n. drop n (past ++ (a ∷ []))) {x = suc (length past - max_recent)}
                (ground (arith, size, longer))))
      | inr room ↦ rw room (
          sym (drop-append_le (length past - max_recent) past (a ∷ []) (omega arith))
          ∙ ap (λ n. drop n (past ++ (a ∷ []))) {x = length past - max_recent}
              (ground (arith, size, longer)))
    ]

record_all-last :
    (past : List ShareAttempt) (shares : List (ShareSubmission × ShareResult))
    → record_all (drop (length past - max_recent) past) shares
      ≡ (let all = past ++ map (λ s. attempt s.0 s.1) shares in drop (length all - max_recent) all)
unfolding record_all record_share
record_all-last past [] = rw append-nil refl
record_all-last past ((share, result) ∷ rest) =
    rw (push_attempt-last past (attempt share result))
      (record_all-last (past ++ (attempt share result ∷ [])) rest ∙ rw append_assoc refl)

-- After any sequence of shares the buffer holds the entries of the last 100 of them, in order.
pub recent-record_all :
    (shares : List (ShareSubmission × ShareResult))
    → recent (record_all [] shares)
      ≡ drop (length shares - max_recent) (map (λ s. attempt s.0 s.1) shares)
unfolding recent
recent-record_all shares =
    record_all-last [] shares
    ∙ rw (length-map (λ (s : ShareSubmission × ShareResult). attempt s.0 s.1) shares) refl
